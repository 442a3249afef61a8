-- ===== src/Agent/Backoff.antt =====
-- How long the agent waits before it tries again.
use nfrx.Prelude.{
  ℕ, Bool, Bool-cases, List, Option-cases, [], ap, arith, false, if◌then◌else◌, inl, inr, length,
  ltb, refl, replicate, suc, true, zero, ◌*◌, ◌++◌, ◌∷◌, ◌≡◌, ◌≤◌,
}
use nfrx.Agent.Reconnect.{delay, Attempt, monitor, run_with_reconnect, second}

delay_pieces :
    (n : ℕ)
    → delay n ≡ (
        if ltb n 3
        then second
        else if ltb n 6
        then 5 * second
        else if ltb n 9
        then 15 * second
        else 30 * second)
unfolding delay
delay_pieces zero = refl
delay_pieces (suc zero) = refl
delay_pieces (suc (suc zero)) = refl
delay_pieces (suc (suc (suc zero))) = refl
delay_pieces (suc (suc (suc (suc zero)))) = refl
delay_pieces (suc (suc (suc (suc (suc zero))))) = refl
delay_pieces (suc (suc (suc (suc (suc (suc zero)))))) = refl
delay_pieces (suc (suc (suc (suc (suc (suc (suc zero))))))) = refl
delay_pieces (suc (suc (suc (suc (suc (suc (suc (suc zero)))))))) = refl
delay_pieces (suc (suc (suc (suc (suc (suc (suc (suc (suc n))))))))) = ground arith

-- The delays of `n` attempts, the first of which is number `from`.
abbrev pub delays : ℕ → ℕ → List ℕ
delays from zero = []
delays from (suc n) = delay from ∷ delays (suc from) n

monitor_failing : (interval n from : ℕ) → monitor interval (replicate n false) from ≡ delays from n
unfolding monitor
monitor_failing interval zero from = refl
monitor_failing interval (suc n) from =
    ap (λ t. delay from ∷ t) (monitor_failing interval n (suc from))

monitor_resets :
    (interval n from : ℕ) (probes : List Bool)
    → monitor interval (probes ++ true ∷ replicate n false) from
      ≡ monitor interval probes from ++ interval ∷ delays 0 n
unfolding monitor
monitor_resets interval n from [] = ap (λ t. interval ∷ t) (monitor_failing interval n 0)
monitor_resets interval n from (true ∷ probes) =
    ap (λ t. interval ∷ t) (monitor_resets interval n 0 probes)
monitor_resets interval n from (false ∷ probes) =
    ap (λ t. delay from ∷ t) (monitor_resets interval n (suc from) probes)

run-delays :
    (again : Bool) (attempts : List Attempt) (from : ℕ)
    → (run_with_reconnect again attempts from).0
      ≡ delays from (length (run_with_reconnect again attempts from).0)
unfolding run_with_reconnect
run-delays again [] from = refl
run-delays false (a ∷ rest) from = elim (Option-cases a.error) [
  | inl fine ↦ rw fine refl
  | inr (e, lost) ↦ rw lost refl
]
run-delays true (a ∷ rest) from = elim (Option-cases a.error) [
  | inl fine ↦ rw fine refl
  | inr (e, lost) ↦ elim (Bool-cases a.is_done) [
    | inl over ↦ rw (lost, over) refl
    | inr live ↦ rw (lost, live) (ap (λ t. delay from ∷ t) (run-delays true rest (suc from)))
  ]
]

-- A delay is at least a second and at most 30, and later delays are not shorter. RunWithReconnect
-- waits for the delays 0, 1, 2 and so on, and monitorBackend, after a probe that succeeds, begins
-- anew with the delay 0.
pub waits_bounded :
    (interval m n from : ℕ) (again : Bool) (attempts : List Attempt) (probes : List Bool)
    → m ≤ n
    → (second ≤ delay m)
      × (delay m ≤ delay n)
      × (delay n ≤ 30 * second)
      × ((run_with_reconnect again attempts 0).0
          ≡ delays 0 (length (run_with_reconnect again attempts 0).0))
      × (monitor interval (probes ++ true ∷ replicate n false) from
          ≡ monitor interval probes from ++ interval ∷ delays 0 n)
waits_bounded interval m n from again attempts probes h = (
  ground (arith, delay_pieces m),
  ground (arith, delay_pieces m, delay_pieces n, h),
  ground (arith, delay_pieces n),
  run-delays again attempts 0,
  monitor_resets interval n from probes,
)
