-- ===== src/Partition/Pool/Bounded.antt =====
-- How many turns the goroutines of partition.go can take together: each worker is tried once by
-- each, and each item of `cond` wakes one.
use nfrx.Prelude.{
  ℕ, All, IsDistinct, List, String, [], arith, contains, eq_iff, if◌then◌else◌, length, refl, suc,
  ◌*◌, ◌++◌, ◌+◌, ◌-◌, ◌<◌, ◌∷◌, ◌≡◌, ◌≤◌,
}
use nfrx.Partition.{Task}
use nfrx.Partition.Pool.{
  Phase, Pool, Runner, Shared, Turned, blocked, ended, ended_on, hand_out, new_pool, release, scans,
  sends_to,
}
use nfrx.Partition.Pool.Turns.{
  total, leaves, All-at, Move, Step, Steps, delivers, finds_none, gives_up, here, later, retries,
  takes, takes_turn, total-swap, turn-Move, turned, waits_there, wakes,
}
use nfrx.Partition.Pool.Owners.{Inv, Keeps, KeepsPhase, Steps-Inv, holds, holds_in, one_if_in}
use nfrx.Partition.Pool.Sets.{length-add}

-- What a runner can still do: four turns for each worker that it has not tried.
unfoldable pub weight_in : ℕ → ℕ → Phase → ℕ
weight_in n tried (sends_to w) = (n - tried) * 4
weight_in n tried scans = suc ((n - tried) * 4)
weight_in n tried blocked = (n - tried) * 4
weight_in n tried (ended good) = 0
weight_in n tried (ended_on w) = 0

abbrev pub weighs : ℕ → Runner → ℕ
weighs n x = weight_in n (length x.attempted) x.phase

abbrev pub token_weight : Shared → ℕ
token_weight s = if s.token then 2 else 0

abbrev pub turns_left : ℕ → Pool → ℕ
turns_left n p = total (weighs n) p.runners + token_weight p.shared

module _ (size : ℕ) (workers : List String) where
  Move-less :
      (t : Task) (attempted : List String) (s : Shared) (ph : Phase) (r : Turned)
      → Move size workers t attempted s ph r
      → KeepsPhase size (length workers) t attempted ph
      → weight_in (length workers) (length r.attempted) r.phase + token_weight r.shared
        < weight_in (length workers) (length attempted) ph + token_weight s
  unfolding KeepsPhase weight_in release
  Move-less t attempted s ph r (leaves w empty) k = omega (arith, k.1)
  Move-less t attempted s ph r (delivers w full) k = ground (arith, k.1)
  Move-less t attempted s ph r (gives_up w full all) k = ground (arith, k.1)
  Move-less t attempted s ph r (retries w full more) k =
      ground (arith, k.1, length-add w attempted k.0)
  Move-less t attempted s ph r (takes w free new known) k = omega arith
  Move-less t attempted s ph r (finds_none all) k = absurd (omega arith)
  Move-less t attempted s ph r (waits_there more nothing) k = omega arith
  Move-less t attempted s ph r (wakes there) k = ground arith

  Step-less :
      (p q : Pool)
      → Step size workers p q
      → Inv size workers p
      → turns_left (length workers) q < turns_left (length workers) p
  Step-less p q (takes_turn before rest x ok r e h e') i =
      let n = length workers in
      let k' : All (Keeps size n) (before ++ x ∷ rest) = rw (← e) i.1 in
      let kx = All-at (Keeps size n) before rest x k' in
      let m = turn-Move size workers x.task x.attempted p.shared ok x.phase r h in
      let less = Move-less x.task x.attempted p.shared x.phase r m kx.1 in
      rw (e, e') (omega (arith, less, total-swap (weighs n) before rest x (turned x r)))

  Steps-less :
      (p q : Pool) (k : ℕ)
      → Steps size workers p k q
      → Inv size workers p
      → k + turns_left (length workers) q ≤ turns_left (length workers) p
  Steps-less p q k here i = omega arith
  Steps-less p q k (later {n = j} {q = o} before st) i =
      let i' = Steps-Inv size workers p o j before i in
      omega (arith, Steps-less p o j before i, Step-less o q st i')

-- The pool as it begins keeps the invariant, and each runner has every worker before it.
holds-hand_out :
    (w : String) (ws : List String) (ts : List Task)
    → length ws ≡ length ts
    → IsDistinct ws
    → total (holds w) (hand_out ws ts) ≡ one_if_in ws w
unfolding hand_out holds_in contains
holds-hand_out w [] ts e d = refl
holds-hand_out w (v ∷ ws) [] e d = absurd (omega arith)
holds-hand_out w (v ∷ ws) (t ∷ ts) e d =
    ground (arith, holds-hand_out w ws ts (omega arith) d.1, d.0, eq_iff v w)

Keeps-hand_out :
    (size n : ℕ) (ws : List String) (ts : List Task) → 0 < n → All (Keeps size n) (hand_out ws ts)
unfolding hand_out KeepsPhase contains
Keeps-hand_out size n [] ts h = tt
Keeps-hand_out size n (v ∷ ws) [] h = tt
Keeps-hand_out size n (v ∷ ws) (t ∷ ts) h = ((tt, (refl, h)), Keeps-hand_out size n ws ts h)

weighs-hand_out :
    (n : ℕ) (ws : List String) (ts : List Task)
    → length ws ≡ length ts
    → total (weighs n) (hand_out ws ts) ≡ length ws * (n * 4)
unfolding hand_out weight_in
weighs-hand_out n [] ts e = omega arith
weighs-hand_out n (v ∷ ws) [] e = absurd (omega arith)
weighs-hand_out n (v ∷ ws) (t ∷ ts) e = ground (arith, weighs-hand_out n ws ts (omega arith))

pub new_pool-Inv :
    (size : ℕ) (workers : List String) (tasks : List Task)
    → length workers ≡ length tasks
    → IsDistinct workers
    → Inv size workers (new_pool workers tasks)
unfolding new_pool
new_pool-Inv size [] tasks e d = ((λ w. holds-hand_out w [] tasks e d), tt)
new_pool-Inv size (v ∷ ws) tasks e d = (
  (λ w. holds-hand_out w (v ∷ ws) tasks e d),
  Keeps-hand_out size (suc (length ws)) (v ∷ ws) tasks (omega arith),
)

-- However the goroutines of a request with n different workers and n tasks take their turns, they
-- take at most 4n² of them: no goroutine retries for ever.
pub turns_bounded :
    (size : ℕ) (workers : List String) (tasks : List Task) (k : ℕ) (q : Pool)
    → length workers ≡ length tasks
    → IsDistinct workers
    → Steps size workers (new_pool workers tasks) k q
    → k ≤ length workers * (length workers * 4)
unfolding new_pool
turns_bounded size workers tasks k q e d steps = omega (
  arith,
  Steps-less size workers (new_pool workers tasks) q k steps (new_pool-Inv size workers tasks e d),
  weighs-hand_out (length workers) workers tasks e,
)

-- For as many tasks as there are different workers, at any time each worker is held by at most one
-- goroutine of the request, and each goroutine has attempted distinct workers, of which the one it
-- sends to is none; one that has not ended has not attempted all.
pub Steps-Exclusive :
    (size : ℕ) (workers : List String) (tasks : List Task) (k : ℕ) (q : Pool)
    → length workers ≡ length tasks
    → IsDistinct workers
    → Steps size workers (new_pool workers tasks) k q
    → ((w : String) → total (holds w) q.runners ≤ 1) × All (Keeps size (length workers)) q.runners
Steps-Exclusive size workers tasks k q e d steps =
    let i =
      Steps-Inv size workers (new_pool workers tasks) q k steps
        (new_pool-Inv size workers tasks e d) in
    ((λ w. ground (arith, i.0 w)), i.1)
