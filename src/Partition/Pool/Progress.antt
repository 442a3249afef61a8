-- ===== src/Partition/Pool/Progress.antt =====
-- No lost wake-up in the pool of partition.go: `cond` holds one item only and any waiter may take
-- it, yet while no chunk is empty some goroutine can go on until all have ended.
use nfrx.Prelude.{
  ℕ, All, Bool, Bool-cases, IsDistinct, List, String, [], arith, inl, inr, length, refl, ◌++◌, ◌<◌,
  ◌∷◌, ◌≡◌, ◌⊎◌, some, true, ◌==◌,
}
use nfrx.Partition.{Task, make_chunk}
use nfrx.Partition.Pool.{
  Phase, Pool, Runner, blocked, ended, ended_on, scans, sends_to, Shared, Turned, turn, hand_out,
  new_pool,
}
use nfrx.Partition.Pool.Turns.{total, Step, total-append, takes_turn, Steps, here, later}
use nfrx.Partition.Pool.Owners.{Inv, Keeps, KeepsPhase, Step-Inv, Steps-Inv}
use nfrx.Partition.Pool.Bounded.{new_pool-Inv}
use nfrx.Partition.Pool.Wakeful.{
  at_work, HasWork, Step-HasWork, Step-Wakeful, Wakeful, at_work_in, find_runner, waits, waits_in,
}

abbrev pub Ended : Runner → Type 0
Ended x = (good : Bool) × (x.phase ≡ ended good)

module _ (size : ℕ) (workers : List String) (d : IsDistinct workers) where
  -- Whoever is at work has a turn, and a waiter has one while `cond` holds an item.
  turn-at_work :
      (t : Task) (attempted : List String) (s : Shared) (ph : Phase)
      → 0 < at_work_in ph
      → (r : Turned) × (turn size workers true t attempted s ph ≡ some r)
  unfolding at_work_in turn
  turn-at_work t attempted s (sends_to w) h =
      elim (Bool-cases (make_chunk size t.start t.count == 0)) [
        | inl empty ↦ rw empty (_, refl)
        | inr full ↦ rw full (_, refl)
      ]
  turn-at_work t attempted s scans h = (_, refl)
  turn-at_work t attempted s blocked h = absurd (omega arith)
  turn-at_work t attempted s (ended good) h = absurd (omega arith)
  turn-at_work t attempted s (ended_on w) h = absurd (omega arith)

  turn-waits :
      (t : Task) (attempted : List String) (s : Shared) (ph : Phase)
      → 0 < waits_in ph
      → s.token ≡ true
      → (r : Turned) × (turn size workers true t attempted s ph ≡ some r)
  unfolding waits_in turn
  turn-waits t attempted s (sends_to w) h there = absurd (omega arith)
  turn-waits t attempted s scans h there = absurd (omega arith)
  turn-waits t attempted s blocked h there = rw there (_, refl)
  turn-waits t attempted s (ended good) h there = absurd (omega arith)
  turn-waits t attempted s (ended_on w) h there = absurd (omega arith)

  ended_phase :
      (t : Task) (attempted : List String) (ph : Phase)
      → 0 < make_chunk size t.start t.count
      → KeepsPhase size (length workers) t attempted ph
      → at_work_in ph ≡ 0
      → waits_in ph ≡ 0
      → (good : Bool) × (ph ≡ ended good)
  unfolding at_work_in waits_in KeepsPhase
  ended_phase t attempted (sends_to w) h k a b = absurd (omega arith)
  ended_phase t attempted scans h k a b = absurd (omega arith)
  ended_phase t attempted blocked h k a b = absurd (omega arith)
  ended_phase t attempted (ended good) h k a b = (good, refl)
  ended_phase t attempted (ended_on w) h k a b = absurd (omega (arith, k))

  All-Ended :
      (xs : List Runner)
      → All (HasWork size) xs
      → All (Keeps size (length workers)) xs
      → total at_work xs ≡ 0
      → total waits xs ≡ 0
      → All Ended xs
  All-Ended [] h k a b = tt
  All-Ended (x ∷ xs) h k a b = (
    ended_phase x.task x.attempted x.phase h.0 k.0.1 (omega arith) (omega arith),
    All-Ended xs h.1 k.1 (omega arith) (omega arith),
  )

  -- All have ended, or there is a next turn.
  go_on :
      (q : Pool)
      → Inv size workers q
      → All (HasWork size) q.runners
      → Wakeful q
      → All Ended q.runners ⊎ ((r : Pool) × Step size workers q r)
  go_on q i h awake = elim (find_runner at_work q.runners) [
    | inr (before, x, rest, e, busy) ↦
        let found = turn-at_work x.task x.attempted q.shared x.phase busy in
        inr (_, takes_turn before rest x true found.0 e found.1 refl)
    | inl idle ↦ elim (find_runner waits q.runners) [
      | inl nobody ↦ inl (All-Ended q.runners h i.1 idle nobody)
      | inr (before, x, rest, e, waiting) ↦ elim (Bool-cases q.shared.token) [
        | inl there ↦
            let found = turn-waits x.task x.attempted q.shared x.phase waiting there in
            inr (_, takes_turn before rest x true found.0 e found.1 refl)
        | inr gone ↦
            let sum : total waits (before ++ x ∷ rest) ≡ 0 = rw (← e) (awake idle gone) in
            absurd (omega (arith, sum, waiting, total-append waits before (x ∷ rest)))
      ]
    ]
  ]

  Steps-Wakeful :
      (p q : Pool) (k : ℕ)
      → Steps size workers p k q
      → Inv size workers p
      → All (HasWork size) p.runners
      → Wakeful p
      → All (HasWork size) q.runners × Wakeful q
  Steps-Wakeful p q k here i h awake = (h, awake)
  Steps-Wakeful p q k (later {n = j} {q = o} before st) i h awake =
      let i' = Steps-Inv size workers p o j before i in
      let h' = Step-HasWork size workers d o q st (Steps-Wakeful p o j before i h awake).0 in
      (h', Step-Wakeful size workers d o q st i' (Step-Inv size workers o q st i') h')

-- As the request begins each runner has its worker, and so none waits.
hand_out-HasWork :
    (size : ℕ) (ws : List String) (ts : List Task)
    → All (λ t. 0 < make_chunk size t.start t.count) ts
    → All (HasWork size) (hand_out ws ts)
unfolding hand_out
hand_out-HasWork size [] ts h = tt
hand_out-HasWork size (w ∷ ws) [] h = tt
hand_out-HasWork size (w ∷ ws) (t ∷ ts) h = (h.0, hand_out-HasWork size ws ts h.1)

waits-hand_out : (ws : List String) (ts : List Task) → total waits (hand_out ws ts) ≡ 0
unfolding hand_out waits_in
waits-hand_out [] ts = refl
waits-hand_out (w ∷ ws) [] = refl
waits-hand_out (w ∷ ws) (t ∷ ts) = omega (arith, waits-hand_out ws ts)

-- A request with as many tasks as workers, no worker twice and no chunk empty, never gets stuck:
-- whatever turns its goroutines have taken, all have ended or one of them has a next turn.
pub never_stuck :
    (size : ℕ) (workers : List String) (tasks : List Task) (k : ℕ) (q : Pool)
    → length workers ≡ length tasks
    → IsDistinct workers
    → All (λ t. 0 < make_chunk size t.start t.count) tasks
    → Steps size workers (new_pool workers tasks) k q
    → All Ended q.runners ⊎ ((r : Pool) × Step size workers q r)
unfolding new_pool
never_stuck size workers tasks k q e d h steps =
    let start = new_pool workers tasks in
    let i = new_pool-Inv size workers tasks e d in
    let awake : Wakeful start = λ _ _. waits-hand_out workers tasks in
    let now =
      Steps-Wakeful size workers d start q k steps i (hand_out-HasWork size workers tasks h)
        awake in
    go_on size workers d q (Steps-Inv size workers start q k steps i) now.0 now.1
