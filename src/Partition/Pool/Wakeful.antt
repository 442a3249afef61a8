-- ===== src/Partition/Pool/Wakeful.antt =====
-- Between the turns of the goroutines of partition.go: where nobody is at work and `cond` holds no
-- item, nobody waits.
use nfrx.Prelude.{
  ℕ, All, Bool-cases, IsDistinct, List, String, [], ap, arith, false, inl, inr, length, ltb, none,
  refl, ◌++◌, ◌<◌, ◌∷◌, ◌≡◌, ◌≢◌, ◌≤◌, ◌⊎◌, subst,
}
use nfrx.Partition.{Task, make_chunk}
use nfrx.Partition.Pool.{
  Phase, Pool, Runner, blocked, ended, ended_on, first_free, scans, sends_to, Shared, Turned,
  release,
}
use nfrx.Partition.Pool.Turns.{
  total, Step, total-append, All-at, All-swap, Move, delivers, finds_none, gives_up, leaves,
  retries, takes, takes_turn, turn-Move, turned, waits_there, wakes,
}
use nfrx.Partition.Pool.Owners.{Inv, Keeps, KeepsPhase, holds, holds_in}
use nfrx.Partition.Pool.Sets.{pigeonhole, first_free-none}

unfoldable pub at_work_in : Phase → ℕ
at_work_in (sends_to w) = 1
at_work_in scans = 1
at_work_in blocked = 0
at_work_in (ended good) = 0
at_work_in (ended_on w) = 0

abbrev pub at_work : Runner → ℕ
at_work x = at_work_in x.phase

unfoldable pub waits_in : Phase → ℕ
waits_in (sends_to w) = 0
waits_in scans = 0
waits_in blocked = 1
waits_in (ended good) = 0
waits_in (ended_on w) = 0

abbrev pub waits : Runner → ℕ
waits x = waits_in x.phase

-- Where nobody is at work and `cond` is empty, nobody waits.
abbrev pub Wakeful : Pool → Type 0
Wakeful p = total at_work p.runners ≡ 0 → p.shared.token ≡ false → total waits p.runners ≡ 0

abbrev pub after_turn : List Runner → List Runner → Runner → Turned → Pool
after_turn before rest x r = record { runners = before ++ turned x r ∷ rest; shared = r.shared }

abbrev pub HasWork : ℕ → Runner → Type 0
HasWork size x = 0 < make_chunk size x.task.start x.task.count

module _ (size n : ℕ) where
  pub holds-at_work_in :
      (w : String) (t : Task) (attempted : List String) (ph : Phase)
      → 0 < make_chunk size t.start t.count
      → KeepsPhase size n t attempted ph
      → holds_in w ph ≤ at_work_in ph
  unfolding holds_in at_work_in KeepsPhase
  holds-at_work_in w t attempted (sends_to v) h k = ground arith
  holds-at_work_in w t attempted scans h k = omega arith
  holds-at_work_in w t attempted blocked h k = omega arith
  holds-at_work_in w t attempted (ended good) h k = omega arith
  holds-at_work_in w t attempted (ended_on v) h k = absurd (omega (arith, k))

  pub holds-at_work :
      (w : String) (xs : List Runner)
      → All (HasWork size) xs
      → All (Keeps size n) xs
      → total (holds w) xs ≤ total at_work xs
  holds-at_work w [] h k = omega arith
  holds-at_work w (x ∷ xs) h k =
      omega
        (arith, holds-at_work_in w x.task x.attempted x.phase h.0 k.0.1, holds-at_work w xs h.1 k.1)

-- A runner that contributes, or none does.
pub find_runner :
    (f : Runner → ℕ) (xs : List Runner)
    → (total f xs ≡ 0)
      ⊎ ((before : List Runner) × (x : Runner) × (rest : List Runner) × (xs ≡ before ++ x ∷ rest)
          × (0 < f x))
find_runner f [] = inl refl
find_runner f (x ∷ xs) = elim (Bool-cases (ltb 0 (f x))) [
  | inl works ↦ inr ([], x, xs, refl, ground arith)
  | inr idle ↦ elim (find_runner f xs) [
    | inl nobody ↦ inl (ground arith)
    | inr (before, y, rest, e, h) ↦ inr (x ∷ before, y, rest, ap (λ ys. x ∷ ys) e, h)
  ]
]

module _ (size : ℕ) (workers : List String) (d : IsDistinct workers) where
  -- With nobody at work all workers are free, so that no scan can have failed.
  pub idle_scan :
      (p : Pool) (attempted : List String)
      → Inv size workers p
      → All (HasWork size) p.runners
      → total at_work p.runners ≡ 0
      → first_free workers p.shared.used attempted ≡ none
      → length workers ≤ length attempted
  idle_scan p attempted i h idle nothing = pigeonhole workers attempted d λ v known.
      let low = holds-at_work size (length workers) v p.runners h i.1 in
      ground (
        arith,
        idle,
        low,
        i.0 v,
        known,
        first_free-none workers p.shared.used attempted v nothing known,
      )

  pub busy_after :
      (before rest : List Runner) (y : Runner)
      → 0 < at_work y
      → total at_work (before ++ y ∷ rest) ≢ 0
  busy_after before rest y h e = omega (arith, e, total-append at_work before (y ∷ rest))

  -- What a turn leaves is wakeful: it puts an item, or somebody is at work.
  pub Move-Wakeful :
      (before rest : List Runner) (x : Runner) (s : Shared) (ph : Phase) (r : Turned)
      → Move size workers x.task x.attempted s ph r
      → KeepsPhase size (length workers) x.task x.attempted ph
      → Inv size workers (after_turn before rest x r)
      → All (HasWork size) (before ++ turned x r ∷ rest)
      → total at_work (before ++ turned x r ∷ rest) ≡ 0
      → r.shared.token ≡ false
      → total waits (before ++ turned x r ∷ rest) ≡ 0
  unfolding KeepsPhase at_work_in release
  Move-Wakeful before rest x s ph r (leaves w empty) k i h idle t =
      absurd (omega (arith, empty, All-at (HasWork size) before rest (turned x r) h))
  Move-Wakeful before rest x s ph r (delivers w full) k i h idle t = absurd cc
  Move-Wakeful before rest x s ph r (gives_up w full all) k i h idle t = absurd cc
  Move-Wakeful before rest x s ph r (retries w full more) k i h idle t = absurd cc
  Move-Wakeful before rest x s ph r (takes w free new known) k i h idle t =
      absurd (busy_after before rest (turned x r) (omega arith) idle)
  Move-Wakeful before rest x s ph r (finds_none all) k i h idle t = absurd (omega arith)
  Move-Wakeful before rest x s ph r (waits_there more nothing) k i h idle t =
      let q : Pool = record { runners = before ++ turned x r ∷ rest; shared = s } in
      absurd (omega (arith, more, idle_scan q x.attempted i h idle nothing))
  Move-Wakeful before rest x s ph r (wakes there) k i h idle t =
      absurd (busy_after before rest (turned x r) (omega arith) idle)

  pub Step-HasWork :
      (p q : Pool)
      → Step size workers p q
      → All (HasWork size) p.runners
      → All (HasWork size) q.runners
  Step-HasWork p q (takes_turn before rest x ok r e m e') h =
      let h' : All (HasWork size) (before ++ x ∷ rest) = rw (← e) h in
      rw e' (
        All-swap (HasWork size) before rest x (turned x r) h'
          (All-at (HasWork size) before rest x h'))

  pub Step-Wakeful :
      (p q : Pool)
      → Step size workers p q
      → Inv size workers p
      → Inv size workers q
      → All (HasWork size) q.runners
      → Wakeful q
  Step-Wakeful p q (takes_turn before rest x ok r e m e') i j h =
      let move = turn-Move size workers x.task x.attempted p.shared ok x.phase r m in
      let k' : All (Keeps size (length workers)) (before ++ x ∷ rest) = rw (← e) i.1 in
      let k = All-at (Keeps size (length workers)) before rest x k' in
      let j' : Inv size workers
          (record { runners = before ++ turned x r ∷ rest; shared = r.shared }) =
        subst (λ u. Inv size workers u) e' j in
      let h' : All (HasWork size) (before ++ turned x r ∷ rest) =
        subst (λ (u : Pool). All (HasWork size) u.runners) e' h in
      rw e' (Move-Wakeful before rest x p.shared x.phase r move k.1 j' h')
