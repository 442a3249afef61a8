-- ===== src/Partition/Pool/Stranded.antt =====
-- What an empty chunk does to the other goroutines of partition.go: its worker stays in `used`,
-- so that a task can neither try it nor give up.
use nfrx.Prelude.{
  ℕ, Bool-cases, IsDistinct, List, String, arith, contains, eq_iff, false, inl, inr, length, str_eq,
  true, ◌<◌, ◌∷◌, ◌≡◌, ◌≤◌, All, IsDistinct-snoc, [], contains-append, length-append, refl,
  str_eq_refl, subst, ◌++◌, ◌≢◌,
}
use nfrx.Partition.{Task, make_chunk}
use nfrx.Partition.Pool.{
  Phase, Runner, Shared, Turned, add, blocked, ended, ended_on, release, scans, sends_to, Pool,
  hand_out, new_pool,
}
use nfrx.Partition.Pool.Turns.{
  leaves, Move, delivers, finds_none, gives_up, retries, takes, waits_there, wakes, All-at,
  All-swap, Step, Steps, here, later, takes_turn, turn-Move, turned,
}
use nfrx.Partition.Pool.Sets.{pigeonhole, add-IsDistinct, contains-add, contains-remove}
use nfrx.Partition.Pool.Owners.{Inv, Keeps, Steps-Inv}
use nfrx.Partition.Pool.Bounded.{new_pool-Inv}

module _ (size : ℕ) (workers : List String) (w : String) where
  -- What each runner keeps while nobody can take `w`: it holds `w` for an empty chunk only, has
  -- not tried it, and has not given up.
  unfoldable pub Avoids : Task → List String → Phase → Type 0
  Avoids t attempted (sends_to v) =
      (contains workers v ≡ true) × (str_eq v w ≡ true → make_chunk size t.start t.count ≡ 0)
  Avoids t attempted scans = Unit {0}
  Avoids t attempted blocked = Unit {0}
  Avoids t attempted (ended true) = Unit {0}
  Avoids t attempted (ended false) = true ≡ false
  Avoids t attempted (ended_on v) = Unit {0}

  abbrev pub Untried : List String → Type 0
  Untried attempted =
      (contains attempted w ≡ false)
      × ((v : String) → contains attempted v ≡ true → contains workers v ≡ true)

  abbrev pub Stranded : Runner → Type 0
  Stranded x = Untried x.attempted × Avoids x.task x.attempted x.phase

  -- Distinct workers without `w` are fewer than all.
  length-Untried :
      (xs : List String)
      → contains workers w ≡ true
      → IsDistinct xs
      → Untried xs
      → length xs < length workers
  unfolding contains
  length-Untried xs known d u =
      let fits : length (w ∷ xs) ≤ length workers =
        pigeonhole (w ∷ xs) workers (u.0, d) λ v h. ground (arith, known, u.1 v, eq_iff w v) in
      omega (arith, fits)

  Untried-add :
      (v : String) (xs : List String)
      → str_eq v w ≡ false
      → contains workers v ≡ true
      → Untried xs
      → Untried (add v xs)
  Untried-add v xs other known u = (
    ground (arith, contains-add v xs w, u.0),
    λ x h. ground (arith, contains-add v xs x, u.1 x, eq_iff v x),
  )

  module _ (t : Task) (attempted : List String) (s : Shared) where
    apart :
        (v : String)
        → 0 < make_chunk size t.start t.count
        → (str_eq v w ≡ true → make_chunk size t.start t.count ≡ 0)
        → str_eq v w ≡ false
    apart v full only = elim (Bool-cases (str_eq v w)) [
      | inl same ↦ absurd (omega (arith, full, only same))
      | inr other ↦ other
    ]

    Move-Stranded :
        (ph : Phase) (r : Turned)
        → Move size workers t attempted s ph r
        → contains workers w ≡ true
        → contains s.used w ≡ true
        → IsDistinct attempted
        → Untried attempted
        → Avoids t attempted ph
        → (contains r.shared.used w ≡ true) × Untried r.attempted × Avoids t r.attempted r.phase
    unfolding Avoids release contains
    Move-Stranded ph r (leaves v empty) known held d u a = (held, u, tt)
    Move-Stranded ph r (delivers v full) known held d u a =
        let other = apart v full a.1 in
        (ground (arith, held, other, contains-remove v s.used w), u, tt)
    Move-Stranded ph r (gives_up v full all) known held d u a =
        let other = apart v full a.1 in
        let few =
          length-Untried (add v attempted) known (add-IsDistinct v attempted d)
            (Untried-add v attempted other a.0 u) in
        absurd (omega (arith, few, all))
    Move-Stranded ph r (retries v full more) known held d u a =
        let other = apart v full a.1 in
        (
          ground (arith, held, other, contains-remove v s.used w),
          Untried-add v attempted other a.0 u,
          tt,
        )
    Move-Stranded ph r (takes v free new there) known held d u a = (
      ground (arith, held),
      u,
      (there, λ same. absurd (ground (arith, held, free, same, eq_iff v w))),
    )
    Move-Stranded ph r (finds_none all) known held d u a =
        absurd (omega (arith, all, length-Untried attempted known d u))
    Move-Stranded ph r (waits_there more nothing) known held d u a = (held, u, tt)
    Move-Stranded ph r (wakes there) known held d u a = (held, u, tt)

  Step-Stranded :
      (p q : Pool)
      → contains workers w ≡ true
      → Step size workers p q
      → Inv size workers p
      → (contains p.shared.used w ≡ true) × All Stranded p.runners
      → (contains q.shared.used w ≡ true) × All Stranded q.runners
  Step-Stranded p q known (takes_turn before rest x ok r e m e') i h =
      let move = turn-Move size workers x.task x.attempted p.shared ok x.phase r m in
      let k' : All (Keeps size (length workers)) (before ++ x ∷ rest) = rw (← e) i.1 in
      let h' : All Stranded (before ++ x ∷ rest) = rw (← e) h.1 in
      let hx = All-at Stranded before rest x h' in
      let d = (All-at (Keeps size (length workers)) before rest x k').0 in
      let after = Move-Stranded x.task x.attempted p.shared x.phase r move known h.0 d hx.0 hx.1 in
      rw e' (after.0, All-swap Stranded before rest x (turned x r) h' (after.1, after.2))

  Steps-Stranded :
      (p q : Pool) (k : ℕ)
      → contains workers w ≡ true
      → Steps size workers p k q
      → Inv size workers p
      → (contains p.shared.used w ≡ true) × All Stranded p.runners
      → (contains q.shared.used w ≡ true) × All Stranded q.runners
  Steps-Stranded p q k known here i h = h
  Steps-Stranded p q k known (later {n = j} {q = o} before st) i h =
      Step-Stranded o q known st (Steps-Inv size workers p o j before i)
        (Steps-Stranded p o j known before i h)

  Stranded-hand_out :
      (xs : List String) (ts : List Task) (t : Task)
      → length xs ≡ length ts
      → contains xs w ≡ false
      → make_chunk size t.start t.count ≡ 0
      → ((v : String) → contains (xs ++ w ∷ []) v ≡ true → contains workers v ≡ true)
      → All Stranded (hand_out (xs ++ w ∷ []) (ts ++ t ∷ []))
  unfolding hand_out contains Avoids
  Stranded-hand_out [] [] t e new empty sub =
      (((refl, λ v h. absurd cc), (sub w (ground (arith, str_eq_refl w)), λ same. empty)), tt)
  Stranded-hand_out [] (u ∷ ts) t e new empty sub = absurd (omega arith)
  Stranded-hand_out (x ∷ xs) [] t e new empty sub = absurd (omega arith)
  Stranded-hand_out (x ∷ xs) (u ∷ ts) t e new empty sub = (
    (
      (refl, λ v h. absurd cc),
      (sub x (ground (arith, str_eq_refl x)), λ same. absurd (ground (arith, new, same))),
    ),
    Stranded-hand_out xs ts t (omega arith) (ground arith) empty λ v h. sub v (ground (arith, h)),
  )

  Stranded-ended : (xs : List Runner) → All Stranded xs → All (λ x. x.phase ≢ ended false) xs
  unfolding Avoids
  Stranded-ended [] h = tt
  Stranded-ended (x ∷ xs) h = (
    (λ e. let a : true ≡ false = subst (λ ph. Avoids x.task x.attempted ph) e h.0.1 in absurd cc),
    Stranded-ended xs h.1,
  )

-- For as many tasks as there are different workers, where the chunk of the last worker is empty, no
-- task of the request ever gives up, whatever turns are taken.
pub never_gives_up :
    (size : ℕ) (ws : List String) (w : String) (ts : List Task) (t : Task) (k : ℕ) (q : Pool)
    → length ws ≡ length ts
    → IsDistinct ws
    → contains ws w ≡ false
    → make_chunk size t.start t.count ≡ 0
    → Steps size (ws ++ w ∷ []) (new_pool (ws ++ w ∷ []) (ts ++ t ∷ [])) k q
    → All (λ x. x.phase ≢ ended false) q.runners
unfolding new_pool contains
never_gives_up size ws w ts t k q e d new empty steps =
    let all = ws ++ w ∷ [] in
    let start = new_pool all (ts ++ t ∷ []) in
    let known : contains all w ≡ true =
      ground (arith, contains-append ws (w ∷ []) w, str_eq_refl w) in
    let even : length all ≡ length (ts ++ t ∷ []) =
      omega (arith, e, length-append ws (w ∷ []), length-append ts (t ∷ [])) in
    let i = new_pool-Inv size all (ts ++ t ∷ []) even (IsDistinct-snoc ws w d new) in
    let first = Stranded-hand_out size all w ws ts t e new empty λ v h. h in
    let last = Steps-Stranded size all w start q k known steps i (known, first) in
    Stranded-ended size all w q.runners last.1
