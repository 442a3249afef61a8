-- ===== src/Workers/Held.antt =====
-- The channels of the jobs that workers hold, under the operations of registry.go.
use nfrx.Prelude.{
  ℕ, Bool-cases, List, String, [], ap, arith, inl, inr, length, none, refl, some, str_eq, suc, zero,
  ◌++◌, ◌+◌, ◌<◌, ◌∷◌, ◌≡◌, ◌≤◌, occurrences, one_if,
}
use nfrx.Prelude.Dict.{Dict, lookup, insert, delete}
use nfrx.Workers.{Worker}
use nfrx.Workers.Registry.{modify, values, at}
use nfrx.Workers.Counts.{jobs_held, PointsInto}

pub jobs_held-modify :
    (c : ℕ) (f : Worker → Worker) (ref : ℕ) (heap : List Worker) (w : Worker)
    → at heap ref ≡ some w
    → jobs_held c (modify f ref heap) + occurrences c (values w.jobs)
      ≡ jobs_held c heap + occurrences c (values ((f w).jobs))
unfolding modify
jobs_held-modify c f ref [] w h = cc
jobs_held-modify c f zero (v ∷ vs) w h =
    let e : v ≡ w = cc in
    omega (
      arith,
      ap (λ u. occurrences c (values u.jobs)) e,
      ap (λ u. occurrences c (values ((f u).jobs))) e,
    )
jobs_held-modify c f (suc ref) (v ∷ vs) w h = omega (arith, jobs_held-modify c f ref vs w h)

pub jobs_held-modify-none :
    (c : ℕ) (f : Worker → Worker) (ref : ℕ) (heap : List Worker)
    → at heap ref ≡ none
    → jobs_held c (modify f ref heap) ≡ jobs_held c heap
unfolding modify
jobs_held-modify-none c f ref [] h = refl
jobs_held-modify-none c f zero (v ∷ vs) h = cc
jobs_held-modify-none c f (suc ref) (v ∷ vs) h = omega (arith, jobs_held-modify-none c f ref vs h)

pub jobs_held_kept :
    (c : ℕ) (f : Worker → Worker) (ref : ℕ) (heap : List Worker)
    → ((w : Worker) → (f w).jobs ≡ w.jobs)
    → jobs_held c (modify f ref heap) ≡ jobs_held c heap
unfolding modify
jobs_held_kept c f ref [] same = refl
jobs_held_kept c f zero (w ∷ ws) same = omega (arith, ap (λ j. occurrences c (values j)) (same w))
jobs_held_kept c f (suc ref) (w ∷ ws) same = omega (arith, jobs_held_kept c f ref ws same)

pub jobs_held-append :
    (c : ℕ) (heap : List Worker) (w : Worker)
    → jobs_held c (heap ++ w ∷ []) ≡ jobs_held c heap + occurrences c (values w.jobs)
jobs_held-append c [] w = omega arith
jobs_held-append c (v ∷ vs) w = omega (arith, jobs_held-append c vs w)

pub occurrences-insert :
    (c ch : ℕ) (job : String) (jobs : Dict ℕ)
    → occurrences c (values (insert job ch jobs)) ≤ occurrences c (values jobs) + one_if c ch
unfolding insert
occurrences-insert c ch job [] = omega arith
occurrences-insert c ch job ((k, v) ∷ rest) = elim (Bool-cases (str_eq k job)) [
  | inl same ↦ rw same (omega arith)
  | inr other ↦ rw other (omega (arith, occurrences-insert c ch job rest))
]

pub occurrences-delete_le :
    (c : ℕ) (job : String) (jobs : Dict ℕ)
    → occurrences c (values (delete job jobs)) ≤ occurrences c (values jobs)
unfolding delete
occurrences-delete_le c job [] = omega arith
occurrences-delete_le c job ((k, v) ∷ rest) = elim (Bool-cases (str_eq k job)) [
  | inl same ↦ rw same (omega (arith, occurrences-delete_le c job rest))
  | inr other ↦ rw other (omega (arith, occurrences-delete_le c job rest))
]

pub occurrences-delete :
    (c ch : ℕ) (job : String) (jobs : Dict ℕ)
    → lookup job jobs ≡ some ch
    → occurrences c (values (delete job jobs)) + one_if c ch ≤ occurrences c (values jobs)
unfolding delete lookup
occurrences-delete c ch job [] h = cc
occurrences-delete c ch job ((k, v) ∷ rest) h = elim (Bool-cases (str_eq k job)) [
  | inl same ↦
      let e : v ≡ ch = grind (arith, same, h) in
      rw same (omega (arith, occurrences-delete_le c job rest, ap (one_if c) e))
  | inr other ↦ rw other (omega (arith, occurrences-delete c ch job rest (grind (arith, other, h))))
]

pub longer_heap :
    (heap grown : List Worker) (workers : Dict ℕ)
    → length heap ≤ length grown
    → PointsInto heap workers
    → PointsInto grown workers
longer_heap heap grown [] le inside = tt
longer_heap heap grown ((id, ref) ∷ rest) le inside =
    (omega (arith, le, inside.0), longer_heap heap grown rest le inside.1)

pub PointsInto-insert :
    (heap : List Worker) (id : String) (ref : ℕ) (workers : Dict ℕ)
    → ref < length heap
    → PointsInto heap workers
    → PointsInto heap (insert id ref workers)
unfolding insert
PointsInto-insert heap id ref [] below inside = (below, tt)
PointsInto-insert heap id ref ((k, r) ∷ rest) below inside = elim (Bool-cases (str_eq k id)) [
  | inl same ↦ rw same (below, inside.1)
  | inr other ↦ rw other (inside.0, PointsInto-insert heap id ref rest below inside.1)
]

pub PointsInto-delete :
    (heap : List Worker) (id : String) (workers : Dict ℕ)
    → PointsInto heap workers
    → PointsInto heap (delete id workers)
unfolding delete
PointsInto-delete heap id [] inside = tt
PointsInto-delete heap id ((k, r) ∷ rest) inside = elim (Bool-cases (str_eq k id)) [
  | inl same ↦ rw same (PointsInto-delete heap id rest inside.1)
  | inr other ↦ rw other (inside.0, PointsInto-delete heap id rest inside.1)
]
