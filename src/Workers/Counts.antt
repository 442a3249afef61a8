-- ===== src/Workers/Counts.antt =====
-- How often a channel is held by the registry of registry.go, and what the operations do to it.
use nfrx.Prelude.{
  ℕ, Bool-cases, List, Option, String, [], ap, arith, inl, inr, length, none, refl, some, str_eq,
  suc, zero, ◌++◌, ◌+◌, ◌<◌, ◌∷◌, ◌≡◌, ◌≤◌, occurrences, one_if,
}
use nfrx.Prelude.Dict.{Dict, lookup, insert, delete}
use nfrx.Workers.{Worker}
use nfrx.Workers.Registry.{modify, values, at}

abbrev pub send_of : ℕ → Option Worker → ℕ
send_of c none = 0
send_of c (some w) = one_if c w.send

-- How many entries of the map have the channel `c` for their worker's messages.
abbrev pub sends_held : ℕ → List Worker → Dict ℕ → ℕ
sends_held c heap [] = 0
sends_held c heap ((id, ref) ∷ rest) = send_of c (at heap ref) + sends_held c heap rest

-- How many jobs of all workers have the channel `c`.
abbrev pub jobs_held : ℕ → List Worker → ℕ
jobs_held c [] = 0
jobs_held c (w ∷ ws) = occurrences c (values w.jobs) + jobs_held c ws

-- The pointers of the map point into the heap.
abbrev pub PointsInto : List Worker → Dict ℕ → Type 0
PointsInto heap [] = Unit
PointsInto heap ((id, ref) ∷ rest) = (ref < length heap) × PointsInto heap rest

pub length-modify :
    (f : Worker → Worker) (ref : ℕ) (heap : List Worker) → length (modify f ref heap) ≡ length heap
unfolding modify
length-modify f ref [] = refl
length-modify f zero (w ∷ ws) = refl
length-modify f (suc ref) (w ∷ ws) = ap suc (length-modify f ref ws)

send_of-modify :
    (c : ℕ) (f : Worker → Worker) (ref other : ℕ) (heap : List Worker)
    → ((w : Worker) → (f w).send ≡ w.send)
    → send_of c (at (modify f ref heap) other) ≡ send_of c (at heap other)
unfolding modify
send_of-modify c f ref other [] same = refl
send_of-modify c f zero zero (w ∷ ws) same = ap (one_if c) (same w)
send_of-modify c f zero (suc other) (w ∷ ws) same = refl
send_of-modify c f (suc ref) zero (w ∷ ws) same = refl
send_of-modify c f (suc ref) (suc other) (w ∷ ws) same = send_of-modify c f ref other ws same

pub sends_held-modify :
    (c : ℕ) (f : Worker → Worker) (ref : ℕ) (heap : List Worker) (workers : Dict ℕ)
    → ((w : Worker) → (f w).send ≡ w.send)
    → sends_held c (modify f ref heap) workers ≡ sends_held c heap workers
sends_held-modify c f ref heap [] same = refl
sends_held-modify c f ref heap ((id, other) ∷ rest) same =
    omega (arith, send_of-modify c f ref other heap same, sends_held-modify c f ref heap rest same)

pub sends_held-delete_le :
    (c : ℕ) (heap : List Worker) (id : String) (workers : Dict ℕ)
    → sends_held c heap (delete id workers) ≤ sends_held c heap workers
unfolding delete
sends_held-delete_le c heap id [] = omega arith
sends_held-delete_le c heap id ((k, r) ∷ rest) = elim (Bool-cases (str_eq k id)) [
  | inl same ↦ rw same (omega (arith, sends_held-delete_le c heap id rest))
  | inr other ↦ rw other (omega (arith, sends_held-delete_le c heap id rest))
]

pub sends_held-delete :
    (c : ℕ) (heap : List Worker) (id : String) (ref : ℕ) (workers : Dict ℕ)
    → lookup id workers ≡ some ref
    → sends_held c heap (delete id workers) + send_of c (at heap ref) ≤ sends_held c heap workers
unfolding delete lookup
sends_held-delete c heap id ref [] h = cc
sends_held-delete c heap id ref ((k, r) ∷ rest) h = elim (Bool-cases (str_eq k id)) [
  | inl same ↦
      let e : r ≡ ref = grind (arith, same, h) in
      rw same
        (omega (arith, sends_held-delete_le c heap id rest, ap (λ x. send_of c (at heap x)) e))
  | inr other ↦
      rw other (omega (arith, sends_held-delete c heap id ref rest (grind (arith, other, h))))
]

pub sends_held-insert :
    (c : ℕ) (heap : List Worker) (id : String) (ref : ℕ) (workers : Dict ℕ)
    → sends_held c heap (insert id ref workers)
      ≤ sends_held c heap workers + send_of c (at heap ref)
unfolding insert
sends_held-insert c heap id ref [] = omega arith
sends_held-insert c heap id ref ((k, r) ∷ rest) = elim (Bool-cases (str_eq k id)) [
  | inl same ↦ rw same (omega arith)
  | inr other ↦ rw other (omega (arith, sends_held-insert c heap id ref rest))
]

at-append_left :
    (heap : List Worker) (w : Worker) (ref : ℕ)
    → ref < length heap
    → at (heap ++ w ∷ []) ref ≡ at heap ref
at-append_left [] w ref h = absurd (omega (arith, h))
at-append_left (v ∷ vs) w zero h = refl
at-append_left (v ∷ vs) w (suc ref) h = at-append_left vs w ref (omega (arith, h))

pub at-append_last : (heap : List Worker) (w : Worker) → at (heap ++ w ∷ []) (length heap) ≡ some w
at-append_last [] w = refl
at-append_last (v ∷ vs) w = at-append_last vs w

pub sends_held-append :
    (c : ℕ) (heap : List Worker) (w : Worker) (workers : Dict ℕ)
    → PointsInto heap workers
    → sends_held c (heap ++ w ∷ []) workers ≡ sends_held c heap workers
sends_held-append c heap w [] inside = refl
sends_held-append c heap w ((id, ref) ∷ rest) inside = omega (
  arith,
  ap (send_of c) (at-append_left heap w ref inside.0),
  sends_held-append c heap w rest inside.1,
)
