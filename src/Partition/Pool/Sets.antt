-- ===== src/Partition/Pool/Sets.antt =====
-- Sets of worker ids as lists: what `used` and `attempted` hold after a change, and how many.
use nfrx.Prelude.{
  Bool-cases, IsDistinct, List, String, [], arith, contains, eq_iff, if◌then◌else◌, inl, inr,
  length, refl, str_eq, str_eq_refl, suc, true, false, ◌∷◌, ◌≡◌, ◌≤◌, none, some, ◌||◌,
}
use nfrx.Partition.Pool.{add, remove, first_free}

pub contains-remove :
    (key : String) (xs : List String) (v : String)
    → contains (remove key xs) v ≡ (if str_eq key v then false else contains xs v)
unfolding contains remove
contains-remove key [] v = ground arith
contains-remove key (x ∷ xs) v =
    ground (arith, contains-remove key xs v, eq_iff x key, eq_iff x v, eq_iff key v)

pub contains-add :
    (key : String) (xs : List String) (v : String)
    → contains (add key xs) v ≡ (if str_eq key v then true else contains xs v)
unfolding contains add
contains-add key xs v = ground (arith, eq_iff key v)

pub length-add :
    (key : String) (xs : List String)
    → contains xs key ≡ false
    → length (add key xs) ≡ suc (length xs)
unfolding add
length-add key xs h = rw h refl

pub add-IsDistinct : (key : String) (xs : List String) → IsDistinct xs → IsDistinct (add key xs)
unfolding add
add-IsDistinct key xs d = elim (Bool-cases (contains xs key)) [
  | inl there ↦ rw there d
  | inr fresh ↦ rw fresh (fresh, d)
]

length-remove :
    (key : String) (xs : List String)
    → contains xs key ≡ true
    → suc (length (remove key xs)) ≤ length xs
unfolding contains remove
length-remove key [] h = absurd cc
length-remove key (x ∷ xs) h = elim (Bool-cases (str_eq x key)) [
  | inl same ↦ rw same (shrinks key xs)
  | inr other ↦
      let deep : contains xs key ≡ true = ground arith in
      rw other (omega (arith, length-remove key xs deep))
]
  where
    shrinks : (k : String) (ys : List String) → suc (length (remove k ys)) ≤ suc (length ys)
    shrinks k [] = omega arith
    shrinks k (y ∷ ys) = ground (arith, shrinks k ys)

-- Distinct texts that are all in another list are at most as many.
pub pigeonhole :
    (xs ys : List String)
    → IsDistinct xs
    → ((v : String) → contains xs v ≡ true → contains ys v ≡ true)
    → length xs ≤ length ys
unfolding contains
pigeonhole [] ys d sub = omega arith
pigeonhole (x ∷ xs) ys d sub =
    let there : contains ys x ≡ true = sub x (ground (arith, str_eq_refl x)) in
    let rest : length xs ≤ length (remove x ys) =
      pigeonhole xs (remove x ys) d.1
        λ v h. ground (arith, contains-remove x ys v, sub v, eq_iff x v, d.0) in
    omega (arith, rest, length-remove x ys there)

-- The scan finds a worker that is free and not excluded, or there is none.
pub first_free-some :
    (ws used exclude : List String) (w : String)
    → first_free ws used exclude ≡ some w
    → (contains used w ≡ false) × (contains exclude w ≡ false) × (contains ws w ≡ true)
unfolding first_free contains
first_free-some [] used exclude w e = absurd cc
first_free-some (v ∷ ws) used exclude w e =
    ground (arith, first_free-some ws used exclude w, eq_iff v w, str_eq_refl w)

pub first_free-none :
    (ws used exclude : List String) (v : String)
    → first_free ws used exclude ≡ none
    → contains ws v ≡ true
    → (contains used v || contains exclude v) ≡ true
unfolding first_free contains
first_free-none [] used exclude v e h = absurd cc
first_free-none (w ∷ ws) used exclude v e h =
    ground (arith, first_free-none ws used exclude v, eq_iff w v)
