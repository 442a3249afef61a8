-- ===== src/Partition/Assembly.antt =====
-- Append of embeddingPartitionJob: the answers are copied into place in whatever order they come.
use nfrx.Prelude.{
  ℕ, List, [], ap, arith, drop, length, refl, suc, take, zero, ◌++◌, ◌+◌, ◌∷◌, ◌≡◌, ◌≤◌,
}
use native.Mathlib.Nat.{zero-add, suc-add}
use nfrx.Partition.{copy_at}

pub length-copy_at {ℓ} :
    {A : Type ℓ} (start : ℕ) (src dst : List A) → length (copy_at start src dst) ≡ length dst
unfolding copy_at
length-copy_at start [] dst = refl
length-copy_at start (x ∷ src) [] = refl
length-copy_at zero (x ∷ src) (y ∷ dst) = ap suc (length-copy_at zero src dst)
length-copy_at (suc start) (x ∷ src) (y ∷ dst) = ap suc (length-copy_at start (x ∷ src) dst)

-- Answers to chunks that do not overlap can be copied in either order.
pub copy_at_comm {ℓ} :
    {A : Type ℓ} (first second : ℕ) (a b dst : List A)
    → first + length a ≤ second
    → copy_at first a (copy_at second b dst) ≡ copy_at second b (copy_at first a dst)
unfolding copy_at
copy_at_comm first second [] b dst h = refl
copy_at_comm first second (x ∷ a) [] dst h = refl
copy_at_comm first second (x ∷ a) (y ∷ b) [] h = refl
copy_at_comm zero zero (x ∷ a) (y ∷ b) (z ∷ dst) h = absurd (omega arith)
copy_at_comm zero (suc second) (x ∷ a) (y ∷ b) (z ∷ dst) h =
    ap (λ t. x ∷ t) (copy_at_comm zero second a (y ∷ b) dst (omega arith))
copy_at_comm (suc first) zero (x ∷ a) (y ∷ b) (z ∷ dst) h = absurd (omega arith)
copy_at_comm (suc first) (suc second) (x ∷ a) (y ∷ b) (z ∷ dst) h =
    ap (λ t. z ∷ t) (copy_at_comm first second (x ∷ a) (y ∷ b) dst (omega arith))

copy_at-zero {ℓ} :
    {A : Type ℓ} (n : ℕ) (answer dst : List A)
    → length answer ≡ length dst
    → copy_at 0 (take n answer) dst ≡ take n answer ++ drop n dst
unfolding copy_at
copy_at-zero zero answer dst h = refl
copy_at-zero (suc n) [] [] h = refl
copy_at-zero (suc n) [] (y ∷ dst) h = absurd (omega arith)
copy_at-zero (suc n) (x ∷ answer) [] h = absurd (omega arith)
copy_at-zero (suc n) (x ∷ answer) (y ∷ dst) h =
    ap (λ t. x ∷ t) (copy_at-zero n answer dst (omega arith))

pub copy_at-suc {ℓ} :
    {A : Type ℓ} (start : ℕ) (src : List A) (y : A) (dst : List A)
    → copy_at (suc start) src (y ∷ dst) ≡ y ∷ copy_at start src dst
unfolding copy_at
copy_at-suc start [] y dst = refl
copy_at-suc start (x ∷ src) y dst = refl

pub take-nil {ℓ} : {A : Type ℓ} (n : ℕ) → take {A = A} n [] ≡ []
take-nil zero = refl
take-nil (suc n) = refl

drop-nil {ℓ} : {A : Type ℓ} (n : ℕ) → drop {A = A} n [] ≡ []
drop-nil zero = refl
drop-nil (suc n) = refl

pub take-all {ℓ} : {A : Type ℓ} (n : ℕ) (xs : List A) → length xs ≤ n → take n xs ≡ xs
take-all n [] h = take-nil n
take-all zero (x ∷ xs) h = absurd (omega arith)
take-all (suc n) (x ∷ xs) h = ap (λ t. x ∷ t) (take-all n xs (omega arith))

pub drop-all {ℓ} : {A : Type ℓ} (n : ℕ) (xs : List A) → length xs ≤ n → drop n xs ≡ []
drop-all n [] h = drop-nil n
drop-all zero (x ∷ xs) h = absurd (omega arith)
drop-all (suc n) (x ∷ xs) h = drop-all n xs (omega arith)

-- A chunk of the right answer goes in behind what is there already.
pub copy_at-take {ℓ} :
    {A : Type ℓ} (start n : ℕ) (answer dst : List A)
    → length answer ≡ length dst
    → copy_at start (take n (drop start answer)) (take start answer ++ drop start dst)
      ≡ take (start + n) answer ++ drop (start + n) dst
copy_at-take zero n answer dst h = rw zero-add (copy_at-zero n answer dst h)
copy_at-take (suc start) n [] [] h =
    rw (take-nil n, take-nil (suc start + n), drop-nil (suc start + n)) (unfold copy_at in refl)
copy_at-take (suc start) n [] (y ∷ dst) h = absurd (omega arith)
copy_at-take (suc start) n (x ∷ answer) [] h = absurd (omega arith)
copy_at-take (suc start) n (x ∷ answer) (y ∷ dst) h =
    rw
      (
        suc-add start n,
        copy_at-suc start (take n (drop start answer)) x (take start answer ++ drop start dst),
      )
      (ap (λ t. x ∷ t) (copy_at-take start n answer dst (omega arith)))
