-- ===== src/Secret/Masked.antt =====
-- What Mask of core/secret/mask.go gives away.
use nfrx.Prelude.{
  ℕ, Bool-cases, List, [], ap, arith, drop, inl, inr, leb, length, length-append, refl, replicate,
  suc, sym, take, true, zero, ◌++◌, ◌+◌, ◌-◌, ◌∙◌, ◌∷◌, ◌≡◌, ◌≤◌, ◌⊎◌,
}
use nfrx.Secret.{mask, show_ends, star}

module _ {ℓ} {A : Type ℓ} where
  take-take : (m n : ℕ) (xs : List A) → m ≤ n → take m (take n xs) ≡ take m xs
  take-take zero n xs h = refl
  take-take (suc m) zero xs h = absurd (omega arith)
  take-take (suc m) (suc n) [] h = refl
  take-take (suc m) (suc n) (x ∷ xs) h = ap (λ ys. x ∷ ys) (take-take m n xs (omega arith))

  length-take : (n : ℕ) (xs : List A) → n ≤ length xs → length (take n xs) ≡ n
  length-take zero xs h = refl
  length-take (suc n) [] h = absurd (omega arith)
  length-take (suc n) (x ∷ xs) h = omega (arith, length-take n xs (omega arith))

  length-drop : (n : ℕ) (xs : List A) → n ≤ length xs → length (drop n xs) + n ≡ length xs
  length-drop zero xs h = omega arith
  length-drop (suc n) [] h = absurd (omega arith)
  length-drop (suc n) (x ∷ xs) h = omega (arith, length-drop n xs (omega arith))

  length-replicate : (n : ℕ) (x : A) → length (replicate n x) ≡ n
  length-replicate zero x = refl
  length-replicate (suc n) x = omega (arith, length-replicate n x)

length-show_ends :
    (shown : ℕ) (s : List ℕ)
    → suc shown ≤ length s
    → length (show_ends shown (length s) s) ≡ length s
length-show_ends shown s h =
    let middle = replicate (length s - suc shown) star in
    length-append (take shown s ++ middle) (drop (length s - 1) s)
    ∙ omega (
      arith,
      length-append (take shown s) middle,
      length-take shown s (omega arith),
      length-replicate (length s - suc shown) star,
      length-drop (length s - 1) s (omega arith),
    )

length-mask : (s : List ℕ) → length (mask s) ≡ length s
unfolding mask
length-mask s = elim (Bool-cases (leb (length s) 5)) [
  | inl short ↦ rw (mask, short) (length-replicate (length s) star)
  | inr more ↦ elim (Bool-cases (leb (length s) 20)) [
    | inl middle ↦ rw (mask, more, middle) (length-show_ends 1 s (ground arith))
    | inr long ↦ rw (mask, more, long) (length-show_ends 3 s (ground arith))
  ]
]

-- A secret is shown with its length, and as stars but for at most its first three bytes and its last
-- one: two secrets that agree in these look the same, and up to five bytes all look the same.
pub mask_reveals :
    (s t : List ℕ)
    → length s ≡ length t
    → (length s ≤ 5) ⊎ ((take 3 s ≡ take 3 t) × (drop (length s - 1) s ≡ drop (length t - 1) t))
    → (mask s ≡ mask t) × (length (mask s) ≡ length s)
unfolding mask
mask_reveals s t e agree = (go agree, length-mask s)
  where
    go :
        (length s ≤ 5) ⊎ ((take 3 s ≡ take 3 t) × (drop (length s - 1) s ≡ drop (length t - 1) t))
        → mask s ≡ mask t
    go (inl few) =
        let short : leb (length s) 5 ≡ true = ground (arith, few) in
        let short' : leb (length t) 5 ≡ true = ground (arith, few, e) in
        rw (mask, short, short', e) refl
    go (inr (front, last)) =
        let first : take 1 s ≡ take 1 t =
          sym (take-take 1 3 s (omega arith)) ∙ ap (take 1) front ∙ take-take 1 3 t (omega arith) in
        rw (mask, last, front, first, e) refl
