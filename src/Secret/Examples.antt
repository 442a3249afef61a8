-- ===== src/Secret/Examples.antt =====
-- Two keys that differ where Mask of mask.go shows stars.
use nfrx.Prelude.{ℕ, List, [], inr, length, refl, ◌∷◌, ◌≡◌}
use nfrx.Secret.{mask, star}
use nfrx.Secret.Masked.{mask_reveals}

abbrev key : List ℕ
key = b'a' ∷ b'b' ∷ b'c' ∷ b'd' ∷ b'e' ∷ b'f' ∷ []

abbrev other_key : List ℕ
other_key = b'a' ∷ b'b' ∷ b'c' ∷ b'x' ∷ b'y' ∷ b'f' ∷ []

key_masked : mask key ≡ b'a' ∷ star ∷ star ∷ star ∷ star ∷ b'f' ∷ []
unfolding mask
key_masked = refl

mask_reveals_example : (mask key ≡ mask other_key) × (length (mask key) ≡ 6)
mask_reveals_example = mask_reveals key other_key refl (inr (refl, refl))
