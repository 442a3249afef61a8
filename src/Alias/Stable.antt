-- ===== src/Alias/Stable.antt =====
-- An alias is its own alias.
use nfrx.Prelude.{
  ℕ, Bool, Bool-cases, Option, String, ap, arith, false, if◌then◌else◌, inl, inr, none, not, refl,
  some, str_eq, subst, sym, true, ◌&&◌, ◌==◌, ◌≡◌, ◌∙◌,
}
use Prim.Native.Char.{code}
use nfrx.Prelude.Text.{append}
use nfrx.Alias.{alias_after, alias_key, alias_of, cut_at, fits_suffix, has_char, is_ascii_space}

cut_at-has_char : (sep : ℕ) (s : String) → has_char (λ c. c == sep) (cut_at sep s).0 ≡ false
unfolding cut_at has_char
cut_at-has_char sep String.[] = refl
cut_at-has_char sep (String.◌∷◌ c s) = elim (Bool-cases (code c == sep)) [
  | inl stop ↦ rw stop refl
  | inr on ↦ rw on (rw on (cut_at-has_char sep s))
]

cut_at-none : (sep : ℕ) (s : String) → has_char (λ c. c == sep) s ≡ false → cut_at sep s ≡ (s, none)
unfolding cut_at has_char
cut_at-none sep String.[] h = refl
cut_at-none sep (String.◌∷◌ c s) h = elim (Bool-cases (code c == sep)) [
  | inl stop ↦ absurd (ground (arith, stop, h))
  | inr on ↦ rw (on, cut_at-none sep s (ground (arith, on, h))) refl
]

cut_at-append :
    (name tag : String)
    → has_char (λ c. c == b':') name ≡ false
    → cut_at b':' (append name (append ":" tag)) ≡ (name, some tag)
unfolding cut_at has_char append
cut_at-append String.[] tag h = refl
cut_at-append (String.◌∷◌ c s) tag h = elim (Bool-cases (code c == b':')) [
  | inl stop ↦ absurd (ground (arith, stop, h))
  | inr on ↦ rw (on, cut_at-append s tag (ground (arith, on, h))) refl
]

all_true {ℓ} :
    {A : Type ℓ} (a b c : Bool) (x k : A)
    → (if a && b && c then some x else none) ≡ some k
    → (x ≡ k) × ((if a && b && true then some x else none) ≡ some k)
all_true true true true x k h = (cc, h)
all_true true true false x k h = cc
all_true true false c x k h = cc
all_true false b c x k h = cc

alias_of_stable :
    (name tag k : String) (suffix : Option String)
    → alias_of name (tag, suffix) ≡ some k
    → (append name (append ":" tag) ≡ k) × (alias_of name (tag, none) ≡ some k)
unfolding alias_of fits_suffix
alias_of_stable name tag k suffix h =
    all_true (not (str_eq tag "")) (not (has_char is_ascii_space tag)) (fits_suffix suffix)
      (append name (append ":" tag)) k h

alias_after_named :
    (name rest : String)
    → str_eq name "" ≡ false
    → alias_after (name, some rest) ≡ alias_of name (cut_at b'-' rest)
unfolding alias_after
alias_after_named name rest named = rw named refl

alias_after_blank :
    (name rest : String) → str_eq name "" ≡ true → alias_after (name, some rest) ≡ none
unfolding alias_after
alias_after_blank name rest blank = rw blank refl

alias_after_stable :
    (name k : String) (behind : Option String)
    → has_char (λ c. c == b':') name ≡ false
    → alias_after (name, behind) ≡ some k
    → alias_key k ≡ some k
unfolding alias_key alias_after
alias_after_stable name k none plain h = cc
alias_after_stable name k (some rest) plain h = elim (Bool-cases (str_eq name "")) [
  | inl blank ↦ absurd (cc (alias_after_blank name rest blank, h))
  | inr named ↦
      let tag = (cut_at b'-' rest).0 in
      let st =
        alias_of_stable name tag k (cut_at b'-' rest).1
          (sym (alias_after_named name rest named) ∙ h) in
      subst (λ t. alias_key t ≡ some k) st.0
        (ap alias_after (cut_at-append name tag plain)
          ∙ alias_after_named name tag named
          ∙ ap (alias_of name) (cut_at-none b'-' tag (cut_at-has_char b'-' rest))
          ∙ st.1)
]

-- Where AliasKey gives a key, it gives the same key for that key.
pub alias_key_stable : (id k : String) → alias_key id ≡ some k → alias_key k ≡ some k
unfolding alias_key
alias_key_stable id k h =
    alias_after_stable (cut_at b':' id).0 k (cut_at b':' id).1 (cut_at-has_char b':' id) h
