-- ===== src/Generation/Cut.antt =====
-- The first complete line of a text that grows at its end.
use Prim.Native.Char.{Char, code}
use nfrx.Prelude.{
  String, ap, false, none, refl, some, true, ◌+◌, ◌==◌, ◌≡◌, Bool-cases, Option-cases, arith, inl,
  inr,
}
use nfrx.Prelude.Text.{append}
use nfrx.Generation.Stream.{cut_line, size}

pub append_assoc : (a b c : String) → append (append a b) c ≡ append a (append b c)
unfolding append
append_assoc String.[] b c = refl
append_assoc (String.◌∷◌ x a) b c = ap (λ t. String.◌∷◌ x t) (append_assoc a b c)

pub append-nil : (a : String) → append a "" ≡ a
unfolding append
append-nil String.[] = refl
append-nil (String.◌∷◌ x a) = ap (λ t. String.◌∷◌ x t) (append-nil a)

pub size-append : (a b : String) → size (append a b) ≡ size a + size b
unfolding append size
size-append String.[] b = omega arith
size-append (String.◌∷◌ x a) b = omega (arith, size-append a b)

-- No line is complete.
abbrev pub IsOpen : String → Type 0
IsOpen s = cut_line s ≡ none

cut_line-none :
    (x : Char) (b : String)
    → (code x == 10) ≡ false
    → cut_line b ≡ none
    → cut_line (String.◌∷◌ x b) ≡ none
unfolding cut_line
cut_line-none x b other rest = rw (other, rest) refl

cut_line-some :
    (x : Char) (b line behind : String)
    → (code x == 10) ≡ false
    → cut_line b ≡ some (line, behind)
    → cut_line (String.◌∷◌ x b) ≡ some (String.◌∷◌ x line, behind)
unfolding cut_line
cut_line-some x b line behind other rest = rw (other, rest) refl

cut_line_newline :
    (x : Char) (b : String) → (code x == 10) ≡ true → cut_line (String.◌∷◌ x b) ≡ some ("", b)
unfolding cut_line
cut_line_newline x b newline = rw newline refl

IsOpen-tail :
    (x : Char) (b : String) → IsOpen (String.◌∷◌ x b) → ((code x == 10) ≡ false) × IsOpen b
IsOpen-tail x b h = elim (Bool-cases (code x == 10)) [
  | inl newline ↦ absurd (cc (h, cut_line_newline x b newline))
  | inr other ↦ elim (Option-cases (cut_line b)) [
    | inl rest ↦ (other, rest)
    | inr ((line, behind), rest) ↦ absurd (cc (h, cut_line-some x b line behind other rest))
  ]
]

pub IsOpen-snoc :
    (b : String) (c : Char)
    → (code c == 10) ≡ false
    → IsOpen b
    → IsOpen (append b (String.◌∷◌ c ""))
unfolding append
IsOpen-snoc String.[] c other h = cut_line-none c "" other h
IsOpen-snoc (String.◌∷◌ x b) c other h =
    let t = IsOpen-tail x b h in cut_line-none x _ t.0 (IsOpen-snoc b c other t.1)

pub cut_line-append :
    (b s : String) (c : Char)
    → (code c == 10) ≡ true
    → IsOpen b
    → cut_line (append b (String.◌∷◌ c s)) ≡ some (b, s)
unfolding append
cut_line-append String.[] s c newline h = cut_line_newline c s newline
cut_line-append (String.◌∷◌ x b) s c newline h =
    let t = IsOpen-tail x b h in cut_line-some x _ b s t.0 (cut_line-append b s c newline t.1)
