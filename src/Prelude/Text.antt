-- ===== src/Prelude/Text.antt =====
-- What the code uses of the package `strings`.
use Prim.Native.Nat.{ℕ}
use Prim.Native.Char.{Char, code}
use Prim.Native.String.{String}
use mathlib.Core.Path.{ap, ◌≡◌, refl}
use mathlib.Core.Bool.{Bool, true, ◌||◌, ◌&&◌}
use mathlib.Core.List.{List, [], ◌∷◌}
use nfrx.Prelude.Tests.{leb, ◌==◌, if◌then◌else◌}

-- unicode.IsSpace
is_space : ℕ → Bool
is_space c =
    (leb 9 c && leb c 13)
    || c == 32
    || c == 0x85
    || c == 0xA0
    || c == 0x1680
    || (leb 0x2000 c && leb c 0x200a)
    || c == 0x2028
    || c == 0x2029
    || c == 0x202f
    || c == 0x205f
    || c == 0x3000

trim_left : String → String
unfolding is_space
trim_left String.[] = String.[]
trim_left (String.◌∷◌ c s) =
    let rest = trim_left s in if is_space (code c) then rest else String.◌∷◌ c s

-- `rest` is what stays of the tail once the spaces at its end are gone.
keep_char : Char → String → String
unfolding is_space
keep_char c String.[] = if is_space (code c) then String.[] else String.◌∷◌ c String.[]
keep_char c (String.◌∷◌ d s) = String.◌∷◌ c (String.◌∷◌ d s)

trim_right : String → String
unfolding keep_char
trim_right String.[] = String.[]
trim_right (String.◌∷◌ c s) = keep_char c (trim_right s)

-- strings.TrimSpace
unfoldable pub trim_space : String → String
unfolding trim_left trim_right
trim_space s = trim_left (trim_right s)

cons_part : Char → List String → List String
cons_part c [] = String.◌∷◌ c String.[] ∷ []
cons_part c (part ∷ parts) = String.◌∷◌ c part ∷ parts

-- strings.Split(s, sep), for a separator of one character
unfoldable pub split : ℕ → String → List String
unfolding cons_part
split sep String.[] = "" ∷ []
split sep (String.◌∷◌ c s) =
    let rest = split sep s in if code c == sep then "" ∷ rest else cons_part c rest

-- s + t
unfoldable pub append : String → String → String
append String.[] t = t
append (String.◌∷◌ c s) t = String.◌∷◌ c (append s t)

trim_space_example : trim_space "  a b\n" ≡ "a b"
unfolding trim_space
trim_space_example = refl

split_example : split b',' "a,,b c" ≡ "a" ∷ "" ∷ "b c" ∷ []
unfolding split
split_example = refl

skips_space :
    (c : Char) (t : String) → is_space (code c) ≡ true → trim_left (keep_char c t) ≡ trim_left t
unfolding trim_left keep_char
skips_space c String.[] h = rw h refl
skips_space c (String.◌∷◌ d s) h = rw h refl

-- A space in front is trimmed.
pub trim_space-append : (s : String) → trim_space (append " " s) ≡ trim_space s
unfolding trim_space trim_right append is_space
trim_space-append s = skips_space " " (trim_right s) refl

pub append_assoc : (a b c : String) → append (append a b) c ≡ append a (append b c)
unfolding append
append_assoc String.[] b c = refl
append_assoc (String.◌∷◌ x a) b c = ap (String.◌∷◌ x) (append_assoc a b c)
