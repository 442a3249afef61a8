-- ===== src/Alias.antt =====
-- AliasKey of sdk/api/control/alias.go: the regular expression ^([^:]+):([^-\s]+)(-.+)?$ as a cut at
-- the first colon and a cut of the rest at the first dash.
use nfrx.Prelude.{
  ℕ, Bool, Option, String, false, if◌then◌else◌, none, not, some, str_eq, true, ◌&&◌, ◌==◌, ◌||◌,
}
use nfrx.Prelude.Text.{append}
use Prim.Native.Char.{code}
pub mod Stable
mod Examples

-- What stands before the first `sep`, and what stands behind it, if it occurs.
unfoldable pub cut_at : ℕ → String → String × Option String
cut_at sep String.[] = ("", none)
cut_at sep (String.◌∷◌ c s) =
    let rest = cut_at sep s in if code c == sep then ("", some s) else (String.◌∷◌ c rest.0, rest.1)

unfoldable pub has_char : (ℕ → Bool) → String → Bool
has_char test String.[] = false
has_char test (String.◌∷◌ c s) = test (code c) || has_char test s

-- \s
unfoldable pub is_ascii_space : ℕ → Bool
is_ascii_space c = c == 9 || c == 10 || c == 12 || c == 13 || c == 32

-- (-.+)?$ behind the dash: not empty, and no line break
unfoldable pub fits_suffix : Option String → Bool
unfolding has_char
fits_suffix none = true
fits_suffix (some s) = not (str_eq s "") && not (has_char (λ c. c == 10) s)

unfoldable pub alias_of : String → String × Option String → Option String
unfolding append has_char is_ascii_space fits_suffix
alias_of name (tag, suffix) =
    if not (str_eq tag "") && not (has_char is_ascii_space tag) && fits_suffix suffix
    then some (append name (append ":" tag))
    else none

unfoldable pub alias_after : String × Option String → Option String
unfolding cut_at alias_of
alias_after (name, none) = none
alias_after (name, some rest) = if str_eq name "" then none else alias_of name (cut_at b'-' rest)

unfoldable pub alias_key : String → Option String
unfolding cut_at alias_after
alias_key id = alias_after (cut_at b':' id)
