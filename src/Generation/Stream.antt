-- ===== src/Generation/Stream.antt =====
-- How generation_proxy.go cuts an event stream into lines and reads the token counts of each.
use Prim.Native.Char.{code}
use nfrx.Prelude.{
  ℕ, Option, String, if◌then◌else◌, ltb, none, some, str_eq, suc, zero, ◌&&◌, ◌==◌, ◌||◌,
}
use nfrx.Prelude.Text.{append, trim_space}

-- sseBuf, tokensIn and tokensOut. Text is read by characters: a message that ends within one is left
-- out.
pub record Stream : Type 0 where
  pub buf : String
  pub tokens_in : ℕ
  pub tokens_out : ℕ

-- The text before the first newline and behind it: strings.Index and the slices at it.
unfoldable pub cut_line : String → Option (String × String)
cut_line String.[] = none
cut_line (String.◌∷◌ c s) =
    let rest = cut_line s in
    if code c == 10
    then some ("", s)
    else elim rest [ some (line, behind) ↦ some (String.◌∷◌ c line, behind) | none ↦ none ]

-- strings.TrimRight(s, "\r")
unfoldable pub trim_returns : String → String
trim_returns String.[] = String.[]
trim_returns (String.◌∷◌ c s) =
    let rest = trim_returns s in
    if code c == 13 && str_eq rest "" then String.[] else String.◌∷◌ c rest

-- What follows a prefix, if the text has it: strings.HasPrefix and the slice behind it.
unfoldable pub behind_prefix : String → String → Option String
behind_prefix String.[] s = some s
behind_prefix (String.◌∷◌ p prefix) String.[] = none
behind_prefix (String.◌∷◌ p prefix) (String.◌∷◌ c s) =
    let rest = behind_prefix prefix s in if code c == code p then rest else none

-- if in > 0 { tokensIn = in }
unfoldable pub keep_positive : ℕ → ℕ → ℕ
keep_positive new old = if ltb 0 new then new else old

unfoldable pub note_usage : ℕ × ℕ → Stream → Stream
unfolding keep_positive
note_usage (found_in, found_out) st = record st {
  tokens_in = keep_positive found_in st.tokens_in;
  tokens_out = keep_positive found_out st.tokens_out;
}

unfoldable pub note_payload : (String → ℕ × ℕ) → String → Stream → Stream
unfolding note_usage
note_payload usage payload st =
    if str_eq payload "" || str_eq payload "[DONE]" then st else note_usage (usage payload) st

-- One line of the stream; `usage` is extractUsageFromJSON.
unfoldable pub note_line : (String → ℕ × ℕ) → String → Stream → Stream
unfolding behind_prefix trim_returns note_payload
note_line usage line st = elim (behind_prefix "data:" (trim_returns line)) [
  | some rest ↦ note_payload usage (trim_space rest) st
  | none ↦ st
]

-- The loop over the lines that are complete.
unfoldable pub drain_lines : (String → ℕ × ℕ) → ℕ → Stream → Stream
unfolding note_line cut_line
drain_lines usage zero st = st
drain_lines usage (suc fuel) st = elim (cut_line st.buf) [
  | some (line, behind) ↦ drain_lines usage fuel (note_line usage line (record st { buf = behind }))
  | none ↦ st
]

unfoldable pub size : String → ℕ
size String.[] = 0
size (String.◌∷◌ c s) = suc (size s)

-- sseBuf += string(m.Data) and the loop. A line takes at least its newline, so the fuel is enough.
unfoldable pub feed : (String → ℕ × ℕ) → String → Stream → Stream
unfolding drain_lines size
feed usage data_read st =
    let longer : Stream = record st { buf = append st.buf data_read } in
    drain_lines usage (suc (size longer.buf)) longer
