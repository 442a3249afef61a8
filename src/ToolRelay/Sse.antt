-- ===== src/ToolRelay/Sse.antt =====
-- extractFirstSSEData in modules/mcp/agent/internal/mcp/relay.go, on the lines that bufio.Scanner
-- gives. A scan that fails is not modelled here: it gives an error in place of the result.
use nfrx.Prelude.{
  Bool, List, Option, String, [], false, if◌then◌else◌, none, some, str_eq, true, ◌==◌, ◌∷◌, refl,
  ◌≡◌, All, map, ◌++◌, ap, ◌∙◌,
}
use Prim.Native.Char.{code}
use nfrx.Prelude.Text.{append_assoc, trim_space-append, trim_space, append}

-- strings.HasPrefix(s, p), with what follows the prefix
unfoldable pub strip_prefix : String → String → Option String
strip_prefix String.[] s = some s
strip_prefix (String.◌∷◌ c p) String.[] = none
strip_prefix (String.◌∷◌ c p) (String.◌∷◌ d s) =
    let rest = strip_prefix p s in if code c == code d then rest else none

abbrev pub has_prefix : String → String → Bool
has_prefix p s = elim (strip_prefix p s) [ some rest ↦ true | none ↦ false ]

-- len(s) == 0
abbrev pub is_empty : String → Bool
is_empty String.[] = true
is_empty (String.◌∷◌ c s) = false

-- What a line is, in the order in which the code asks.
pub data Line : Type 0 where
  blank : Line
  passed_over : Line
  closing : Line
  data_line : String → Line

unfoldable pub data_or_other : Option String → Line
unfolding trim_space
data_or_other (some payload) = data_line (trim_space payload)
data_or_other none = passed_over

unfoldable pub event_or_data : Option String → String → Line
unfolding data_or_other strip_prefix trim_space
event_or_data (some name) line = if str_eq (trim_space name) "close" then closing else passed_over
event_or_data none line = data_or_other (strip_prefix "data:" line)

unfoldable pub kind_of : String → Line
unfolding event_or_data strip_prefix
kind_of line =
    if is_empty line
    then blank
    else if has_prefix ":" line
    then passed_over
    else event_or_data (strip_prefix "event:" line) line

-- data.WriteString(payload), after a line feed unless the buffer is empty
unfoldable pub add_data : String → String → String
unfolding append
add_data payload data_read =
    if is_empty data_read then payload else append (append data_read "\n") payload

unfoldable pub data_found : String → Option String
data_found data_read = if is_empty data_read then none else some data_read

-- The loop over the lines, with what is in the buffer.
unfoldable pub extract : List String → String → Option String
unfolding kind_of add_data data_found
extract [] data_read = data_found data_read
extract (line ∷ lines) data_read = elim (kind_of line) [
  | blank ↦ elim (data_found data_read) [
    | some payload ↦ some payload
    | none ↦ extract lines data_read
  ]
  | passed_over ↦ extract lines data_read
  | closing ↦ data_found data_read
  | data_line payload ↦ extract lines (add_data payload data_read)
]

unfoldable pub extract_first_sse_data : List String → Option String
unfolding extract
extract_first_sse_data lines = extract lines ""

-- The text of an event: its parts, one on each line.
abbrev pub join_lines : List String → String
join_lines [] = ""
join_lines (part ∷ []) = part
join_lines (part ∷ next ∷ parts) = append part (append "\n" (join_lines (next ∷ parts)))

abbrev pub sse_line : String → String
sse_line part = append "data: " part

kind_of-sse_line :
    (part : String) → trim_space part ≡ part → kind_of (sse_line part) ≡ data_line part
unfolding kind_of append
kind_of-sse_line part h = rw (trim_space-append part, h) refl

is_empty-append : (s t : String) → is_empty s ≡ false → is_empty (append s t) ≡ false
unfolding append
is_empty-append String.[] t h = absurd cc
is_empty-append (String.◌∷◌ c s) t h = refl

join_lines-add_data :
    (data_read part : String) (parts : List String)
    → is_empty data_read ≡ false
    → join_lines (add_data part data_read ∷ parts) ≡ join_lines (data_read ∷ part ∷ parts)
unfolding add_data
join_lines-add_data data_read part [] h = rw (h, append_assoc data_read "\n" part) refl
join_lines-add_data data_read part (next ∷ parts) h =
    rw
      (
        h,
        append_assoc data_read "\n" part,
        append_assoc data_read (append "\n" part) (append "\n" (join_lines (next ∷ parts))),
        append_assoc "\n" part (append "\n" (join_lines (next ∷ parts))),
      )
      refl

extract-data_line :
    (line : String) (lines : List String) (data_read payload : String)
    → kind_of line ≡ data_line payload
    → extract (line ∷ lines) data_read ≡ extract lines (add_data payload data_read)
unfolding extract
extract-data_line line lines data_read payload e = rw (extract, e) refl

module _ (rest : List String) where
  -- With something in the buffer, the lines of an event are read up to the blank one.
  extract-append :
      (parts : List String) (data_read : String)
      → is_empty data_read ≡ false
      → All (λ p. trim_space p ≡ p) parts
      → extract (map sse_line parts ++ "" ∷ rest) data_read ≡ some (join_lines (data_read ∷ parts))
  unfolding kind_of extract
  extract-append [] data_read h t = rw (extract, data_found, h) refl
  extract-append (part ∷ parts) data_read h t =
      let step =
        extract-data_line (sse_line part) (map sse_line parts ++ "" ∷ rest) data_read part
          (kind_of-sse_line part t.0) in
      step
      ∙ extract-append parts (add_data part data_read) (filled part data_read h) t.1
      ∙ ap some (join_lines-add_data data_read part parts h)
    where
      filled : (p d : String) → is_empty d ≡ false → is_empty (add_data p d) ≡ false
      filled p d e = rw (add_data, e) (is_empty-append _ p (is_empty-append d "\n" e))

-- What a server sends as one event, a line for each part, is what is taken out, its parts on lines
-- of their own, whatever follows the blank line; no part has spaces around it, and the first is not
-- empty.
pub extract-join_lines :
    (part : String) (parts rest : List String)
    → is_empty part ≡ false
    → All (λ p. trim_space p ≡ p) (part ∷ parts)
    → extract_first_sse_data (map sse_line (part ∷ parts) ++ "" ∷ rest)
      ≡ some (join_lines (part ∷ parts))
unfolding extract_first_sse_data add_data
extract-join_lines part parts rest h t =
    extract-data_line (sse_line part) (map sse_line parts ++ "" ∷ rest) "" part
      (kind_of-sse_line part t.0)
    ∙ extract-append rest parts part h t.1
