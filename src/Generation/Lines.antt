-- ===== src/Generation/Lines.antt =====
-- That the cut of an event stream into messages does not matter.
use Prim.Native.Char.{Char, code}
use nfrx.Prelude.{
  String, ap, false, none, refl, some, true, ◌==◌, ◌≡◌, Bool-cases, Option-cases, arith,
  if◌then◌else◌, inl, inr, ℕ, str_eq, suc, sym, zero, ◌<◌, ◌||◌, ◌∙◌, List, [], subst, ◌∷◌,
}
use nfrx.Prelude.Text.{append, trim_space}
use nfrx.Generation.Stream.{
  cut_line, size, Stream, note_line, note_usage, behind_prefix, drain_lines, note_payload,
  trim_returns, feed,
}
use nfrx.Generation.Cut.{
  IsOpen, IsOpen-snoc, append-nil, append_assoc, cut_line-append, size-append,
}

-- Reads the text character by character: the reference for `feed`.
absorb : (String → ℕ × ℕ) → String → Stream → Stream
absorb usage String.[] st = st
absorb usage (String.◌∷◌ c s) st =
    let line = absorb usage s (note_line usage st.buf (record st { buf = "" })) in
    let part = absorb usage s (record st { buf = append st.buf (String.◌∷◌ c "") }) in
    if code c == 10 then line else part

note_payload-buf :
    (usage : String → ℕ × ℕ) (payload b : String) (st : Stream)
    → note_payload usage payload (record st { buf = b })
      ≡ record (note_payload usage payload st) { buf = b }
unfolding note_payload note_usage
note_payload-buf usage payload b st =
    elim (Bool-cases (str_eq payload "" || str_eq payload "[DONE]")) [
      | inl skipped ↦ rw skipped refl
      | inr read ↦ rw read refl
    ]

-- What is read of a line does not depend on the rest of the buffer, and keeps it.
note_line-buf :
    (usage : String → ℕ × ℕ) (line b : String) (st : Stream)
    → note_line usage line (record st { buf = b }) ≡ record (note_line usage line st) { buf = b }
unfolding note_line
note_line-buf usage line b st = elim (Option-cases (behind_prefix "data:" (trim_returns line))) [
  | inl other ↦ rw (other, note_line) refl
  | inr (rest, found) ↦ rw (found, note_line) (note_payload-buf usage (trim_space rest) b st)
]

absorb_newline :
    (usage : String → ℕ × ℕ) (c : Char) (s : String) (st : Stream)
    → (code c == 10) ≡ true
    → absorb usage (String.◌∷◌ c s) st
      ≡ absorb usage s (note_line usage st.buf (record st { buf = "" }))
unfolding absorb
absorb_newline usage c s st newline = rw newline refl

absorb_other :
    (usage : String → ℕ × ℕ) (c : Char) (s : String) (st : Stream)
    → (code c == 10) ≡ false
    → absorb usage (String.◌∷◌ c s) st
      ≡ absorb usage s (record st { buf = append st.buf (String.◌∷◌ c "") })
unfolding absorb
absorb_other usage c s st other = rw other refl

drain_none :
    (usage : String → ℕ × ℕ) (fuel : ℕ) (st : Stream)
    → cut_line st.buf ≡ none
    → drain_lines usage (suc fuel) st ≡ st
unfolding drain_lines
drain_none usage fuel st e = rw (e, drain_lines) refl

drain_some :
    (usage : String → ℕ × ℕ) (fuel : ℕ) (st : Stream) (line behind : String)
    → cut_line st.buf ≡ some (line, behind)
    → drain_lines usage (suc fuel) st
      ≡ drain_lines usage fuel (note_line usage line (record st { buf = behind }))
unfolding drain_lines
drain_some usage fuel st line behind e = rw (e, drain_lines) refl

drain_lines-absorb :
    (usage : String → ℕ × ℕ) (s b : String) (fuel : ℕ) (st : Stream)
    → IsOpen b
    → size s < fuel
    → drain_lines usage fuel (record st { buf = append b s })
      ≡ absorb usage s (record st { buf = b })
unfolding append absorb cut_line size
drain_lines-absorb usage s b zero st open_b enough = absurd (omega (arith, enough))
drain_lines-absorb usage String.[] b (suc fuel) st open_b enough =
    rw (append-nil b) (drain_none usage fuel (record st { buf = b }) open_b)
drain_lines-absorb usage (String.◌∷◌ c s) b (suc fuel) st open_b enough =
    elim (Bool-cases (code c == 10)) [
      | inl newline ↦
          drain_some usage fuel (record st { buf = append b (String.◌∷◌ c s) }) b s
            (cut_line-append b s c newline open_b)
          ∙ ap (drain_lines usage fuel) (note_line-buf usage b s st)
          ∙ drain_lines-absorb usage s "" fuel (note_line usage b st) refl (omega (arith, enough))
          ∙ ap (absorb usage s) (sym (note_line-buf usage b "" st))
          ∙ sym (absorb_newline usage c s (record st { buf = b }) newline)
      | inr other ↦
          let longer = append b (String.◌∷◌ c "") in
          ap (λ t. drain_lines usage (suc fuel) (record st { buf = t }))
            (sym (append_assoc b (String.◌∷◌ c "") s))
          ∙ drain_lines-absorb usage s longer (suc fuel) st (IsOpen-snoc b c other open_b)
              (omega (arith, enough))
          ∙ sym (absorb_other usage c s (record st { buf = b }) other)
    ]

feed-absorb :
    (usage : String → ℕ × ℕ) (text : String) (st : Stream)
    → IsOpen st.buf
    → feed usage text st ≡ absorb usage text st
unfolding feed
feed-absorb usage text st open_buf =
    drain_lines-absorb usage text st.buf (suc (size (append st.buf text))) st open_buf
      (omega (arith, size-append st.buf text))

absorb-append :
    (usage : String → ℕ × ℕ) (a b : String) (st : Stream)
    → absorb usage (append a b) st ≡ absorb usage b (absorb usage a st)
unfolding append absorb
absorb-append usage String.[] b st = refl
absorb-append usage (String.◌∷◌ c a) b st = elim (Bool-cases (code c == 10)) [
  | inl newline ↦ rw newline (absorb-append usage a b _)
  | inr other ↦ rw other (absorb-append usage a b _)
]

absorb-IsOpen :
    (usage : String → ℕ × ℕ) (a : String) (st : Stream)
    → IsOpen st.buf
    → IsOpen (absorb usage a st).buf
unfolding absorb cut_line
absorb-IsOpen usage String.[] st open_buf = open_buf
absorb-IsOpen usage (String.◌∷◌ c a) st open_buf = elim (Bool-cases (code c == 10)) [
  | inl newline ↦ rw newline (
      absorb-IsOpen usage a _
        (subst IsOpen (sym (ap (λ t. t.buf) (note_line-buf usage st.buf "" st))) refl))
  | inr other ↦ rw other (absorb-IsOpen usage a _ (IsOpen-snoc st.buf c other open_buf))
]

abbrev pub feed_all : (String → ℕ × ℕ) → List String → Stream → Stream
feed_all usage [] st = st
feed_all usage (message ∷ messages) st = feed_all usage messages (feed usage message st)

abbrev pub concat : List String → String
concat [] = ""
concat (message ∷ messages) = append message (concat messages)

feed_all-absorb :
    (usage : String → ℕ × ℕ) (messages : List String) (st : Stream)
    → IsOpen st.buf
    → feed_all usage messages st ≡ absorb usage (concat messages) st
feed_all-absorb usage [] st open_buf = unfold absorb in refl
feed_all-absorb usage (message ∷ messages) st open_buf =
    let one = feed-absorb usage message st open_buf in
    rw one (
      feed_all-absorb usage messages (absorb usage message st)
        (absorb-IsOpen usage message st open_buf)
      ∙ sym (absorb-append usage message (concat messages) st))

-- From an empty buffer, the messages of an event stream leave the same buffer and token counts as
-- their concatenation read at once, so that it does not matter where the worker cuts the stream; and
-- no complete line is left unread.
pub feed-concat :
    (usage : String → ℕ × ℕ) (messages : List String) (st : Stream)
    → st.buf ≡ ""
    → (feed_all usage messages st ≡ feed usage (concat messages) st)
      × (cut_line (feed_all usage messages st).buf ≡ none)
unfolding cut_line
feed-concat usage messages st empty =
    let open_buf = subst IsOpen (sym empty) refl in
    let all = feed_all-absorb usage messages st open_buf in
    (
      all ∙ sym (feed-absorb usage (concat messages) st open_buf),
      subst (λ t. IsOpen t.buf) (sym all) (absorb-IsOpen usage (concat messages) st open_buf),
    )
