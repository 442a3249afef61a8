-- ===== src/Generation/Transparent.antt =====
-- What the client gets when the worker answers without an error.
use nfrx.Prelude.{
  ℕ, Bool-cases, List, String, [], if◌then◌else◌, inl, inr, none, refl, some, str_eq, true, ◌∷◌,
  ◌≡◌, eq_iff, false, sym, ◌∙◌, ap,
}
use nfrx.Prelude.Text.{append}
use nfrx.Generation.Relay.{
  Event, Relay, Settings, chunk, ending, headers, send_chunk, write, Next, Writer, on_error,
  on_event, over, read_body, run, new_relay, on_headers, read_chunk, write_header,
}
use nfrx.Generation.Stream.{feed, Stream, note_usage}
use nfrx.Generation.Lines.{concat, feed_all, feed-concat}
use nfrx.Generation.Cut.{append-nil, append_assoc}

-- The messages of a worker that sends every text, each of which reaches the client.
abbrev chunks : List String → List Event
chunks [] = ending none ∷ []
chunks (text ∷ texts) = chunk text true ∷ chunks texts

abbrev pub answer : ℕ → List String → List Event
answer status texts = headers status ∷ chunks texts

abbrev no_lines : Stream
no_lines = record { buf = ""; tokens_in = 0; tokens_out = 0 }

-- The token counts of an answer that is read at once.
abbrev pub counts_of : Settings → String → Stream
counts_of settings whole =
    if settings.is_stream
    then feed settings.usage whole no_lines
    else note_usage (settings.usage whole) no_lines

write_told :
    (status : ℕ) (text : String) (w : Writer)
    → w.status ≡ some status
    → write text w
      ≡ record { status = some status; late_headers = w.late_headers; body = append w.body text }
unfolding write
write_told status text w told = rw (told, write) refl

-- The status is on its way, `late` WriteHeader calls came too late, and `body` was sent.
abbrev pub IsAt : ℕ → ℕ → String → Writer → Type 0
IsAt status late body w = w ≡ record { status = some status; late_headers = late; body = body }

write-IsAt :
    (status late : ℕ) (body text : String) (w : Writer)
    → IsAt status late body w
    → IsAt status late (append body text) (write text w)
unfolding write
write-IsAt status late body text w k = rw k refl

send_chunk-IsAt :
    (status late : ℕ) (body text : String) (r : Relay)
    → IsAt status late body r.writer
    → IsAt status late (append body text) (send_chunk text true r).writer
unfolding send_chunk
send_chunk-IsAt status late body text r k = elim (Bool-cases (str_eq text "")) [
  | inl empty ↦ rw (empty, send_chunk) (rw ((eq_iff text "").0 empty, append-nil body) k)
  | inr filled ↦ rw (filled, send_chunk) (write-IsAt status late body text r.writer k)
]

send_chunk_rest :
    (text : String) (r : Relay)
    → ((send_chunk text true r).stream ≡ r.stream)
      × ((send_chunk text true r).body_buf ≡ r.body_buf)
      × ((send_chunk text true r).cancels ≡ r.cancels)
unfolding send_chunk
send_chunk_rest text r = elim (Bool-cases (str_eq text "")) [
  | inl empty ↦ rw (empty, send_chunk) (refl, refl, refl)
  | inr filled ↦ rw (filled, send_chunk) (refl, refl, refl)
]

-- What is left of the answer when the texts follow.
pub record IsServed (status late : ℕ) (body : String) (stream : Stream) (n : Next) : Type 0 where
  pub out : Relay
  pub ended : n ≡ over out
  pub sent : IsAt status late body out.writer
  pub counted : out.stream ≡ stream
  pub successful : out.success ≡ true

chunk_writer :
    (settings : Settings) (text : String) (r : Relay)
    → (read_chunk settings text r).writer ≡ r.writer
unfolding read_chunk
chunk_writer settings text r = elim (Bool-cases settings.is_stream) [
  | inl streamed ↦ rw (streamed, read_chunk) refl
  | inr whole ↦ rw (whole, read_chunk) refl
]

chunk_streamed :
    (settings : Settings) (text : String) (r : Relay)
    → settings.is_stream ≡ true
    → (read_chunk settings text (send_chunk text true r)).stream ≡ feed settings.usage text r.stream
unfolding read_chunk
chunk_streamed settings text r mode = rw (mode, read_chunk, (send_chunk_rest text r).0) refl

chunk_buffered :
    (settings : Settings) (text : String) (r : Relay)
    → settings.is_stream ≡ false
    → ((read_chunk settings text (send_chunk text true r)).body_buf ≡ append r.body_buf text)
      × ((read_chunk settings text (send_chunk text true r)).stream ≡ r.stream)
unfolding read_chunk
chunk_buffered settings text r mode =
    let rest = send_chunk_rest text r in rw (mode, read_chunk, rest.0, rest.1) (refl, refl)

chunk-IsAt :
    (settings : Settings) (status late : ℕ) (body text : String) (r : Relay)
    → IsAt status late body r.writer
    → IsAt status late (append body text) (read_chunk settings text (send_chunk text true r)).writer
chunk-IsAt settings status late body text r k =
    chunk_writer settings text (send_chunk text true r) ∙ send_chunk-IsAt status late body text r k

streamed :
    (settings : Settings) (texts : List String) (r : Relay) (status late : ℕ) (body : String)
    → settings.is_stream ≡ true
    → IsAt status late body r.writer
    → IsServed status late
        (append body (concat texts))
        (feed_all settings.usage texts r.stream)
        (run settings (chunks texts) r)
unfolding run on_event on_error read_body
streamed settings [] r status late body mode k =
    rw (mode, read_body, append-nil body)
      (record { out = _; ended = refl; sent = k; counted = refl; successful = refl })
streamed settings (text ∷ texts) r status late body mode k =
    rw (sym (append_assoc body text (concat texts)), sym (chunk_streamed settings text r mode))
      (streamed settings texts (read_chunk settings text (send_chunk text true r)) status late
        (append body text) mode (chunk-IsAt settings status late body text r k))

buffered :
    (settings : Settings) (texts : List String) (r : Relay) (status late : ℕ) (body whole : String)
    (st : Stream)
    → settings.is_stream ≡ false
    → IsAt status late body r.writer
    → r.body_buf ≡ whole
    → r.stream ≡ st
    → IsServed status late
        (append body (concat texts))
        (note_usage (settings.usage (append whole (concat texts))) st)
        (run settings (chunks texts) r)
unfolding run on_event on_error read_body
buffered settings [] r status late body whole st mode k read same =
    rw (mode, read_body, append-nil body, append-nil whole, sym read, sym same)
      (record { out = _; ended = refl; sent = k; counted = refl; successful = refl })
buffered settings (text ∷ texts) r status late body whole st mode k read same =
    let kept = chunk_buffered settings text r mode in
    rw (sym (append_assoc body text (concat texts)), sym (append_assoc whole text (concat texts)))
      (buffered settings texts (read_chunk settings text (send_chunk text true r)) status late
        (append body text) (append whole text) st mode
        (chunk-IsAt settings status late body text r k) (kept.0 ∙ ap (λ b. append b text) read)
        (kept.1 ∙ same))

counts_streamed :
    (settings : Settings) (texts : List String)
    → settings.is_stream ≡ true
    → counts_of settings (concat texts) ≡ feed_all settings.usage texts no_lines
counts_streamed settings texts mode =
    rw mode (sym (feed-concat settings.usage texts no_lines refl).0)

counts_buffered :
    (settings : Settings) (texts : List String)
    → settings.is_stream ≡ false
    → counts_of settings (concat texts) ≡ note_usage (settings.usage (concat texts)) no_lines
counts_buffered settings texts mode = rw mode refl

headers-IsAt :
    (status : ℕ) (w : Writer)
    → w.status ≡ none
    → IsAt status w.late_headers w.body (on_headers status (new_relay w)).writer
unfolding on_headers new_relay write_header
headers-IsAt status w fresh = rw fresh refl

-- A client to which nothing was sent and that is still there gets the status and the texts of the
-- worker unchanged, WriteHeader is not called twice, the request is a success, and the token counts
-- are those of the whole text, wherever the worker cuts it.
pub relay_transparent :
    (settings : Settings) (status : ℕ) (texts : List String) (w : Writer)
    → w.status ≡ none
    → IsServed status w.late_headers
        (append w.body (concat texts))
        (counts_of settings (concat texts))
        (run settings (answer status texts) (new_relay w))
unfolding run on_event on_headers new_relay append
relay_transparent settings status texts w fresh = elim (Bool-cases settings.is_stream) [
  | inl mode ↦ rw (counts_streamed settings texts mode) (
      streamed settings texts (on_headers status (new_relay w)) status w.late_headers w.body mode
        (headers-IsAt status w fresh))
  | inr mode ↦ rw (counts_buffered settings texts mode) (
      buffered settings texts (on_headers status (new_relay w)) status w.late_headers w.body ""
        no_lines mode (headers-IsAt status w fresh) refl refl)
]
