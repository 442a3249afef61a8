-- ===== src/Generation/Answers.antt =====
-- What the client gets from the loop of generation_proxy.go, and what is recorded of the request.
use nfrx.Prelude.{
  ℕ, Bool, List, Option, Option-cases, String, [], ap, false, inl, inr, none, refl, some, str_eq,
  true, ◌∙◌, ◌∷◌, ◌≡◌, ◌⊎◌, Bool-cases, suc, sym, ℤ, subst,
}
use nfrx.Prelude.Int.{ltb_ℤ}
use nfrx.Generation.Relay.{
  Relay, Event, on_event, Next, Settings, Writer, channel_closed, chunk, client_gone, ending,
  error_answer, going, headers, on_closed, on_error, on_headers, on_timer, over, read_body,
  read_chunk, send_chunk, timer, write, write_header, run, new_relay,
}

abbrev is_sent : Option ℕ → Bool
is_sent none = false
is_sent (some code) = true

-- The worker sends the headers before the chunks that are not empty.
abbrev pub HeadersFirst : Bool → List Event → Type 0
HeadersFirst sent [] = Unit
HeadersFirst sent (headers status ∷ events) = HeadersFirst true events
HeadersFirst sent (chunk text written ∷ events) =
    ((sent ≡ true) ⊎ (str_eq text "" ≡ true)) × HeadersFirst sent events
HeadersFirst sent (event ∷ events) = HeadersFirst sent events

abbrev Allowed : Bool → Event → Type 0
Allowed sent (chunk text written) = (sent ≡ true) ⊎ (str_eq text "" ≡ true)
Allowed sent event = Unit

abbrev sent_after : Bool → Event → Bool
sent_after sent (headers status) = true
sent_after sent event = sent

-- `headersSent` tells whether a status was sent.
record IsTold (sent : Bool) (late : ℕ) (r : Relay) : Type 0 where
  flag : r.headers_sent ≡ sent
  told : is_sent r.writer.status ≡ sent
  in_time : r.writer.late_headers ≡ late

abbrev Fine : Bool → ℕ → Next → Type 0
Fine sent late (going r) = IsTold sent late r
Fine sent late (over r) = r.writer.late_headers ≡ late

write_header_late :
    (code : ℕ) (w : Writer)
    → is_sent w.status ≡ false
    → (write_header code w).late_headers ≡ w.late_headers
unfolding write_header
write_header_late code w h = elim (Option-cases w.status) [
  | inl fresh ↦ rw (fresh, write_header) refl
  | inr (sent, there) ↦ absurd (cc (ap is_sent there, h))
]

write_header-is_sent : (code : ℕ) (w : Writer) → is_sent (write_header code w).status ≡ true
unfolding write_header
write_header-is_sent code w = elim (Option-cases w.status) [
  | inl fresh ↦ rw (fresh, write_header) refl
  | inr (sent, there) ↦ rw (there, write_header) (ap is_sent there)
]

write-is_sent : (text : String) (w : Writer) → is_sent (write text w).status ≡ true
unfolding write
write-is_sent text w = elim (Option-cases w.status) [
  | inl fresh ↦ rw (fresh, write) refl
  | inr (sent, there) ↦ rw (there, write) refl
]

error_answer_late :
    (code : ℕ) (answer : String) (r : Relay) (sent : Bool) (late : ℕ)
    → IsTold sent late r
    → (error_answer code answer r).writer.late_headers ≡ late
unfolding error_answer write
error_answer_late code answer r true late k = rw (k.flag, error_answer) k.in_time
error_answer_late code answer r false late k =
    rw (k.flag, error_answer) (write_header_late code r.writer k.told ∙ k.in_time)

read_chunk-IsTold :
    (settings : Settings) (text : String) (r : Relay) (sent : Bool) (late : ℕ)
    → IsTold sent late r
    → IsTold sent late (read_chunk settings text r)
unfolding read_chunk
read_chunk-IsTold settings text r sent late k = elim (Bool-cases settings.is_stream) [
  | inl streamed ↦
      rw (streamed, read_chunk) (record { flag = k.flag; told = k.told; in_time = k.in_time })
  | inr whole ↦
      rw (whole, read_chunk) (record { flag = k.flag; told = k.told; in_time = k.in_time })
]

read_body-IsTold :
    (settings : Settings) (r : Relay) (sent : Bool) (late : ℕ)
    → IsTold sent late r
    → IsTold sent late (read_body settings r)
unfolding read_body
read_body-IsTold settings r sent late k = elim (Bool-cases settings.is_stream) [
  | inl streamed ↦ rw (streamed, read_body) k
  | inr whole ↦ rw (whole, read_body) (record { flag = k.flag; told = k.told; in_time = k.in_time })
]

send_chunk-IsTold :
    (text : String) (written : Bool) (r : Relay) (sent : Bool) (late : ℕ)
    → (sent ≡ true) ⊎ (str_eq text "" ≡ true)
    → IsTold sent late r
    → IsTold sent late (send_chunk text written r)
unfolding send_chunk
send_chunk-IsTold text written r sent late (inr empty) k = rw (empty, send_chunk) k
send_chunk-IsTold text true r sent late (inl first) k = elim (Bool-cases (str_eq text "")) [
  | inl empty ↦ rw (empty, send_chunk) k
  | inr filled ↦
      rw (filled, send_chunk)
        (record {
          flag = k.flag;
          told = write-is_sent text r.writer ∙ sym first;
          in_time = unfold write in k.in_time;
        })
]
send_chunk-IsTold text false r sent late (inl first) k = elim (Bool-cases (str_eq text "")) [
  | inl empty ↦ rw (empty, send_chunk) k
  | inr filled ↦ rw (filled, send_chunk) k
]

on_headers-IsTold :
    (status : ℕ) (r : Relay) (sent : Bool) (late : ℕ)
    → IsTold sent late r
    → IsTold true late (on_headers status r)
unfolding on_headers
on_headers-IsTold status r true late k =
    rw (k.flag, on_headers) (record { flag = refl; told = k.told; in_time = k.in_time })
on_headers-IsTold status r false late k =
    rw (k.flag, on_headers)
      (record {
        flag = refl;
        told = write_header-is_sent status r.writer;
        in_time = write_header_late status r.writer k.told ∙ k.in_time;
      })

on_error_late :
    (error : Option String) (r : Relay) (sent : Bool) (late : ℕ)
    → IsTold sent late r
    → (on_error error r).writer.late_headers ≡ late
unfolding on_error write
on_error_late none r sent late k = k.in_time
on_error_late (some m) r true late k = elim (Bool-cases r.bytes_sent) [
  | inl begun ↦ rw (begun, on_error) k.in_time
  | inr silent ↦ rw (silent, k.flag, on_error) k.in_time
]
on_error_late (some m) r false late k = elim (Bool-cases r.bytes_sent) [
  | inl begun ↦ rw (begun, on_error) k.in_time
  | inr silent ↦ rw (silent, k.flag, on_error) (write_header_late 502 r.writer k.told ∙ k.in_time)
]

on_timer-Fine :
    (settings : Settings) (since : ℤ) (r : Relay) (sent : Bool) (late : ℕ)
    → IsTold sent late r
    → Fine sent late (on_timer settings since r)
unfolding on_timer
on_timer-Fine settings since r sent late k =
    elim (Bool-cases (ltb_ℤ settings.request_timeout since)) [
      | inl expired ↦
          rw (expired, on_timer)
            (error_answer_late 504 _ (record r { err_msg = "timeout"; cancels = suc r.cancels })
              sent late (record { flag = k.flag; told = k.told; in_time = k.in_time }))
      | inr waiting ↦ rw (waiting, on_timer) k
    ]

event-Fine :
    (settings : Settings) (event : Event) (r : Relay) (sent : Bool) (late : ℕ)
    → Allowed sent event
    → IsTold sent late r
    → Fine (sent_after sent event) late (on_event settings event r)
unfolding on_event on_closed
event-Fine settings client_gone r sent late ok k = k.in_time
event-Fine settings (timer since) r sent late ok k = on_timer-Fine settings since r sent late k
event-Fine settings channel_closed r sent late ok k = error_answer_late 502 _ r sent late k
event-Fine settings (headers status) r sent late ok k = on_headers-IsTold status r sent late k
event-Fine settings (chunk text written) r sent late ok k =
    read_chunk-IsTold settings text (send_chunk text written r) sent late
      (send_chunk-IsTold text written r sent late ok k)
event-Fine settings (ending error) r sent late ok k =
    on_error_late error (read_body settings r) sent late (read_body-IsTold settings r sent late k)

abbrev pub relay_of : Next → Relay
relay_of (going r) = r
relay_of (over r) = r

Fine-late :
    (sent : Bool) (late : ℕ) (n : Next) → Fine sent late n → (relay_of n).writer.late_headers ≡ late
Fine-late sent late (going r) k = k.in_time
Fine-late sent late (over r) e = e

HeadersFirst-cons :
    (sent : Bool) (event : Event) (events : List Event)
    → HeadersFirst sent (event ∷ events)
    → Allowed sent event × HeadersFirst (sent_after sent event) events
HeadersFirst-cons sent client_gone events h = (tt, h)
HeadersFirst-cons sent (timer since) events h = (tt, h)
HeadersFirst-cons sent channel_closed events h = (tt, h)
HeadersFirst-cons sent (headers status) events h = (tt, h)
HeadersFirst-cons sent (chunk text written) events h = h
HeadersFirst-cons sent (ending error) events h = (tt, h)

Next-cases : (n : Next) → ((r : Relay) × (n ≡ going r)) ⊎ ((r : Relay) × (n ≡ over r))
Next-cases (going r) = inl (r, refl)
Next-cases (over r) = inr (r, refl)

pub run_going :
    (settings : Settings) (event : Event) (events : List Event) (r after : Relay)
    → on_event settings event r ≡ going after
    → run settings (event ∷ events) r ≡ run settings events after
unfolding run
run_going settings event events r after e = rw (e, run) refl

pub run_over :
    (settings : Settings) (event : Event) (events : List Event) (r after : Relay)
    → on_event settings event r ≡ over after
    → run settings (event ∷ events) r ≡ over after
unfolding run
run_over settings event events r after e = rw (e, run) refl

run_late :
    (settings : Settings) (events : List Event) (r : Relay) (sent : Bool) (late : ℕ)
    → HeadersFirst sent events
    → IsTold sent late r
    → (relay_of (run settings events r)).writer.late_headers ≡ late
unfolding run
run_late settings [] r sent late h k = k.in_time
run_late settings (event ∷ events) r sent late h k =
    let c = HeadersFirst-cons sent event events h in
    let fine = event-Fine settings event r sent late c.0 k in
    elim (Next-cases (on_event settings event r)) [
      | inl (after, e) ↦ rw (run_going settings event events r after e) (
          run_late settings events after (sent_after sent event) late c.1
            (subst (Fine (sent_after sent event) late) e fine))
      | inr (after, e) ↦
          rw (run_over settings event events r after e)
            (subst (Fine (sent_after sent event) late) e fine)
    ]

-- If the worker sends headers before any chunk that is not empty, or queue positions were sent
-- already, then in no course of events does WriteHeader come too late.
pub status_once :
    (settings : Settings) (events : List Event) (writer : Writer)
    → HeadersFirst (new_relay writer).headers_sent events
    → (relay_of (run settings events (new_relay writer))).writer.late_headers ≡ writer.late_headers
unfolding new_relay
status_once settings events writer h =
    run_late settings events (new_relay writer) (new_relay writer).headers_sent writer.late_headers
      h (record { flag = refl; told = told_by writer.status; in_time = refl })
  where
    told_by :
        (status : Option ℕ)
        → is_sent status ≡ (elim status as (λ _. Bool) [ some sent ↦ true | none ↦ false ])
    told_by none = refl
    told_by (some sent) = refl
