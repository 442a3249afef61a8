-- ===== src/Generation/Reports.antt =====
-- What generation_proxy.go records of a request, and the answer that a worker gives without an error.
use nfrx.Prelude.{
  ℕ, Bool, Bool-cases, List, Option, String, [], false, if◌then◌else◌, inl, inr, none, pos, refl,
  some, str_eq, true, ℤ, ◌∷◌, ◌≡◌, ap, suc, sym, ◌∙◌,
}
use nfrx.Prelude.Int.{ltb_ℤ}
use nfrx.Generation.Relay.{
  Relay, Event, run, Next, Settings, Writer, channel_closed, chunk, client_gone, ending,
  error_answer, going, headers, new_relay, on_error, over, read_body, read_chunk, send_chunk, timer,
  write, on_closed, on_event, on_headers, on_timer,
}
use nfrx.Generation.Answers.{run_going, run_over}

-- What is passed to RecordJobEnd: success and the error message.
abbrev pub report_of : Next → Option (Bool × String)
report_of (going r) = none
report_of (over r) = some (r.success, r.err_msg)

-- The report as a function of the events alone; `sent` tells whether bytes have reached the client.
unfoldable pub report : ℤ → Bool → List Event → Option (Bool × String)
report timeout sent [] = none
report timeout sent (client_gone ∷ events) = some (false, "")
report timeout sent (timer since ∷ events) =
    let later = report timeout sent events in
    if ltb_ℤ timeout since then some (false, "timeout") else later
report timeout sent (channel_closed ∷ events) = some (false, "closed")
report timeout sent (headers status ∷ events) = report timeout sent events
report timeout sent (chunk text written ∷ events) =
    report timeout (if str_eq text "" then sent else if written then true else sent) events
report timeout sent (ending none ∷ events) = some (true, "")
report timeout sent (ending (some message) ∷ events) =
    if sent then some (true, "") else some (false, message)

record IsBlank (sent : Bool) (r : Relay) : Type 0 where
  flag : r.bytes_sent ≡ sent
  unsuccessful : r.success ≡ false
  silent : r.err_msg ≡ ""

read_chunk-IsBlank :
    (settings : Settings) (text : String) (r : Relay) (sent : Bool)
    → IsBlank sent r
    → IsBlank sent (read_chunk settings text r)
unfolding read_chunk
read_chunk-IsBlank settings text r sent k = elim (Bool-cases settings.is_stream) [
  | inl streamed ↦
      rw (streamed, read_chunk)
        (record { flag = k.flag; unsuccessful = k.unsuccessful; silent = k.silent })
  | inr whole ↦
      rw (whole, read_chunk)
        (record { flag = k.flag; unsuccessful = k.unsuccessful; silent = k.silent })
]

send_chunk-IsBlank :
    (text : String) (written : Bool) (r : Relay) (sent : Bool)
    → IsBlank sent r
    → IsBlank
        (if str_eq text "" then sent else if written then true else sent)
        (send_chunk text written r)
unfolding send_chunk
send_chunk-IsBlank text written r sent k = elim (Bool-cases (str_eq text "")) [
  | inl empty ↦ rw (empty, send_chunk) k
  | inr filled ↦ rw (filled, send_chunk) (written_case written)
]
  where
    written_case :
        (b : Bool)
        → IsBlank
            (if b then true else sent)
            (if b then record r { writer = write text r.writer; bytes_sent = true } else r)
    written_case true = record { flag = refl; unsuccessful = k.unsuccessful; silent = k.silent }
    written_case false = k

read_body-IsBlank :
    (settings : Settings) (r : Relay) (sent : Bool)
    → IsBlank sent r
    → IsBlank sent (read_body settings r)
unfolding read_body
read_body-IsBlank settings r sent k = elim (Bool-cases settings.is_stream) [
  | inl streamed ↦ rw (streamed, read_body) k
  | inr whole ↦
      rw (whole, read_body)
        (record { flag = k.flag; unsuccessful = k.unsuccessful; silent = k.silent })
]

error_answer-report :
    (code : ℕ) (answer : String) (r : Relay)
    → ((error_answer code answer r).success ≡ r.success)
      × ((error_answer code answer r).err_msg ≡ r.err_msg)
unfolding error_answer
error_answer-report code answer r = elim (Bool-cases r.headers_sent) [
  | inl told ↦ rw (told, error_answer) (refl, refl)
  | inr untold ↦ rw (untold, error_answer) (refl, refl)
]

on_error-report :
    (error : Option String) (r : Relay) (sent : Bool)
    → IsBlank sent r
    → some ((on_error error r).success, (on_error error r).err_msg)
      ≡ report (pos 0) sent (ending error ∷ [])
unfolding on_error report
on_error-report none r sent k = rw k.silent refl
on_error-report (some m) r true k = rw (k.flag, on_error) (rw k.silent refl)
on_error-report (some m) r false k = rw (k.flag, on_error) (rw k.unsuccessful refl)

on_headers-IsBlank :
    (status : ℕ) (r : Relay) (sent : Bool) → IsBlank sent r → IsBlank sent (on_headers status r)
unfolding on_headers
on_headers-IsBlank status r sent k = record {
  flag = k.flag;
  unsuccessful = k.unsuccessful;
  silent = k.silent;
}

closed_report :
    (r : Relay) (sent : Bool)
    → IsBlank sent r
    → report_of (over (on_closed r)) ≡ some (false, "closed")
unfolding on_closed
closed_report r sent k =
    let told : Bool → Option (Bool × String) = λ b. some (b, "closed") in
    ap told ((error_answer-report 502 _ r).0 ∙ k.unsuccessful)

expired_report :
    (settings : Settings) (since : ℤ) (r : Relay) (sent : Bool)
    → IsBlank sent r
    → ltb_ℤ settings.request_timeout since ≡ true
    → report_of (on_timer settings since r) ≡ some (false, "timeout")
unfolding on_timer
expired_report settings since r sent k expired =
    rw (expired, on_timer)
      (let told : Relay = record r { err_msg = "timeout"; cancels = suc r.cancels } in
        let kept = error_answer-report 504 "{\"error\":\"timeout\"}" told in
        rw (kept.0, kept.1, k.unsuccessful) refl)

on_timer_waits :
    (settings : Settings) (since : ℤ) (r : Relay)
    → ltb_ℤ settings.request_timeout since ≡ false
    → on_timer settings since r ≡ going r
unfolding on_timer
on_timer_waits settings since r waiting = rw (waiting, on_timer) refl

on_timer_over :
    (settings : Settings) (since : ℤ) (r : Relay)
    → ltb_ℤ settings.request_timeout since ≡ true
    → (after : Relay) × (on_timer settings since r ≡ over after)
unfolding on_timer
on_timer_over settings since r expired = rw (expired, on_timer) (_, refl)

blank_report :
    (settings : Settings) (events : List Event) (r : Relay) (sent : Bool)
    → IsBlank sent r
    → report_of (run settings events r) ≡ report settings.request_timeout sent events
unfolding run report on_event
blank_report settings [] r sent k = refl
blank_report settings (client_gone ∷ events) r sent k = rw (k.unsuccessful, k.silent) refl
blank_report settings (timer since ∷ events) r sent k =
    elim (Bool-cases (ltb_ℤ settings.request_timeout since)) [
      | inl expired ↦
          let stop = on_timer_over settings since r expired in
          rw (run_over settings (timer since) events r stop.0 stop.1, expired)
            (ap report_of (sym stop.1) ∙ expired_report settings since r sent k expired)
      | inr waiting ↦
          rw
            (
              run_going settings (timer since) events r r (on_timer_waits settings since r waiting),
              waiting,
            )
            (blank_report settings events r sent k)
    ]
blank_report settings (channel_closed ∷ events) r sent k = closed_report r sent k
blank_report settings (headers status ∷ events) r sent k =
    blank_report settings events (on_headers status r) sent (on_headers-IsBlank status r sent k)
blank_report settings (chunk text written ∷ events) r sent k =
    blank_report settings events (read_chunk settings text (send_chunk text written r)) _ (
      read_chunk-IsBlank settings text (send_chunk text written r) _
        (send_chunk-IsBlank text written r sent k))
blank_report settings (ending none ∷ events) r sent k =
    on_error-report none (read_body settings r) sent (read_body-IsBlank settings r sent k)
blank_report settings (ending (some m) ∷ events) r sent k =
    on_error-report (some m) (read_body settings r) sent (read_body-IsBlank settings r sent k)

-- What is recorded of a request is the report of its events: a success exactly when the worker ends
-- without an error, or with an error after bytes have reached the client.
pub run-report :
    (settings : Settings) (events : List Event) (writer : Writer)
    → report_of (run settings events (new_relay writer))
      ≡ report settings.request_timeout false events
unfolding new_relay
run-report settings events writer =
    blank_report settings events (new_relay writer) false
      (record { flag = refl; unsuccessful = refl; silent = refl })
