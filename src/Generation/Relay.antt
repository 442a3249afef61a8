-- ===== src/Generation/Relay.antt =====
-- The loop of generation_proxy.go that hands the worker's answer to the client.
use nfrx.Prelude.{
  ℕ, Bool, List, Option, String, [], false, if◌then◌else◌, none, some, str_eq, suc, true, ℤ, ◌∷◌,
}
use nfrx.Prelude.Int.{ltb_ℤ}
use nfrx.Prelude.Text.{append}
use nfrx.Generation.Stream.{Stream, feed, note_usage}

-- The http.ResponseWriter: the status that was sent, how often WriteHeader came too late, and the
-- body. Header fields are left out.
pub record Writer : Type 0 where
  pub status : Option ℕ
  pub late_headers : ℕ
  pub body : String

unfoldable pub write_header : ℕ → Writer → Writer
write_header code w = elim (w.status) [
  | none ↦ record w { status = some code }
  | some sent ↦ record w { late_headers = suc w.late_headers }
]

-- A Write sends the status 200 first if none was sent.
unfoldable pub write : String → Writer → Writer
write data_sent w = record w {
  status = elim (w.status) [ none ↦ some 200 | some sent ↦ some sent ];
  body = append w.body data_sent;
}

-- The local variables of the handler; `cancels` counts the cancel messages to the worker.
pub record Relay : Type 0 where
  pub headers_sent : Bool
  pub bytes_sent : Bool
  pub success : Bool
  pub err_msg : String
  pub upstream_status : ℕ
  pub stream : Stream
  pub body_buf : String
  pub writer : Writer
  pub cancels : ℕ

pub record Settings : Type 0 where
  pub is_stream : Bool
  pub request_timeout : ℤ
  pub usage : String → ℕ × ℕ

-- What the select of the loop meets. `timer` has the time since the last heartbeat, `chunk` whether
-- the write to the client succeeds, `ending` the message of an error.
pub data Event : Type 0 where
  client_gone : Event
  timer : ℤ → Event
  channel_closed : Event
  headers : ℕ → Event
  chunk : String → Bool → Event
  ending : Option String → Event

pub data Next : Type 0 where
  going : Relay → Next
  over : Relay → Next

-- w.WriteHeader(code) and the body of an error
unfoldable pub error_answer : ℕ → String → Relay → Relay
unfolding write_header write
error_answer code answer r =
    if r.headers_sent then r else record r { writer = write answer (write_header code r.writer) }

unfoldable pub on_timer : Settings → ℤ → Relay → Next
unfolding error_answer
on_timer settings since r =
    if ltb_ℤ settings.request_timeout since
    then over (
        error_answer 504 "{\"error\":\"timeout\"}"
          (record r { err_msg = "timeout"; cancels = suc r.cancels }))
    else going r

unfoldable pub on_closed : Relay → Relay
unfolding error_answer
on_closed r = record (error_answer 502 "{\"error\":\"upstream_error\"}" r) { err_msg = "closed" }

unfoldable pub on_headers : ℕ → Relay → Relay
unfolding write_header
on_headers status r = record r {
  upstream_status = status;
  headers_sent = true;
  writer = if r.headers_sent then r.writer else write_header status r.writer;
}

-- if len(m.Data) > 0 { ... w.Write(m.Data) ... }; a write that fails sends nothing
unfoldable pub send_chunk : String → Bool → Relay → Relay
unfolding write
send_chunk text written r =
    if str_eq text ""
    then r
    else if written
    then record r { writer = write text r.writer; bytes_sent = true }
    else r

unfoldable pub read_chunk : Settings → String → Relay → Relay
unfolding feed
read_chunk settings text r =
    if settings.is_stream
    then record r { stream = feed settings.usage text r.stream }
    else record r { body_buf = append r.body_buf text }

unfoldable pub read_body : Settings → Relay → Relay
unfolding note_usage
read_body settings r =
    if settings.is_stream
    then r
    else record r { stream = note_usage (settings.usage r.body_buf) r.stream }

-- if m.Error != nil && !bytesSent { ... } else { success = true }
unfoldable pub on_error : Option String → Relay → Relay
unfolding write_header write
on_error none r = record r { success = true }
on_error (some message) r = if r.bytes_sent then record r { success = true } else record r {
  writer =
      write "{\"error\":\"upstream_error\"}"
        (if r.headers_sent then r.writer else write_header 502 r.writer);
  err_msg = message;
}

unfoldable pub on_event : Settings → Event → Relay → Next
unfolding on_timer on_closed on_headers send_chunk read_chunk read_body on_error
on_event settings client_gone r = over (record r { cancels = suc r.cancels })
on_event settings (timer since) r = on_timer settings since r
on_event settings channel_closed r = over (on_closed r)
on_event settings (headers status) r = going (on_headers status r)
on_event settings (chunk text written) r =
    going (read_chunk settings text (send_chunk text written r))
on_event settings (ending error) r = over (on_error error (read_body settings r))

unfoldable pub run : Settings → List Event → Relay → Next
unfolding on_event
run settings [] r = going r
run settings (event ∷ events) r = elim (on_event settings event r) [
  | going r' ↦ run settings events r'
  | over r' ↦ over r'
]

-- The variables at the label PROXY, for a writer that may have sent queue positions.
unfoldable pub new_relay : Writer → Relay
new_relay writer = record {
  headers_sent = elim (writer.status) [ some sent ↦ true | none ↦ false ];
  bytes_sent = false;
  success = false;
  err_msg = "";
  upstream_status = 0;
  stream = record { buf = ""; tokens_in = 0; tokens_out = 0 };
  body_buf = "";
  writer = writer;
  cancels = 0;
}
