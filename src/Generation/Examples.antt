-- ===== src/Generation/Examples.antt =====
-- The theorems on generation_proxy.go at concrete inputs.
use nfrx.Prelude.{ℕ, List, String, [], false, none, pos, refl, some, true, ◌∷◌, ◌≡◌, contains}
use nfrx.Prelude.Text.{append, trim_space}
use nfrx.Prelude.Dict.{lookup, insert}
use nfrx.Workers.{alias_score, consider, has_capacity, has_label, is_eligible, pick_worker}
use nfrx.Workers.Registry.{remove, Store, new_store, register, add_job, send_on}
use nfrx.Workers.Steps.{registers}
use nfrx.Generation.Relay.{
  Writer, Event, Settings, chunk, ending, headers, new_relay, run, timer, write, write_header,
}
use nfrx.Generation.Stream.{feed, cut_line, Stream}
use nfrx.Generation.Lines.{feed-concat, feed_all, concat}
use nfrx.Generation.Reports.{run-report, report, report_of}
use nfrx.Generation.Transparent.{relay_transparent, IsServed, answer, counts_of}
use nfrx.Generation.Waiting.{
  in_loop, selects, is_supported, retries, not_dispatched, is_zero, entered, write_queue_status,
  queue_status_writer, advance, model_supported, any_label, registered, offer, after_send, has_sent,
  has_panicked, Server, on_tick, Proxy, Request, retry, can_dispatch, is_some,
}
use nfrx.Generation.Queueing.{waiting_items}
use nfrx.Generation.Arrivals.{
  enters, ticks, advances, queue_waiting, Reached, changes, goes_on, opens,
}
use nfrx.Completions.{enter, new_completion_queue}

-- Every text with a value counts 1 and 2 tokens.
abbrev one_two : String → ℕ × ℕ
one_two text = (1, 2)

abbrev stream_settings : Settings
stream_settings = record { is_stream = true; request_timeout = pos 30; usage = one_two }

abbrev fresh_writer : Writer
fresh_writer = record { status = none; late_headers = 0; body = "" }

abbrev two_messages : List String
two_messages = "data: {\"us" ∷ "age\":{}}\n\ndata: [DONE]\n" ∷ []

abbrev empty_stream : Stream
empty_stream = record { buf = ""; tokens_in = 0; tokens_out = 0 }

feed-concat_example :
    (feed_all one_two two_messages empty_stream ≡ feed one_two (concat two_messages) empty_stream)
    × (cut_line (feed_all one_two two_messages empty_stream).buf ≡ none)
feed-concat_example = feed-concat one_two two_messages empty_stream refl

feed_example :
    feed one_two (concat two_messages) empty_stream
    ≡ record { buf = ""; tokens_in = 1; tokens_out = 2 }
unfolding feed append trim_space
feed_example = refl

abbrev some_events : List Event
some_events = timer (pos 3) ∷ headers 200 ∷ chunk "data: x\n" true ∷ ending (some "lost") ∷ []

run-report_example :
    report_of (run stream_settings some_events (new_relay fresh_writer))
    ≡ report (pos 30) false some_events
run-report_example = run-report stream_settings some_events fresh_writer

relay_transparent_example :
    IsServed 200 0
      (append "" (concat two_messages))
      (counts_of stream_settings (concat two_messages))
      (run stream_settings (answer 200 two_messages) (new_relay fresh_writer))
relay_transparent_example = relay_transparent stream_settings 200 two_messages fresh_writer refl

abbrev proxy : Proxy
proxy = record { has_queue = true; queue_size = pos 4; score = alias_score; min_score = 1 }

abbrev a_request : String → Request
a_request id = record { id = id; model = "llama"; is_told = true; payload = λ n. "{}" }

abbrev busy_store : Store
busy_store = register "w" ("llama" ∷ []) (pos 0) (pos 1) 0 new_store

abbrev idle_server : Server
idle_server = record { queue = record { items = []; cap = pos 4 }; store = busy_store; phases = [] }

abbrev told_writer : Writer
told_writer = record {
  status = some 200;
  late_headers = 0;
  body = "event: nfrx.queue\ndata: {}\n\n";
}

abbrev waiting_server : Server
waiting_server = record idle_server {
  queue = record { items = record { id = "a"; model = "llama" } ∷ []; cap = pos 4 };
  phases = ("a", in_loop (a_request "a") told_writer selects) ∷ [];
}

abbrev retrying_server : Server
retrying_server = record waiting_server {
  phases = ("a", in_loop (a_request "a") told_writer is_supported) ∷ [];
}

idle_server-Reached : Reached proxy idle_server
unfolding register new_completion_queue
idle_server-Reached =
    goes_on (opens (pos 4)) (changes (registers "w" ("llama" ∷ []) (pos 0) (pos 1) 0))

waiting_server-Reached : Reached proxy waiting_server
unfolding lookup not_dispatched is_zero entered enter write_queue_status queue_status_writer write
    write_header append
waiting_server-Reached =
    goes_on idle_server-Reached (enters true (a_request "a") fresh_writer refl refl)

retrying_server-Reached : Reached proxy retrying_server
unfolding lookup insert on_tick advance model_supported any_label registered has_label contains
    register
retrying_server-Reached =
    goes_on (goes_on waiting_server-Reached (ticks retry (a_request "a") told_writer refl))
      (advances true (a_request "a") told_writer retries refl)

queue_waiting_example : retrying_server.queue.items ≡ waiting_items retrying_server.phases
queue_waiting_example = queue_waiting proxy retrying_server retrying_server-Reached

abbrev free_server : Server
free_server = record waiting_server {
  store = register "w" ("llama" ∷ []) (pos 2) (pos 1) 0 new_store;
}

abbrev holding_store : Store
holding_store = add_job 0 "a" free_server.store

offered : offer true "w" 0 holding_store ≡ has_sent "w" 0
unfolding offer register add_job send_on after_send
offered = refl

-- The worker was removed after it was picked: the send panics, and the handler is not heard of again.
send_panics : offer true "w" 0 (remove "w" holding_store) ≡ has_panicked
unfolding offer register add_job send_on remove after_send lookup insert
send_panics = refl

dispatchable : can_dispatch proxy free_server.store "llama" ≡ true
unfolding can_dispatch register insert has_label contains is_some pick_worker consider is_eligible
    has_capacity alias_score
dispatchable = refl
