-- ===== src/ToolRelay/Examples.antt =====
-- A session of relay.go that is opened with the wrong token, its calls, and the theorems at it.
use nfrx.Prelude.{
  ℕ, occurrences, Bool, [], false, if◌then◌else◌, map, none, refl, some, true, ◌++◌, ◌<◌, ◌∷◌, ◌≡◌,
}
use nfrx.Prelude.Dict.{lookup}
use nfrx.Prelude.Text.{append, trim_space}
use nfrx.ToolRelay.{
  RelayClient, on_frame, Call, Frame, begin_rpc, frame, new_relay_client, on_close, run_frames,
}
use nfrx.ToolRelay.Tokens.{SameCalls, run_frames-SameCalls}
use nfrx.ToolRelay.Active.{active_of}
use nfrx.ToolRelay.Cancels.{close_cancels, Reach, begins, connects, gets, goes_on}
use nfrx.ToolRelay.Provider.{Exchange, call_provider, responded, result}
use nfrx.ToolRelay.Sse.{extract-join_lines, extract_first_sse_data, join_lines, sse_line}

abbrev opening : Frame
opening = record (frame "open" "s" "") { auth = "wrong" }

abbrev calling : Frame
calling = frame "rpc" "s" "{}"

abbrev refused : RelayClient
refused = record (new_relay_client "secret") {
  spawned = record { number = 0; sid = "s"; payload = "{}" } ∷ [];
  sent = record (frame "open.fail" "s" "") { code = "MCP_UNAUTHORIZED"; msg = "unauthorized" } ∷ [];
  next_call = 1;
}

refused_runs : run_frames (opening ∷ calling ∷ []) (new_relay_client "secret") ≡ refused
unfolding run_frames
refused_runs = refl

run_frames-SameCalls_example :
    SameCalls
      (run_frames (opening ∷ calling ∷ []) (new_relay_client "secret"))
      (run_frames (opening ∷ calling ∷ []) (new_relay_client "wrong"))
run_frames-SameCalls_example =
    run_frames-SameCalls (opening ∷ calling ∷ []) (new_relay_client "secret")
      (new_relay_client "wrong") (refl, refl)

abbrev one_call : Call
one_call = record { number = 0; sid = "s"; payload = "{}" }

abbrev other_call : Call
other_call = record { number = 1; sid = "s"; payload = "{}" }

abbrev called : RelayClient
called = begin_rpc true one_call (on_frame calling (new_relay_client ""))

called_reached : Reach "" called
unfolding on_frame active_of
called_reached = goes_on (goes_on connects (gets calling)) (begins true one_call refl)

close_cancels_example :
    ((n : ℕ)
      → active_of "s" called.active ≡ some n
      → 0 < occurrences n (on_close "s" called).canceled)
    × (active_of "s" called.active ≡ none → lookup "s" called.cancels ≡ none)
close_cancels_example = close_cancels "" "s" called called_reached

-- A provider that refuses to stream.
abbrev plain_only : ℕ → Bool → Exchange
plain_only attempt streaming =
    if streaming then responded 406 false "" none else responded 200 false "{}" none

plain_only_asked :
    call_provider plain_only true
    ≡ record { provided = result "{}"; allow = false; requests = true ∷ false ∷ [] }
unfolding call_provider
plain_only_asked = refl

sse_event :
    extract_first_sse_data
      (":hello" ∷ "event: message" ∷ "data: {" ∷ "data: }" ∷ "" ∷ "data: x" ∷ [])
    ≡ some "{\n}"
unfolding extract_first_sse_data append
sse_event = refl

extract-join_lines_example :
    extract_first_sse_data (map sse_line ("{" ∷ "}" ∷ []) ++ "" ∷ "data: x" ∷ [])
    ≡ some (join_lines ("{" ∷ "}" ∷ []))
unfolding trim_space
extract-join_lines_example =
    extract-join_lines "{" ("}" ∷ []) ("data: x" ∷ []) refl (refl, (refl, tt))
