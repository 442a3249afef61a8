-- ===== src/Tunnel/Handler.antt =====
-- HTTPHandler and Snapshot in sdk/base/tunnel/registry.go. What the adapter says to each of its
-- hooks is an argument; HTTP is reduced to the answer, and the metrics to what is recorded.
use nfrx.Prelude.{
  ℕ, Bool, List, Option, String, [], false, if◌then◌else◌, none, some, str_eq, true, ◌∷◌, ℤ, ◌++◌,
  ◌-◌, ◌/◌,
}
use nfrx.Tunnel.{
  begin_call, Relay, Config, end_call, register_session, unregister_session, SessionInfo,
  client_status,
}
use nfrx.Prelude.Dict.{Dict}

-- What ValidateRequest says of a body.
pub data Validation : Type 0 where
  valid : String → Validation
  invalid : String → ℕ → String → Validation

-- Open and WaitOpen
pub data Hook : Type 0 where
  passed : Hook
  refused : String → ℕ → Hook

-- WaitResponse
pub data Response : Type 0 where
  payload : String → Response
  no_payload : String → ℕ → Response

pub record Script : Type 0 where
  pub opening : Hook
  pub opened : Hook
  pub sent : Bool
  pub response : Response

pub data Answer : Type 0 where
  plain_error : ℕ → Answer
  error_answer : ℕ → String → Answer
  empty_result : Answer
  result_body : String → Answer

-- What is recorded as complete (an error code, and whether it was a success), whether a start is
-- recorded, and the reasons that Close was given.
pub record Served : Type 0 where
  pub answer : Answer
  pub started : Bool
  pub completed : List (String × Bool)
  pub closes : List String

abbrev failed_with : Bool → List String → ℕ → String → Served
failed_with started closes status code = record {
  answer = error_answer status code;
  started = started;
  completed = (code, false) ∷ [];
  closes = closes;
}

abbrev answered_with : Answer → Served
answered_with answer = record {
  answer = answer;
  started = true;
  completed = ("", true) ∷ [];
  closes = "done" ∷ [];
}

-- From WaitResponse on
unfoldable pub finish_call : Response → Served
finish_call (no_payload code status) = failed_with true ("timeout" ∷ []) status code
finish_call (payload body) =
    if str_eq body "" then answered_with empty_result else answered_with (result_body body)

-- From Send on
unfoldable pub send_call : Script → Served
unfolding finish_call
send_call s =
    if s.sent
    then finish_call s.response
    else failed_with true ("relay_write_failed" ∷ []) 503 "PROVIDER_UNAVAILABLE"

unfoldable pub wait_open : Script → Hook → Served
unfolding send_call
wait_open s (refused code status) = failed_with false [] status code
wait_open s passed = send_call s

-- From Open on, once the session is registered
unfoldable pub serve : Script → Hook → Served
unfolding wait_open
serve s (refused code status) = failed_with false [] status code
serve s passed = wait_open s s.opened

pub record Handled : Type 0 where
  pub served : Served
  pub relay : Relay

abbrev turned_away : Answer → List (String × Bool) → Served
turned_away answer completed = record {
  answer = answer;
  started = false;
  completed = completed;
  closes = [];
}

-- What the handler leaves, with the deferred section, if nothing else changes the relay meanwhile.
unfoldable pub in_session : Config → Script → String → String → ℕ → ℕ → Relay → Handled
unfolding begin_call serve register_session unregister_session end_call
in_session cfg s sid label ch now rl = elim (begin_call cfg sid label now rl) [
  | none ↦ record {
    served = turned_away (error_answer 429 "LIMIT_EXCEEDED") (("LIMIT_EXCEEDED", false) ∷ []);
    relay = rl;
  }
  | some open_relay ↦ record {
    served = serve s s.opening;
    relay = end_call sid label (unregister_session sid (register_session sid ch open_relay));
  }
]

unfoldable pub validated : Config → Script → Validation → String → ℕ → ℕ → Relay → Handled
unfolding in_session
validated cfg s (valid label) sid ch now rl = in_session cfg s sid label ch now rl
validated cfg s (invalid label status code) sid ch now rl = record {
  served = turned_away (error_answer status code) ((code, false) ∷ []);
  relay = rl;
}

-- HTTPHandler before the relay is known, and with a body that cannot be read
unfoldable pub handle :
    Config → Bool → Option Validation → Script → String → ℕ → ℕ → Relay → Handled
unfolding validated
handle cfg true body s sid ch now rl = record {
  served = turned_away (plain_error 503) [];
  relay = rl;
}
handle cfg false none s sid ch now rl = record {
  served = turned_away (plain_error 400) [];
  relay = rl;
}
handle cfg false (some v) s sid ch now rl = validated cfg s v sid ch now rl

unfoldable pub relay_offline : Served
relay_offline = turned_away (error_answer 503 "PROVIDER_UNAVAILABLE") []

-- An answer that is not an error.
abbrev pub is_answer : Answer → Bool
is_answer (plain_error status) = false
is_answer (error_answer status code) = false
is_answer empty_result = true
is_answer (result_body body) = true

-- A client of Snapshot, with a copy of its counts.
pub record ClientSnapshot : Type 0 where
  pub id : String
  pub name : String
  pub client_state : String
  pub inflight : ℤ
  pub methods : Dict ℤ

-- The time of a session is from its start to `now`, in milliseconds.
pub record SessionSnapshot : Type 0 where
  pub id : String
  pub client_id : String
  pub method : String
  pub started_at : ℕ
  pub duration_ms : ℕ

abbrev session_snapshots : String → ℕ → Dict SessionInfo → List SessionSnapshot
session_snapshots client now [] = []
session_snapshots client now ((sid, s) ∷ sessions) =
    record {
      id = sid;
      client_id = client;
      method = s.method;
      started_at = s.start;
      duration_ms = (now - s.start) / 1_000_000;
    }
    ∷ session_snapshots client now sessions

-- Snapshot; the clock does not go back behind the start of a session.
unfoldable pub state_of : ℕ → Dict Relay → List ClientSnapshot × List SessionSnapshot
unfolding client_status
state_of now [] = ([], [])
state_of now ((id, rl) ∷ relays) =
    let rest = state_of now relays in
    (
      record {
        id = id;
        name = rl.name;
        client_state = client_status rl;
        inflight = rl.inflight;
        methods = rl.methods;
      }
          ∷ rest.0,
      session_snapshots id now rl.sessions ++ rest.1,
    )
