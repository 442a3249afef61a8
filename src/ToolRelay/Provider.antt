-- ===== src/ToolRelay/Provider.antt =====
-- callProvider in modules/mcp/agent/internal/mcp/relay.go: the request to the provider, and the
-- second one without streaming where the first is refused with 406.
use nfrx.Prelude.{
  ℕ, Bool, List, Option, String, if◌then◌else◌, none, some, ◌==◌, ◌||◌, [], false, suc, true, zero,
  ◌&&◌, ◌∷◌, ◌≡◌, ◌⊎◌,
}
use nfrx.Prelude.Text.{trim_space}
use nfrx.ToolRelay.Sse.{has_prefix, strip_prefix}

-- What http.Client.Do and io.ReadAll make of a request; `event_stream` is whether the content type
-- has "text/event-stream", `event` what extractFirstSSEData finds.
pub data Exchange : Type 0 where
  unreachable : String → Exchange
  responded : ℕ → Bool → String → Option String → Exchange

pub data Provided : Type 0 where
  no_answer : String → Provided
  rejected_streaming : Provided
  result : String → Provided
  provider_error : ℕ → String → Provided

-- The preference after the call, and what each request accepted.
pub record CallResult : Type 0 where
  pub provided : Provided
  pub allow : Bool
  pub requests : List Bool

-- isSSEBody, and the payload that is handed on: that of the first event if there is one.
unfoldable pub payload_of : Bool → String → Option String → String
unfolding strip_prefix trim_space
payload_of event_stream body event =
    if event_stream || has_prefix "event:" (trim_space body)
    then elim event [ some payload ↦ payload | none ↦ body ]
    else body

unfoldable pub judge : ℕ → String → String → Provided
judge status body payload = if status == 200 then result payload else provider_error status body

-- So many attempts are left; `respond` has the number of the attempt and what it accepts.
unfoldable pub call_from : (ℕ → Bool → Exchange) → ℕ → ℕ → Bool → CallResult
unfolding payload_of judge
call_from respond zero attempt allow = record {
  provided = rejected_streaming;
  allow = allow;
  requests = [];
}
call_from respond (suc left) attempt allow = elim (respond attempt allow) [
  | unreachable message ↦ record {
    provided = no_answer message;
    allow = allow;
    requests = allow ∷ [];
  }
  | responded status event_stream body event ↦
      let again = call_from respond left (suc attempt) false in
      if status == 406 && allow
      then record {
        provided = again.provided;
        allow = again.allow;
        requests = allow ∷ again.requests;
      }
      else record {
        provided = judge status body (payload_of event_stream body event);
        allow = allow;
        requests = allow ∷ [];
      }
]

unfoldable pub call_provider : (ℕ → Bool → Exchange) → Bool → CallResult
unfolding call_from
call_provider respond allow = call_from respond 2 0 allow

-- One request as it was preferred, or two, of which the second does not stream.
abbrev pub AsksOnceOrTwice : Bool → CallResult → Type 0
AsksOnceOrTwice allow r =
    ((r.requests ≡ allow ∷ []) × (r.allow ≡ allow))
    ⊎ ((allow ≡ true) × (r.requests ≡ true ∷ false ∷ []) × (r.allow ≡ false))
