-- ===== src/ToolRelay.antt =====
-- RelayClient in modules/mcp/agent/internal/mcp/relay.go: the frames that come in over the socket,
-- and the goroutines of handleRPC with the functions that cancel them. A call is a number; to
-- cancel it is to note its number.
use nfrx.Prelude.{
  ℕ, str_eq, Bool, List, String, [], if◌then◌else◌, ltb, none, not, occurrences, some, suc, ◌&&◌,
  ◌++◌, ◌==◌, ◌||◌, ◌∷◌,
}
use nfrx.Prelude.Dict.{Dict, lookup, insert, delete}
pub mod Provider
pub mod Sse
pub mod Active
pub mod Cancels
pub mod Tokens
mod Examples

-- The fields of mcpc.Frame that are read or set.
pub record Frame : Type 0 where
  pub kind : String
  pub sid : String
  pub payload : String
  pub code : String
  pub msg : String
  pub auth : String

abbrev pub frame : String → String → String → Frame
frame kind sid payload = record {
  kind = kind;
  sid = sid;
  payload = payload;
  code = "";
  msg = "";
  auth = "";
}

-- A goroutine of handleRPC.
pub record Call : Type 0 where
  pub number : ℕ
  pub sid : String
  pub payload : String

-- `spawned` have not come to their lock yet; `active` have set their entry of `cancels`.
pub record RelayClient : Type 0 where
  pub token : String
  pub cancels : Dict ℕ
  pub spawned : List Call
  pub active : List Call
  pub canceled : List ℕ
  pub sent : List Frame
  pub next_call : ℕ

abbrev pub new_relay_client : String → RelayClient
new_relay_client token = record {
  token = token;
  cancels = [];
  spawned = [];
  active = [];
  canceled = [];
  sent = [];
  next_call = 0;
}

unfoldable pub send : Frame → RelayClient → RelayClient
send f r = record r { sent = r.sent ++ f ∷ [] }

-- case "open": a token that is set must be the frame's
unfoldable pub on_open : Frame → RelayClient → RelayClient
unfolding send
on_open f r =
    if not (str_eq r.token "") && not (str_eq f.auth r.token)
    then send
        (record (frame "open.fail" f.sid "") { code = "MCP_UNAUTHORIZED"; msg = "unauthorized" }) r
    else send (frame "open.ok" f.sid "") r

-- case "rpc": go r.handleRPC(ctx, f)
unfoldable pub on_rpc : Frame → RelayClient → RelayClient
on_rpc f r = record r {
  spawned = r.spawned ++ record { number = r.next_call; sid = f.sid; payload = f.payload } ∷ [];
  next_call = suc r.next_call;
}

-- case "close": the call of this id is canceled, if there is one
unfoldable pub on_close : String → RelayClient → RelayClient
unfolding lookup delete
on_close sid r = elim (lookup sid r.cancels) [
  | some call ↦ record r { cancels = delete sid r.cancels; canceled = call ∷ r.canceled }
  | none ↦ r
]

-- One round of Run; other kinds are passed over.
unfoldable pub on_frame : Frame → RelayClient → RelayClient
unfolding on_open on_rpc on_close send
on_frame f r =
    if str_eq f.kind "open"
    then on_open f r
    else if str_eq f.kind "rpc"
    then on_rpc f r
    else if str_eq f.kind "close"
    then on_close f.sid r
    else if str_eq f.kind "ping"
    then send (frame "pong" "" "") r
    else r

unfoldable pub run_frames : List Frame → RelayClient → RelayClient
unfolding on_frame
run_frames [] r = r
run_frames (f ∷ fs) r = run_frames fs (on_frame f r)

-- The goroutines other than one.
unfoldable pub without : Call → List Call → List Call
without c [] = []
without c (d ∷ ds) =
    let rest = without c ds in if d.number == c.number && str_eq d.sid c.sid then rest else d ∷ rest

-- handleRPC up to its lock: a payload that cannot be read ends it, else it sets its entry.
unfoldable pub begin_rpc : Bool → Call → RelayClient → RelayClient
unfolding insert without
begin_rpc readable c r =
    if readable
    then record r {
      spawned = without c r.spawned;
      cancels = insert c.sid c.number r.cancels;
      active = c ∷ r.active;
    }
    else record r { spawned = without c r.spawned }

-- handleRPC once callProvider returns: a call that is canceled or out of time sends nothing.
unfoldable pub answer_rpc : Bool → String → Call → RelayClient → RelayClient
unfolding send
answer_rpc out_of_time response c r =
    if out_of_time || ltb 0 (occurrences c.number r.canceled)
    then r
    else send (record (frame "close" c.sid "") { msg = "done" })
        (send (frame "rpc" c.sid response) r)

-- The deferred function: cancel(); delete(r.cancels, f.SID)
unfoldable pub finish_rpc : Call → RelayClient → RelayClient
unfolding delete without
finish_rpc c r = record r {
  cancels = delete c.sid r.cancels;
  canceled = c.number ∷ r.canceled;
  active = without c r.active;
}
