-- ===== src/Tunnel.antt =====
-- The relays of sdk/base/tunnel/registry.go: who may connect, and the calls that a relay has open.
use nfrx.Prelude.{
  ℕ, Option, String, [], if◌then◌else◌, none, pos, some, str_eq, ℤ, ◌&&◌, ◌+ℤ◌, ◌-ℤ◌, ◌==◌,
}
use nfrx.Prelude.Int.{ltb_ℤ, leb_ℤ}
use nfrx.Prelude.Dict.{Dict, lookup, insert, delete}
pub mod Sessions
pub mod Calls
pub mod Connect
pub mod Handler
pub mod Served
mod Examples

pub record SessionInfo : Type 0 where
  pub method : String
  pub start : ℕ

-- The channels of Pending are numbers. Methods is made in WSHandler, so it is never nil.
pub record Relay : Type 0 where
  pub pending : Dict ℕ
  pub inflight : ℤ
  pub last_seen : ℕ
  pub name : String
  pub id : String
  pub sessions : Dict SessionInfo
  pub methods : Dict ℤ

pub record Config : Type 0 where
  pub heartbeat : ℕ
  pub dead_after : ℕ
  pub max_concurrency_per_client : ℤ

-- New: the defaults, in nanoseconds
unfoldable pub with_defaults : Config → Config
with_defaults cfg = record {
  heartbeat = if cfg.heartbeat == 0 then 15000000000 else cfg.heartbeat;
  dead_after = if cfg.dead_after == 0 then 45000000000 else cfg.dead_after;
  max_concurrency_per_client = cfg.max_concurrency_per_client;
}

-- The section of WSHandler that adds a relay; `fresh_id` is what uuid.NewString returns. The result
-- is none for an id that is in use.
unfoldable pub connect : String → String → String → ℕ → Dict Relay → Option (Dict Relay)
connect id name fresh_id now relays =
    let id' = if str_eq id "" then fresh_id else id in
    elim (lookup id' relays) [
      | some rl ↦ none
      | none ↦ some (
          insert id'
            (record {
              pending = [];
              inflight = pos 0;
              last_seen = now;
              name = name;
              id = id';
              sessions = [];
              methods = [];
            })
            relays)
    ]

-- m[label] of a map of counts
unfoldable pub count_of : String → Dict ℤ → ℤ
count_of label methods = elim (lookup label methods) [ some n ↦ n | none ↦ pos 0 ]

-- The concurrency check of HTTPHandler and what follows it under the lock; none is the answer 429.
unfoldable pub begin_call : Config → String → String → ℕ → Relay → Option Relay
unfolding count_of
begin_call cfg sid label now rl =
    if ltb_ℤ (pos 0) cfg.max_concurrency_per_client
      && leb_ℤ cfg.max_concurrency_per_client rl.inflight
    then none
    else some (record rl {
      inflight = rl.inflight +ℤ pos 1;
      methods = insert label (count_of label rl.methods +ℤ pos 1) rl.methods;
      sessions = insert sid (record { method = label; start = now }) rl.sessions;
    })

-- Relay.Register, with the channel that it makes
unfoldable pub register_session : String → ℕ → Relay → Relay
register_session sid ch rl = record rl { pending = insert sid ch rl.pending }

-- Relay.Unregister
unfoldable pub unregister_session : String → Relay → Relay
unregister_session sid rl = record rl { pending = delete sid rl.pending }

-- The deferred section of HTTPHandler, behind Unregister.
unfoldable pub end_call : String → String → Relay → Relay
unfolding count_of
end_call sid label rl = record rl {
  inflight = rl.inflight -ℤ pos 1;
  methods = insert label (count_of label rl.methods -ℤ pos 1) rl.methods;
  sessions = delete sid rl.sessions;
}

-- The status of a client in Snapshot.
unfoldable pub client_status : Relay → String
client_status rl = if ltb_ℤ (pos 0) rl.inflight then "active" else "idle"
