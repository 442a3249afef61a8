-- ===== src/Bridge.antt =====
-- The bridge of modules/mcp/agent/internal/mcpbridge: the ids of idmap.go, and the calls that wait in
-- a session of bridge.go. Payloads are left out.
use nfrx.Prelude.{
  ℕ, Bool, List, Option, String, [], false, if◌then◌else◌, length, none, occurrences, pos, some,
  suc, true, ℤ, ◌%◌, ◌++◌, ◌+◌, ◌==◌, ◌^◌, ◌∷◌,
}
use nfrx.Prelude.Dict.{Dict, lookup, insert, delete}
use nfrx.Prelude.Int.{leb_ℤ}
use nfrx.Workers.Registry.{values, Outcome, done, panicked}
pub mod Ids
pub mod Calls
mod Examples

-- `next` wraps at 2^64; an id of JSON-RPC is its text.
pub record IdMapper : Type 0 where
  pub next : ℕ
  pub store : Dict String

abbrev pub new_id_mapper : IdMapper
new_id_mapper = record { next = 0; store = [] }

-- Alloc; `format` is strconv.FormatUint in base 10.
unfoldable pub alloc : (ℕ → String) → String → IdMapper → IdMapper × String
alloc format json_id m = (
  record { next = (m.next + 1) % 2 ^ 64; store = insert (format m.next) json_id m.store },
  format m.next,
)

unfoldable pub resolve : String → IdMapper → IdMapper × Option String
resolve corr_id m = elim (lookup corr_id m.store) [
  | some json_id ↦ (record m { store = delete corr_id m.store }, some json_id)
  | none ↦ (m, none)
]

-- A channel is a number: `closed` has those that were closed, `sending` those that the reader has
-- taken out of `pending` and will send on, `fresh` is the number of the next one.
pub record Session : Type 0 where
  pub id_map : IdMapper
  pub pending : Dict ℕ
  pub max_inflight : ℤ
  pub closed : List ℕ
  pub sending : List ℕ
  pub fresh : ℕ

abbrev pub new_session : ℤ → Session
new_session max_inflight = record {
  id_map = new_id_mapper;
  pending = [];
  max_inflight = max_inflight;
  closed = [];
  sending = [];
  fresh = 0;
}

unfoldable pub register_call : String → ℕ → Session → Session × Bool
register_call id ch s =
    if leb_ℤ s.max_inflight (pos (length s.pending))
    then (s, false)
    else (record s { pending = insert id ch s.pending }, true)

unfoldable pub unregister_call : String → Session → Session
unregister_call id s = elim (lookup id s.pending) [
  | some ch ↦ record s { pending = delete id s.pending; closed = ch ∷ s.closed }
  | none ↦ s
]

-- The first part of Forward: `none` is ErrBackpressure, `room` whether the queue of frames has room.
unfoldable pub after_register : Bool → String → Session × Bool → Session × Option String
unfolding unregister_call
after_register room id (s, true) = if room then (s, some id) else (unregister_call id s, none)
after_register room id (s, false) = (s, none)

unfoldable pub forward_begin : (ℕ → String) → Bool → String → Session → Session × Option String
unfolding alloc register_call after_register
forward_begin format room json_id s =
    let allocated = alloc format json_id s.id_map in
    after_register room allocated.1
      (register_call allocated.1 s.fresh (record s { id_map = allocated.0; fresh = suc s.fresh }))

-- The end of Forward, with a response or without one
unfoldable pub forward_end : String → Session → Session
unfolding unregister_call resolve
forward_end id s = let t = unregister_call id s in record t { id_map = (resolve id t.id_map).0 }

-- TypeResponse of readLoop, under the lock
unfoldable pub take_response : String → Session → Session
take_response id s = elim (lookup id s.pending) [
  | some ch ↦ record s { pending = delete id s.pending; sending = ch ∷ s.sending }
  | none ↦ s
]

-- p.ch <- f.Payload, behind the lock
unfoldable pub deliver : ℕ → Session → Outcome Session
deliver ch s = if occurrences ch s.closed == 0 then done s else panicked

-- The deferred function of readLoop
unfoldable pub close_pending : Session → Session
close_pending s = record s { pending = []; closed = values s.pending ++ s.closed }
