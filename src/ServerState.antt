-- ===== src/ServerState.antt =====
-- The state of the server in server/internal/serverstate/state.go.
use nfrx.Prelude.Dict.{Dict, insert, lookup}
use nfrx.Prelude.{Bool, Option, String, false, none, some, true}
pub mod Drain
mod Examples

pub record State : Type 0 where
  pub status : String
  pub draining : Bool

-- memoryStore; `none` is an atomic value that was never stored.
abbrev pub MemoryStore : Type 0
MemoryStore = Option State

abbrev pub new_memory_store : MemoryStore
new_memory_store = some (record { status = "not_ready"; draining = false })

unfoldable pub load : MemoryStore → State
load none = record { status = "unknown"; draining = false }
load (some st) = st

unfoldable pub store : State → MemoryStore → MemoryStore
store st m = some st

-- What SetState and StartDrain store, once they have loaded `st`. No lock is held from the load to the
-- store.
unfoldable pub set_status : String → State → State
set_status status st = record st { status = status }

unfoldable pub set_draining : State → State
set_draining st = record st { draining = true; status = "draining" }

-- SetState and StartDrain, when nothing comes in between
unfoldable pub set_state : String → MemoryStore → MemoryStore
unfolding load store set_status
set_state status m = store (set_status status (load m)) m

unfoldable pub start_drain : MemoryStore → MemoryStore
unfolding load store set_draining
start_drain m = store (set_draining (load m)) m

unfoldable pub get_state : MemoryStore → String
unfolding load
get_state m = (load m).status

unfoldable pub is_draining : MemoryStore → Bool
unfolding load
is_draining m = (load m).draining

-- Registry in server/internal/serverstate/registry.go: the elements of the plugins by their ids; an
-- element is what stands for its two functions.
abbrev pub Elements {ℓ} : Type ℓ → Type ℓ
Elements A = Dict A

-- Add: an element of the same id is replaced
unfoldable pub add_element {ℓ} : {A : Type ℓ} → String → A → Elements A → Elements A
unfolding insert
add_element id e entries = insert id e entries

-- Get
unfoldable pub get_element {ℓ} : {A : Type ℓ} → String → Elements A → Option A
unfolding lookup
get_element id entries = lookup id entries
