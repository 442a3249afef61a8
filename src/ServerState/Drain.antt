-- ===== src/ServerState/Drain.antt =====
-- Whether a drain of the server lasts.
use nfrx.Prelude.{List, String, [], false, refl, true, ◌∷◌, ◌≡◌}
use nfrx.ServerState.{
  MemoryStore, start_drain, get_state, is_draining, load, set_state, set_status, store,
}

-- Calls of SetState one after the other
abbrev pub set_states : List String → MemoryStore → MemoryStore
set_states [] m = m
set_states (status ∷ rest) m = set_states rest (set_state status m)

set_states-draining :
    (statuses : List String) (m : MemoryStore)
    → is_draining m ≡ true
    → is_draining (set_states statuses m) ≡ true
unfolding is_draining set_state
set_states-draining [] m h = h
set_states-draining (status ∷ rest) m h = set_states-draining rest (set_state status m) h

-- A drain lasts when the calls of SetState come one after the other behind it. It is lost, whatever
-- the state was, when a call of SetState loads the state before StartDrain and stores it afterwards,
-- and the state was not draining then.
pub drain_lasts :
    (statuses : List String) (status : String) (m : MemoryStore)
    → is_draining m ≡ false
    → (is_draining (set_states statuses (start_drain m)) ≡ true)
      × (is_draining (store (set_status status (load m)) (start_drain m)) ≡ false)
      × (get_state (store (set_status status (load m)) (start_drain m)) ≡ status)
unfolding is_draining start_drain get_state set_status
drain_lasts statuses status m h = (set_states-draining statuses (start_drain m) refl, h, refl)
