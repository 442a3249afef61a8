-- ===== src/ServerState/Examples.antt =====
-- The theorem on the state of the server at a concrete input.
use nfrx.Prelude.{[], false, refl, true, ◌∷◌, ◌≡◌, some, String}
use nfrx.Prelude.Dict.{insert, lookup}
use nfrx.ServerState.{
  add_element, MemoryStore, start_drain, get_state, is_draining, load, new_memory_store, set_state,
  set_status, store, get_element, Elements,
}
use nfrx.ServerState.Drain.{drain_lasts, set_states}

abbrev ready : MemoryStore
ready = set_state "ready" new_memory_store

is_ready : is_draining ready ≡ false
unfolding is_draining set_state
is_ready = refl

drain_lasts_example :
    (is_draining (set_states ("ready" ∷ []) (start_drain ready)) ≡ true)
    × (is_draining (store (set_status "ready" (load ready)) (start_drain ready)) ≡ false)
    × (get_state (store (set_status "ready" (load ready)) (start_drain ready)) ≡ "ready")
drain_lasts_example = drain_lasts ("ready" ∷ []) "ready" ready is_ready

-- Of two elements with one id the later one is kept.
abbrev no_elements : Elements String
no_elements = []

replaced :
    get_element "llm" (add_element "llm" "new" (add_element "llm" "old" no_elements)) ≡ some "new"
unfolding get_element add_element insert lookup
replaced = refl
