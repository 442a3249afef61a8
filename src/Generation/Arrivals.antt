-- ===== src/Generation/Arrivals.antt =====
-- Every order in which requests arrive and wait in generation_proxy.go, while the worker registry
-- changes in any way.
use nfrx.Prelude.{Bool, [], none, refl, some, ℤ, ◌++◌, ◌∷◌, ◌≡◌, ap, sym, ◌∙◌}
use nfrx.Prelude.Dict.{lookup, insert}
use nfrx.Workers.Registry.{Store, new_store}
use nfrx.Workers.Steps.{Step as Change}
use nfrx.Completions.{enter, new_completion_queue, set_capacity}
use nfrx.Generation.Relay.{Writer}
use nfrx.Generation.Waiting.{
  entered, not_dispatched, enters_queue, in_loop, Station, advance, selects, Server, on_tick, Phase,
  Proxy, Request, Tick,
}
use nfrx.Generation.Queueing.{
  entered-IsBegun, advance-IsTicked, on_tick-IsTicked, waiting_items, IsTicked, insert-kept,
  kept_items, one_item, waiting_items-snoc,
}

abbrev pub new_server : ℤ → Server
new_server capacity = record {
  queue = new_completion_queue capacity;
  store = new_store;
  phases = [];
}

abbrev pub joined : Request → Server × Phase → Server
joined req (s, phase) = record s { phases = s.phases ++ (req.id, phase) ∷ [] }

abbrev pub moved : Request → Server × Phase → Server
moved req (s, phase) = record s { phases = insert req.id phase s.phases }

-- A step of one handler, from one section of its own to the next, or of anything else: the capacity
-- of the queue is set, or the worker registry changes, also by a handler before queue.Enter. What
-- such a handler was told by modelSupported may have changed since.
pub data Turn (p : Proxy) : Server → Server → Type 0 where
  enters :
      {s : Server} (supported : Bool) (req : Request) (w : Writer)
      → lookup req.id s.phases ≡ none
      → not_dispatched p supported w ≡ enters_queue
      → Turn p s (joined req (entered req w s (enter req.id req.model s.queue)))
  ticks :
      {s : Server} (tick : Tick) (req : Request) (w : Writer)
      → lookup req.id s.phases ≡ some (in_loop req w selects)
      → Turn p s (moved req (s, on_tick tick req w s))
  advances :
      {s : Server} (room : Bool) (req : Request) (w : Writer) (at_station : Station)
      → lookup req.id s.phases ≡ some (in_loop req w at_station)
      → Turn p s (moved req (advance p room req w at_station s))
  resized :
      {s : Server} (capacity : ℤ) → Turn p s (record s { queue = set_capacity capacity s.queue })
  changes :
      {s : Server} {store : Store} → Change s.store store → Turn p s (record s { store = store })

pub data Reached (p : Proxy) : Server → Type 0 where
  opens : (capacity : ℤ) → Reached p (new_server capacity)
  goes_on : {s t : Server} → Reached p s → Turn p s t → Reached p t

ticked :
    (req : Request) (w : Writer) (at_station : Station) (s t : Server) (phase : Phase)
    → lookup req.id s.phases ≡ some (in_loop req w at_station)
    → IsTicked req s t phase
    → s.queue.items ≡ waiting_items s.phases
    → t.queue.items ≡ waiting_items (insert req.id phase t.phases)
ticked req w at_station s t phase found b e =
    b.kept
    ∙ ap (kept_items req phase) (e ∙ ap waiting_items (sym b.same))
    ∙ sym (insert-kept req w at_station phase t.phases (ap (lookup req.id) b.same ∙ found) b.stays)

step_waiting :
    (p : Proxy) {s t : Server}
    → Turn p s t
    → s.queue.items ≡ waiting_items s.phases
    → t.queue.items ≡ waiting_items t.phases
unfolding set_capacity
step_waiting p (enters {s} supported req w fresh h) e =
    let n = entered req w s (enter req.id req.model s.queue) in
    let b = entered-IsBegun req w s in
    b.longer
    ∙ ap (λ items. items ++ one_item req.id n.1) (e ∙ ap waiting_items (sym b.same))
    ∙ sym (waiting_items-snoc n.0.phases req.id n.1)
step_waiting p (ticks {s} tick req w found) e =
    ticked req w selects s s (on_tick tick req w s) found (on_tick-IsTicked tick req w s) e
step_waiting p (advances {s} room req w at_station found) e =
    let n = advance p room req w at_station s in
    ticked req w at_station s n.0 n.1 found (advance-IsTicked p room req w at_station s) e
step_waiting p (resized {s} capacity) e = e
step_waiting p (changes {s} {store} c) e = e

-- In every order of the sections of the handlers and of changes of the worker registry, the queue has
-- exactly the requests of the handlers that have entered it and not called queue.Leave since, in the
-- order in which they entered: one that leaves the loop by an answer or to its worker has left the
-- queue, and one that panics in the loop, as it sends to a worker that is removed, stays in it.
pub queue_waiting : (p : Proxy) (s : Server) → Reached p s → s.queue.items ≡ waiting_items s.phases
unfolding new_completion_queue
queue_waiting p s (opens capacity) = refl
queue_waiting p s (goes_on r st) = step_waiting p st (queue_waiting p _ r)
