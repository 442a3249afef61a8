-- ===== src/Generation/Waiting.antt =====
-- The part of generation_proxy.go before the label PROXY: the sections of an attempt to dispatch a
-- request, the way into the queue, and the loop in which it waits there. Log lines and metrics are
-- left out.
use nfrx.Prelude.{
  ℕ, Bool, List, Option, String, [], false, if◌then◌else◌, ltb, none, not, some, true, ℤ, ◌&&◌,
  ◌||◌, ◌∷◌, negsuc, pos, ◌==◌,
}
use nfrx.Prelude.Dict.{Dict, lookup}
use nfrx.Alias.{alias_key}
use nfrx.Workers.{Worker, Score, pick_worker, has_alias, has_label}
use nfrx.Workers.Registry.{
  Store, at, Outcome, add_job, done, inc_in_flight, remove_job, send_on, panicked,
}
use nfrx.Completions.{CompletionQueue, leave, position, is_first_dispatchable}
use nfrx.Generation.Relay.{Writer, write, write_header}

-- queue != nil, opts.QueueSize, and what the scheduler was made with.
pub record Proxy : Type 0 where
  pub has_queue : Bool
  pub queue_size : ℤ
  pub score : String → Worker → Score
  pub min_score : Score

-- `is_told` tells whether the client wants a stream that can be flushed; `payload` is the text that
-- fmt.Sprintf makes of a position.
pub record Request : Type 0 where
  pub id : String
  pub model : String
  pub is_told : Bool
  pub payload : ℕ → String

-- Why a handler that is about to call queue.Leave leaves the loop.
pub data Exit : Type 0 where
  gone : Exit
  unsupported : Exit
  dispatched : ℕ → Exit

-- Between which two sections a handler in the loop is: at the select; in a retry, before each of
-- modelSupported, IsFirstDispatchable, PickWorker, AddJob, the send, and what follows the send;
-- before queue.Leave; and behind a panic, after which it does nothing more.
pub data Station : Type 0 where
  selects : Station
  retries : Station
  is_supported : Station
  is_foremost : Station
  has_picked : String → ℕ → Station
  has_job : String → ℕ → Station
  has_sent : String → ℕ → Station
  has_no_room : ℕ → Station
  leaves : Exit → Station
  has_panicked : Station

pub data Phase : Type 0 where
  in_loop : Request → Writer → Station → Phase
  answered : Writer → Phase
  proxied : ℕ → Writer → Phase

-- What the handlers share, and how far each of those is that have called queue.Enter, in the order
-- of these calls.
pub record Server : Type 0 where
  pub queue : CompletionQueue
  pub store : Store
  pub phases : Dict Phase

-- The workers in the map of the registry, in its order.
unfoldable pub registered : List Worker → Dict ℕ → List Worker
registered heap [] = []
registered heap ((id, ref) ∷ rest) =
    let others = registered heap rest in elim (at heap ref) [ some w ↦ w ∷ others | none ↦ others ]

-- Does some worker have the label, or a label with the alias?
unfoldable pub any_label : String → List Worker → Bool
any_label model [] = false
any_label model (w ∷ ws) = has_label model w || any_label model ws

unfoldable pub any_alias : String → List Worker → Bool
any_alias key [] = false
any_alias key (w ∷ ws) = has_alias key w.labels || any_alias key ws

-- modelSupported
unfoldable pub model_supported : String → List Worker → Bool
unfolding any_label any_alias
model_supported model ws =
    any_label model ws || elim (alias_key model) [ some key ↦ any_alias key ws | none ↦ false ]

-- sched.PickWorker(model)
unfoldable pub pick_for : Proxy → String → Store → Option Worker
unfolding registered
pick_for p model s =
    pick_worker (p.score model) p.min_score (λ w. w.in_flight) (registered s.heap s.workers)

-- PickWorker in tryDispatch; the worker that was picked is the one under its id.
unfoldable pub picked : Proxy → Request → Store → Station
unfolding pick_for
picked p req s = elim (pick_for p req.model s) [
  | some w ↦ elim (lookup w.id s.workers) [ some ref ↦ has_picked w.id ref | none ↦ selects ]
  | none ↦ selects
]

-- The select that sends the request if the channel has room. A send on a closed channel panics in a
-- select too.
unfoldable pub after_send : Bool → String → ℕ → Outcome Store → Station
after_send room id ref panicked = has_panicked
after_send true id ref (done t) = has_sent id ref
after_send false id ref (done t) = has_no_room ref

unfoldable pub offer : Bool → String → ℕ → Store → Station
unfolding after_send
offer room id ref s = elim (at s.heap ref) [
  | some v ↦ after_send room id ref (send_on v.send s)
  | none ↦ selects
]

-- http.Error(w, "no worker", 404)
unfoldable pub no_worker : Writer → Writer
no_worker w = write "no worker\n" (write_header 404 w)

unfoldable pub worker_busy : Writer → Writer
worker_busy w = write "{\"error\":\"worker_busy\"}" (write_header 503 w)

-- queueStatusWriter; a Content-Type is set exactly when the status was sent.
unfoldable pub queue_status_writer : String → Writer → Writer
queue_status_writer payload w =
    let begun : Writer = elim (w.status) [ none ↦ write_header 200 w | some sent ↦ w ] in
    write "\n\n" (write payload (write "data: " (write "event: nfrx.queue\n" begun)))

-- writeQueueStatus
unfoldable pub write_queue_status : Request → ℕ → Writer → Writer
unfolding queue_status_writer
write_queue_status req place w =
    if req.is_told then queue_status_writer (req.payload place) w else w

-- if pos, ok := queue.Enter(reqID, meta.Model); !ok { ... } else { ... }
unfoldable pub entered : Request → Writer → Server → CompletionQueue × ℕ × Bool → Server × Phase
unfolding worker_busy write_queue_status
entered req w s (queue, place, true) =
    (record s { queue = queue }, in_loop req (write_queue_status req place w) selects)
entered req w s (queue, place, false) = (record s { queue = queue }, answered (worker_busy w))

unfoldable pub is_zero : ℤ → Bool
is_zero (pos n) = n == 0
is_zero (negsuc n) = false

-- What follows a first attempt that has failed: an answer, or queue.Enter.
pub data Fallback : Type 0 where
  answers : Writer → Fallback
  enters_queue : Fallback

-- Up to queue.Enter, for what modelSupported has returned.
unfoldable pub not_dispatched : Proxy → Bool → Writer → Fallback
unfolding no_worker worker_busy is_zero
not_dispatched p supported w =
    if not p.has_queue || is_zero p.queue_size
    then answers (if not supported then no_worker w else worker_busy w)
    else if not supported
    then answers (no_worker w)
    else enters_queue

-- What the select of the loop meets.
pub data Tick : Type 0 where
  canceled : Tick
  retry : Tick
  status_due : Tick

unfoldable pub is_some {ℓ} : {A : Type ℓ} → Option A → Bool
is_some none = false
is_some (some a) = true

-- The function that is passed to IsFirstDispatchable.
unfoldable pub can_dispatch : Proxy → Store → String → Bool
unfolding model_supported pick_for
can_dispatch p s model =
    model_supported model (registered s.heap s.workers) && is_some (pick_for p model s)

unfoldable pub leave_queue : Request → Server → Server
leave_queue req s = record s { queue = leave req.id s.queue }

-- What the select of the loop does.
unfoldable pub on_tick : Tick → Request → Writer → Server → Phase
unfolding write_queue_status
on_tick canceled req w s = in_loop req w (leaves gone)
on_tick retry req w s = in_loop req w retries
on_tick status_due req w s =
    let place = position req.id s.queue in
    in_loop req (if ltb 0 place then write_queue_status req place w else w) selects

-- What follows queue.Leave.
unfoldable pub after_leave : Exit → Writer → Phase
unfolding no_worker
after_leave gone w = answered w
after_leave unsupported w = answered (no_worker w)
after_leave (dispatched ref) w = proxied ref w

-- One section of a handler in the loop that has left the select; other goroutines run between two of
-- them. What one call of modelSupported, IsFirstDispatchable or PickWorker reads of the registry is
-- read at one moment. `room` has whether the channel of the worker has room.
unfoldable pub advance : Proxy → Bool → Request → Writer → Station → Server → Server × Phase
unfolding model_supported can_dispatch picked offer leave_queue after_leave
advance p room req w selects s = (s, in_loop req w selects)
advance p room req w retries s =
    let supported = model_supported req.model (registered s.store.heap s.store.workers) in
    (s, in_loop req w (if not supported then leaves unsupported else is_supported))
advance p room req w is_supported s =
    let first = is_first_dispatchable req.id (can_dispatch p s.store) s.queue in
    (s, in_loop req w (if first then is_foremost else selects))
advance p room req w is_foremost s = (s, in_loop req w (picked p req s.store))
advance p room req w (has_picked id ref) s =
    (record s { store = add_job ref req.id s.store }, in_loop req w (has_job id ref))
advance p room req w (has_job id ref) s = (s, in_loop req w (offer room id ref s.store))
advance p room req w (has_sent id ref) s =
    (record s { store = inc_in_flight id s.store }, in_loop req w (leaves (dispatched ref)))
advance p room req w (has_no_room ref) s =
    (record s { store = remove_job ref req.id s.store }, in_loop req w selects)
advance p room req w (leaves exit) s = (leave_queue req s, after_leave exit w)
advance p room req w has_panicked s = (s, in_loop req w has_panicked)
