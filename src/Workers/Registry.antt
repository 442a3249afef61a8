-- ===== src/Workers/Registry.antt =====
-- The registry of sdk/base/worker/registry.go on a store, and what ws.go and its callers do to it.
-- Workers are shared by pointer: the registry, the connection and requests hold the same one.
use nfrx.Prelude.{
  ℕ, Bool, List, Option, String, [], get_elem?, if◌then◌else◌, length, ltb, none, some, suc, zero,
  ℤ, ◌++◌, ◌-◌, ◌∷◌, occurrences, ◌==◌,
}
use nfrx.Prelude.Int.{ltb_ℤ, sub_ℕ}
use nfrx.Prelude.Dict.{Dict, lookup, insert, delete}
use nfrx.Workers.{Worker}

-- `heap` has every worker that was made, a pointer is its place; `workers` is the map of the
-- registry; `closed` has the channels that were closed, the last first; `finishing`
-- those that a connection has taken out of a worker and will send on and close; `next` is the number of the
-- next channel.
pub record Store : Type 0 where
  pub heap : List Worker
  pub workers : Dict ℕ
  pub closed : List ℕ
  pub finishing : List ℕ
  pub next : ℕ

abbrev pub new_store : Store
new_store = record { heap = []; workers = []; closed = []; finishing = []; next = 0 }

abbrev pub at : List Worker → ℕ → Option Worker
at = get_elem?

-- A write through the pointer `ref`.
unfoldable pub modify : (Worker → Worker) → ℕ → List Worker → List Worker
modify f ref [] = []
modify f zero (w ∷ ws) = f w ∷ ws
modify f (suc ref) (w ∷ ws) = w ∷ modify f ref ws

abbrev pub modify_at : (Worker → Worker) → ℕ → Store → Store
modify_at f ref s = record s { heap = modify f ref s.heap }

-- What the registry does to the worker of an id, if it has one.
unfoldable pub modify_id : (Worker → Worker) → String → Store → Store
modify_id f id s = elim (lookup id s.workers) [ some ref ↦ modify_at f ref s | none ↦ s ]

-- The part of WSHandler that makes the worker and adds it; the pointer is the end of the heap.
unfoldable pub register : String → List String → ℤ → ℤ → ℕ → Store → Store
register id labels max_concurrency preferred_batch_size now s = record {
  heap =
      s.heap
      ++ record {
        id = id;
        labels = labels;
        max_concurrency = max_concurrency;
        preferred_batch_size = preferred_batch_size;
        in_flight = 0;
        last_heartbeat = now;
        send = s.next;
        jobs = [];
      }
        ∷ [];
  workers = insert id (length s.heap) s.workers;
  closed = s.closed;
  finishing = s.finishing;
  next = suc s.next;
}

abbrev pub values : Dict ℕ → List ℕ
values [] = []
values ((k, v) ∷ rest) = v ∷ values rest

-- The channels of its jobs are closed and taken out, then its own channel.
unfoldable pub shut_down : ℕ → Worker → Store → Store
shut_down ref w s = record s {
  heap = modify (λ u. record u { jobs = [] }) ref s.heap;
  closed = w.send ∷ values w.jobs ++ s.closed;
}

unfoldable pub evict : String → ℕ → Store → Store
unfolding shut_down
evict id ref s =
    let out = record s { workers = delete id s.workers } in
    elim (at s.heap ref) [ some w ↦ shut_down ref w out | none ↦ out ]

-- Registry.Remove
unfoldable pub remove : String → Store → Store
unfolding evict
remove id s = elim (lookup id s.workers) [ some ref ↦ evict id ref s | none ↦ s ]

-- time.Since(w.LastHeartbeat) > maxAge
unfoldable pub is_expired : ℕ → ℤ → Worker → Bool
is_expired now max_age w = ltb_ℤ max_age (sub_ℕ now w.last_heartbeat)

unfoldable pub prune_one : ℕ → ℤ → String → ℕ → Store → Store
unfolding evict is_expired
prune_one now max_age id ref s = elim (at s.heap ref) [
  | some w ↦ if is_expired now max_age w then evict id ref s else s
  | none ↦ s
]

-- The range visits the ids in order, and skips those that have left the map.
unfoldable pub prune_each : ℕ → ℤ → Dict ℕ → Store → Store
unfolding prune_one
prune_each now max_age [] s = s
prune_each now max_age ((id, old) ∷ rest) s =
    prune_each now max_age rest
      (elim (lookup id s.workers) [ some ref ↦ prune_one now max_age id ref s | none ↦ s ])

-- Registry.PruneExpired
unfoldable pub prune_expired : ℕ → ℤ → Store → Store
unfolding prune_each
prune_expired now max_age s = prune_each now max_age s.workers s

-- Registry.UpdateHeartbeat
unfoldable pub update_heartbeat : String → ℕ → Store → Store
unfolding modify_id
update_heartbeat id now = modify_id (λ w. record w { last_heartbeat = now }) id

-- Registry.UpdateLabels
unfoldable pub update_labels : String → List String → Store → Store
unfolding modify_id
update_labels id labels = modify_id (λ w. record w { labels = labels }) id

-- Registry.IncInFlight
unfoldable pub inc_in_flight : String → Store → Store
unfolding modify_id
inc_in_flight = modify_id (λ w. record w { in_flight = suc w.in_flight })

-- Registry.DecInFlight: the count of a worker without jobs stays at 0.
unfoldable pub dec_in_flight : String → Store → Store
unfolding modify_id
dec_in_flight =
    modify_id (λ w. if ltb 0 w.in_flight then record w { in_flight = w.in_flight - 1 } else w)

-- Worker.AddJob, with the channel that the caller has just made
unfoldable pub add_job : ℕ → String → Store → Store
unfolding modify
add_job ref job s = record s {
  heap = modify (λ w. record w { jobs = insert job s.next w.jobs }) ref s.heap;
  next = suc s.next;
}

unfoldable pub take_job : ℕ → String → Worker → Store → Store
unfolding modify
take_job ref job w s = elim (lookup job w.jobs) [
  | some ch ↦ record s {
    heap = modify (λ u. record u { jobs = delete job u.jobs }) ref s.heap;
    closed = ch ∷ s.closed;
  }
  | none ↦ s
]

-- Worker.RemoveJob: the channel is taken out and closed.
unfoldable pub remove_job : ℕ → String → Store → Store
unfolding take_job
remove_job ref job s = elim (at s.heap ref) [ some w ↦ take_job ref job w s | none ↦ s ]

unfoldable pub move_job : ℕ → String → Worker → Store → Store
unfolding modify
move_job ref job w s = elim (lookup job w.jobs) [
  | some ch ↦ record s {
    heap = modify (λ u. record u { jobs = delete job u.jobs }) ref s.heap;
    finishing = ch ∷ s.finishing;
  }
  | none ↦ s
]

-- job_result, job_error and http_proxy_response_end of ws.go, under the worker's lock: the channel
-- is taken out.
unfoldable pub take_out : ℕ → String → Store → Store
unfolding move_job
take_out ref job s = elim (at s.heap ref) [ some w ↦ move_job ref job w s | none ↦ s ]

-- What Go does with a send or a close of a channel: a closed one panics.
pub data Outcome {ℓ} (A : Type ℓ) : Type ℓ where
  done : A → Outcome A
  panicked : Outcome A

unfoldable pub send_on : ℕ → Store → Outcome Store
send_on ch s = if occurrences ch s.closed == 0 then done s else panicked

unfoldable pub close_channel : ℕ → Store → Outcome Store
close_channel ch s =
    if occurrences ch s.closed == 0 then done (record s { closed = ch ∷ s.closed }) else panicked

unfoldable pub and_then {ℓ κ} : {A : Type ℓ} {B : Type κ} → Outcome A → (A → Outcome B) → Outcome B
and_then (done a) f = f a
and_then panicked f = panicked

unfoldable pub remove_number : ℕ → List ℕ → List ℕ
remove_number c [] = []
remove_number c (d ∷ ds) = let rest = remove_number c ds in if d == c then ds else d ∷ rest

-- What follows the lock: ch <- m; close(ch)
unfoldable pub finish : ℕ → Store → Outcome Store
unfolding send_on close_channel and_then remove_number
finish ch s =
    and_then (send_on ch s)
      (λ t. close_channel ch (record t { finishing = remove_number ch t.finishing }))

-- job_chunk, http_proxy_response_headers and http_proxy_response_chunk of ws.go look the channel up
-- under the lock and send on it behind the lock, with `send_on`.
unfoldable pub find_job : ℕ → String → Store → Option ℕ
find_job ref job s = elim (at s.heap ref) [ some w ↦ lookup job w.jobs | none ↦ none ]

-- status_update of ws.go; `none` is a message without models.
unfoldable pub status_update : ℕ → ℤ → ℤ → Option (List String) → Store → Store
unfolding modify
status_update ref max_concurrency preferred_batch_size models =
    modify_at
      (λ w. record w {
        labels = elim models [ some labels ↦ labels | none ↦ w.labels ];
        max_concurrency = max_concurrency;
        preferred_batch_size = preferred_batch_size;
      })
      ref
