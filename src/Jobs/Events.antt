-- ===== src/Jobs/Events.antt =====
-- Subscriptions, published events and the copies in them in registry.go.
use nfrx.Prelude.{
  Bool, List, Option, String, [], false, if◌then◌else◌, length, ltb, map, none, not, some, str_eq,
  ℕ, ◌++◌, ◌/◌, ◌==◌, ◌∷◌,
}
use nfrx.Prelude.Dict.{Dict, delete, insert, lookup}
use nfrx.Jobs.Types.{
  ClaimResponse, Document, Event, EventData, Job, JobError, JobView, Registry, Subscriber,
  TransferInfo, claim_data, map_data, second, transfer_data, view_data, view_pointer,
}
use nfrx.Jobs.Status.{is_terminal_status}

-- The loop of `copyMap` over the entries that are left.
copy_entries {ℓ} : {V : Type ℓ} → (V → V) → Dict V → Dict V → Dict V
copy_entries f [] dst = dst
copy_entries f ((k, v) ∷ src) dst = copy_entries f src (insert k (f v) dst)

unfoldable pub copy_map : Document → Document
unfolding copy_entries
copy_map none = none
copy_map (some src) = some (copy_entries (λ v. v) src [])

unfoldable pub copy_error : Option JobError → Option JobError
copy_error none = none
copy_error (some e) = some e

unfoldable pub copy_transfer : TransferInfo → TransferInfo
unfolding copy_map
copy_transfer info = record info { properties = copy_map info.properties }

unfoldable pub copy_transfers : Option (Dict TransferInfo) → Option (Dict TransferInfo)
unfolding copy_entries copy_transfer
copy_transfers none = none
copy_transfers (some src) = some (copy_entries copy_transfer src [])

-- Format(time.RFC3339) drops what is below a second.
abbrev pub rfc3339 : ℕ → ℕ
rfc3339 t = t / second

-- viewLocked; a job is never nil where it is called
unfoldable pub view : Job → JobView
unfolding copy_map copy_error copy_transfers
view job = record {
  id = job.id;
  type = job.type;
  status = job.status;
  metadata = copy_map job.metadata;
  worker_id = job.worker_id;
  worker_group = job.worker_group;
  claimed_worker_id = job.claimed_worker_id;
  claimed_worker_group = job.claimed_worker_group;
  progress = copy_map job.progress;
  error = copy_error job.error;
  payloads = copy_transfers job.payloads;
  results = copy_transfers job.results;
  queue_position = 0;
  created_at = rfc3339 job.created_at;
  updated_at = rfc3339 job.updated_at;
}

unfoldable pub claim_response : Job → ClaimResponse
unfolding copy_map
claim_response job = record {
  job_id = job.id;
  type = job.type;
  metadata = copy_map job.metadata;
  worker_id = job.worker_id;
  worker_group = job.worker_group;
  claimed_worker_id = job.claimed_worker_id;
  claimed_worker_group = job.claimed_worker_group;
}

abbrev pub status_event : Job → Event
status_event job = record { type = "status"; body = view_data (view job) }

-- The status that `shouldCloseAfter` finds in an event's data.
data_status : EventData → Option String
data_status (view_data v) = some v.status
data_status (view_pointer none) = none
data_status (view_pointer (some v)) = some v.status
data_status (map_data m) = lookup "status" m
data_status (transfer_data i) = none
data_status (claim_data c) = none

unfoldable pub should_close_after : Event → Bool
unfolding data_status
should_close_after ev =
    if not (str_eq ev.type "status")
    then false
    else elim (data_status ev.body) [ none ↦ false | some s ↦ is_terminal_status s ]

abbrev pub event_capacity : ℕ
event_capacity = 8

-- A send under `select` with a `default`: a full channel drops the event.
unfoldable pub offer : Event → Subscriber → Subscriber
offer ev sub =
    if ltb (length sub.buffer) event_capacity
    then record sub { buffer = sub.buffer ++ ev ∷ [] }
    else sub

-- r.subs[jobID], where a missing key reads as the nil map
abbrev pub subscribers : String → Dict (List Subscriber) → List Subscriber
subscribers id subs = elim (lookup id subs) [ none ↦ [] | some chans ↦ chans ]

unfoldable pub publish_to : String → Event → Dict (List Subscriber) → Dict (List Subscriber)
unfolding offer
publish_to id ev subs = elim (lookup id subs) [
  | none ↦ subs
  | some chans ↦ insert id (map (offer ev) chans) subs
]

-- publishLocked, and publish: a section of its own
unfoldable pub publish : String → Event → Registry → Registry
unfolding publish_to
publish id ev r = record r { subs = publish_to id ev r.subs }

unfoldable pub subscribe : String → ℕ → Registry → Registry
subscribe id chan r = record r {
  subs = insert id (subscribers id r.subs ++ record { chan = chan; buffer = [] } ∷ []) r.subs;
}

remove_chan : ℕ → List Subscriber → List Subscriber
remove_chan chan [] = []
remove_chan chan (s ∷ ss) =
    let rest = remove_chan chan ss in if s.chan == chan then rest else s ∷ rest

store_subs : String → List Subscriber → Dict (List Subscriber) → Dict (List Subscriber)
store_subs id [] subs = delete id subs
store_subs id (s ∷ ss) subs = insert id (s ∷ ss) subs

-- The channel is closed once it is out of the map.
unfoldable pub unsubscribe : String → ℕ → Registry → Registry
unfolding remove_chan store_subs
unsubscribe id chan r = elim (lookup id r.subs) [
  | none ↦ r
  | some chans ↦ record r { subs = store_subs id (remove_chan chan chans) r.subs }
]
