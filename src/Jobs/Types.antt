-- ===== src/Jobs/Types.antt =====
-- The data of server/internal/jobs/registry.go. A `*Job` is an entry of `jobs` under its id: the
-- code never deletes or replaces one. Times are nanoseconds from Go's zero time, which is 0, and a
-- `map[string]any` holds its values as JSON texts, with `none` for the nil map.
use nfrx.Prelude.{Bool, List, Option, String, [], false, pos, ℕ, ℤ, ◌*◌}
use nfrx.Prelude.Dict.{Dict}
use nfrx.Transfer

abbrev pub status_queued : String
status_queued = "queued"

abbrev pub status_claimed : String
status_claimed = "claimed"

abbrev pub status_awaiting_payload : String
status_awaiting_payload = "awaiting_payload"

abbrev pub status_running : String
status_running = "running"

abbrev pub status_awaiting_result : String
status_awaiting_result = "awaiting_result"

abbrev pub status_completed : String
status_completed = "completed"

abbrev pub status_failed : String
status_failed = "failed"

abbrev pub status_canceled : String
status_canceled = "canceled"

abbrev pub second : ℕ
second = 1_000_000_000

abbrev pub worker_active_window : ℕ
worker_active_window = 60 * second

abbrev pub worker_retention : ℕ
worker_retention = 600 * second

abbrev pub max_state_jobs : ℕ
max_state_jobs = 12

abbrev pub Document : Type 0
Document = Option (Dict String)

pub record JobError : Type 0 where
  pub code : String
  pub message : String

-- `expires_at` is the time itself, before it is formatted.
pub record TransferInfo : Type 0 where
  pub channel_id : String
  pub method : String
  pub url : String
  pub expires_at : ℕ
  pub key : String
  pub properties : Document

pub record Job : Type 0 where
  pub id : String
  pub type : String
  pub status : String
  pub metadata : Document
  pub worker_id : String
  pub worker_group : String
  pub claimed_worker_id : String
  pub claimed_worker_group : String
  pub progress : Document
  pub error : Option JobError
  pub payloads : Option (Dict TransferInfo)
  pub results : Option (Dict TransferInfo)
  pub created_at : ℕ
  pub claimed_at : ℕ
  pub updated_at : ℕ

pub record WorkerActivity : Type 0 where
  pub key : String
  pub worker_id : String
  pub worker_group : String
  pub last_seen_at : ℕ
  pub last_claim_at : ℕ
  pub last_claim_mode : String
  pub last_job_id : String
  pub types : List String
  pub stream_count : ℕ

-- The counters are uint64 and wrap; a total is a signed duration.
pub record JobStats : Type 0 where
  pub completed_jobs : ℕ
  pub failed_jobs : ℕ
  pub canceled_jobs : ℕ
  pub queue_wait_total : ℤ
  pub queue_wait_samples : ℕ
  pub service_total : ℤ
  pub service_samples : ℕ
  pub end_to_end_total : ℤ
  pub end_to_end_samples : ℕ
  pub last_completed_at : ℕ
  pub last_failed_at : ℕ
  pub last_canceled_at : ℕ

-- The times of a view are whole seconds, as RFC 3339 prints them.
pub record JobView : Type 0 where
  pub id : String
  pub type : String
  pub status : String
  pub metadata : Document
  pub worker_id : String
  pub worker_group : String
  pub claimed_worker_id : String
  pub claimed_worker_group : String
  pub progress : Document
  pub error : Option JobError
  pub payloads : Option (Dict TransferInfo)
  pub results : Option (Dict TransferInfo)
  pub queue_position : ℕ
  pub created_at : ℕ
  pub updated_at : ℕ

pub record ClaimResponse : Type 0 where
  pub job_id : String
  pub type : String
  pub metadata : Document
  pub worker_id : String
  pub worker_group : String
  pub claimed_worker_id : String
  pub claimed_worker_group : String

-- What `Event.Data` can hold: the cases that `shouldCloseAfter` tells apart, and those published.
pub data EventData : Type 0 where
  view_data : JobView → EventData
  view_pointer : Option JobView → EventData
  map_data : Dict String → EventData
  transfer_data : TransferInfo → EventData
  claim_data : ClaimResponse → EventData

pub record Event : Type 0 where
  pub type : String
  pub body : EventData

-- A channel of capacity 8 with what it holds, oldest first, and a number that identifies it.
pub record Subscriber : Type 0 where
  pub chan : ℕ
  pub buffer : List Event

-- `notify` says whether its channel of capacity 1 holds a token; a client timer is when it is due.
pub record Registry : Type 0 where
  pub jobs : Dict Job
  pub queue : List String
  pub notify : Bool
  pub subs : Dict (List Subscriber)
  pub transfer : Transfer.Registry
  pub sse_close_delay : ℤ
  pub client_ttl : ℤ
  pub client_timers : Dict ℕ
  pub workers : Dict WorkerActivity
  pub stats : JobStats

abbrev pub zero_stats : JobStats
zero_stats = record {
  completed_jobs = 0;
  failed_jobs = 0;
  canceled_jobs = 0;
  queue_wait_total = pos 0;
  queue_wait_samples = 0;
  service_total = pos 0;
  service_samples = 0;
  end_to_end_total = pos 0;
  end_to_end_samples = 0;
  last_completed_at = 0;
  last_failed_at = 0;
  last_canceled_at = 0;
}

unfoldable pub new_registry : Transfer.Registry → ℤ → ℤ → Registry
new_registry tr sse_close_delay client_ttl = record {
  jobs = [];
  queue = [];
  notify = false;
  subs = [];
  transfer = tr;
  sse_close_delay = sse_close_delay;
  client_ttl = client_ttl;
  client_timers = [];
  workers = [];
  stats = zero_stats;
}
