-- ===== src/Jobs/Snapshot.antt =====
-- StateSnapshot in registry.go: the summary of the registry, its workers and its latest jobs.
use Prim.Native.String.{compare}
use Prim.Native.Nat.{Ordering}
use nfrx.Prelude.{
  ℕ, ℤ, Bool, List, Option, String, [], if◌then◌else◌, leb, ltb, negsuc, none, not, pos, some,
  str_eq, suc, zero, ◌-◌, ◌/◌, ◌==◌, ◌||◌, ◌∷◌,
}
use nfrx.Prelude.Int.{sub_ℕ}
use nfrx.Prelude.Dict.{Dict}
use nfrx.Jobs.Types.{
  Registry, Job, JobStats, JobView, WorkerActivity, max_state_jobs, second, status_awaiting_payload,
  status_awaiting_result, status_claimed, status_queued, status_running, worker_active_window,
}
use nfrx.Jobs.Status.{is_terminal_status}
use nfrx.Jobs.Events.{rfc3339, view}
use nfrx.Jobs.Workers.{prune_workers}
use nfrx.Jobs.Queue.{position}

pub record WorkerActivityView : Type 0 where
  pub key : String
  pub worker_id : String
  pub worker_group : String
  pub last_seen_at : ℕ
  pub last_claim_at : Option ℕ
  pub last_claim_mode : String
  pub last_job_id : String
  pub types : List String
  pub stream_count : ℕ
  pub active : Bool

-- What the loop over the jobs counts.
pub record JobCounts : Type 0 where
  pub total_jobs : ℕ
  pub queued_jobs : ℕ
  pub claimed_jobs : ℕ
  pub running_jobs : ℕ
  pub awaiting_transfers : ℕ
  pub terminal_jobs : ℕ
  pub oldest_queued_seconds : ℕ
  pub oldest_inflight_seconds : ℕ

-- What the loop over the workers counts.
pub record WorkerCounts : Type 0 where
  pub active_workers : ℕ
  pub recent_workers : ℕ
  pub streaming_workers : ℕ

abbrev pub no_jobs : JobCounts
no_jobs = record {
  total_jobs = 0;
  queued_jobs = 0;
  claimed_jobs = 0;
  running_jobs = 0;
  awaiting_transfers = 0;
  terminal_jobs = 0;
  oldest_queued_seconds = 0;
  oldest_inflight_seconds = 0;
}

-- The division of Go, which cuts towards zero.
abbrev pub quot_ℤ : ℤ → ℕ → ℤ
quot_ℤ (pos n) k = pos (n / k)
quot_ℤ (negsuc n) k = sub_ℕ 0 (suc n / k)

-- averageDurationMS; the count is below 2^63.
unfoldable pub average_duration_ms : ℤ → ℕ → ℤ
average_duration_ms total count =
    if count == 0 then pos 0 else quot_ℤ (quot_ℤ total 1_000_000) count

unfoldable pub inflight_start : Job → ℕ
inflight_start job =
    if not (job.claimed_at == 0)
    then job.claimed_at
    else if not (job.updated_at == 0)
    then job.updated_at
    else job.created_at

unfoldable pub age_seconds : ℕ → ℕ → ℕ
age_seconds now ts = if ts == 0 || ltb now ts then 0 else (now - ts) / second

abbrev pub older : ℕ → ℕ → ℕ
older age oldest = if ltb oldest age then age else oldest

unfoldable pub is_awaiting : String → Bool
is_awaiting s = str_eq s status_awaiting_payload || str_eq s status_awaiting_result

-- The cases of the switch in the loop over the jobs; other statuses have none.
pub data Case : Type 0 where
  queued_case : Case
  claimed_case : Case
  running_case : Case
  awaiting_case : Case
  terminal_case : Case
  no_case : Case

unfoldable pub case_of : String → Case
unfolding is_terminal_status is_awaiting
case_of s =
    if str_eq s status_queued
    then queued_case
    else if str_eq s status_claimed
    then claimed_case
    else if str_eq s status_running
    then running_case
    else if is_awaiting s
    then awaiting_case
    else if is_terminal_status s
    then terminal_case
    else no_case

unfoldable pub count_case : ℕ → Job → JobCounts → Case → JobCounts
unfolding age_seconds inflight_start
count_case now job n queued_case = record n {
  queued_jobs = suc n.queued_jobs;
  oldest_queued_seconds = older (age_seconds now job.created_at) n.oldest_queued_seconds;
}
count_case now job n claimed_case = record n {
  claimed_jobs = suc n.claimed_jobs;
  oldest_inflight_seconds = older (age_seconds now (inflight_start job)) n.oldest_inflight_seconds;
}
count_case now job n running_case = record n {
  running_jobs = suc n.running_jobs;
  oldest_inflight_seconds = older (age_seconds now (inflight_start job)) n.oldest_inflight_seconds;
}
count_case now job n awaiting_case = record n {
  awaiting_transfers = suc n.awaiting_transfers;
  oldest_inflight_seconds = older (age_seconds now (inflight_start job)) n.oldest_inflight_seconds;
}
count_case now job n terminal_case = record n { terminal_jobs = suc n.terminal_jobs }
count_case now job n no_case = n

unfoldable pub count_job : ℕ → Job → JobCounts → JobCounts
unfolding case_of count_case
count_job now job n =
    count_case now job (record n { total_jobs = suc n.total_jobs }) (case_of job.status)

unfoldable pub count_jobs : ℕ → Dict Job → JobCounts → JobCounts
unfolding count_job
count_jobs now [] n = n
count_jobs now ((id, job) ∷ jobs) n = count_jobs now jobs (count_job now job n)

-- sort.Slice by UpdatedAt, the latest first; jobs of the same time stay as they were here.
unfoldable pub place_job : String → Job → Dict Job → Dict Job
place_job id job [] = (id, job) ∷ []
place_job id job ((k, v) ∷ rest) =
    if ltb job.updated_at v.updated_at
    then (k, v) ∷ place_job id job rest
    else (id, job) ∷ (k, v) ∷ rest

unfoldable pub latest_first : Dict Job → Dict Job
unfolding place_job
latest_first [] = []
latest_first ((id, job) ∷ jobs) = place_job id job (latest_first jobs)

-- The view of a listed job, with its place in the queue.
unfoldable pub listed_view : List String → String → Job → JobView
unfolding view position
listed_view queue id job = record (view job) {
  queue_position = if str_eq job.status status_queued then position id queue else 0;
}

-- At most so many jobs are listed.
unfoldable pub list_jobs : List String → ℕ → Dict Job → List JobView
unfolding listed_view
list_jobs queue zero jobs = []
list_jobs queue (suc room) [] = []
list_jobs queue (suc room) ((id, job) ∷ jobs) = listed_view queue id job ∷ list_jobs queue room jobs

-- now.Sub(w.LastSeenAt) <= workerActiveWindow
unfoldable pub is_active : ℕ → WorkerActivity → Bool
is_active now w = leb (now - w.last_seen_at) worker_active_window

unfoldable pub worker_view : ℕ → WorkerActivity → WorkerActivityView
unfolding is_active
worker_view now w = record {
  key = w.key;
  worker_id = w.worker_id;
  worker_group = w.worker_group;
  last_seen_at = rfc3339 w.last_seen_at;
  last_claim_at = if w.last_claim_at == 0 then none else some (rfc3339 w.last_claim_at);
  last_claim_mode = w.last_claim_mode;
  last_job_id = w.last_job_id;
  types = w.types;
  stream_count = w.stream_count;
  active = is_active now w;
}

-- sort.Strings on the keys of the map
place_worker : String → WorkerActivity → Dict WorkerActivity → Dict WorkerActivity
place_worker key w [] = (key, w) ∷ []
place_worker key w ((k, v) ∷ rest) = elim (compare k key) [
  | Ordering.lt ↦ (k, v) ∷ place_worker key w rest
  | _ ↦ (key, w) ∷ (k, v) ∷ rest
]

unfoldable pub by_key : Dict WorkerActivity → Dict WorkerActivity
unfolding place_worker
by_key [] = []
by_key ((key, w) ∷ ws) = place_worker key w (by_key ws)

unfoldable pub count_workers : ℕ → Dict WorkerActivity → WorkerCounts
unfolding is_active
count_workers now [] = record { active_workers = 0; recent_workers = 0; streaming_workers = 0 }
count_workers now ((key, w) ∷ ws) =
    let c = count_workers now ws in
    record {
      active_workers = if is_active now w then suc c.active_workers else c.active_workers;
      recent_workers = suc c.recent_workers;
      streaming_workers =
          if ltb 0 w.stream_count then suc c.streaming_workers else c.streaming_workers;
    }

unfoldable pub worker_views : ℕ → Dict WorkerActivity → List WorkerActivityView
unfolding worker_view
worker_views now [] = []
worker_views now ((key, w) ∷ ws) = worker_view now w ∷ worker_views now ws

pub record StateView : Type 0 where
  pub job_counts : JobCounts
  pub worker_counts : WorkerCounts
  pub stats : JobStats
  pub avg_queue_wait_ms : ℤ
  pub avg_service_ms : ℤ
  pub avg_end_to_end_ms : ℤ
  pub workers : List WorkerActivityView
  pub jobs : List JobView

-- StateSnapshot; the old workers are dropped from the registry on the way. The counters and the
-- times of the last ends are those of `stats`.
unfoldable pub state_snapshot : ℕ → Registry → Registry × StateView
unfolding prune_workers by_key count_workers worker_views latest_first count_jobs list_jobs
    average_duration_ms
state_snapshot now r =
    let kept = prune_workers now r.workers in
    let sorted = latest_first r.jobs in
    (
      record r { workers = kept },
      record {
        job_counts = count_jobs now sorted no_jobs;
        worker_counts = count_workers now (by_key kept);
        stats = r.stats;
        avg_queue_wait_ms = average_duration_ms r.stats.queue_wait_total r.stats.queue_wait_samples;
        avg_service_ms = average_duration_ms r.stats.service_total r.stats.service_samples;
        avg_end_to_end_ms = average_duration_ms r.stats.end_to_end_total r.stats.end_to_end_samples;
        workers = worker_views now (by_key kept);
        jobs = list_jobs r.queue max_state_jobs sorted;
      },
    )
