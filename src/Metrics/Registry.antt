-- ===== src/Metrics/Registry.antt =====
-- The operations of metrics.go that change its state.
use nfrx.Prelude.{
  ℕ, Bool, Option, String, [], if◌then◌else◌, ltb, none, pos, some, str_eq, suc, ℤ, ◌%◌, ◌+◌, ◌-◌,
  ◌==◌, ◌^◌,
}
use nfrx.Prelude.Dict.{Dict, lookup, insert, delete}
use nfrx.Metrics.Types.{
  HostInfo, WorkerMetrics, MetricsRegistry, WorkerStatus, no_status, status_connected,
}

-- A sum of type uint64
unfoldable pub add_uint64 : ℕ → ℕ → ℕ
add_uint64 a b = (a + b) % 2 ^ 64

abbrev pub new_metrics_registry : ℕ → String → String → String → Option String → MetricsRegistry
new_metrics_registry now version sha date state = record {
  server_start = now;
  server_ver = version;
  server_sha = sha;
  server_date = date;
  jobs_inflight = 0;
  jobs_completed_total = 0;
  jobs_failed_total = 0;
  scheduler_queue_len = pos 0;
  scheduler_queue_capacity = pos 0;
  workers = [];
  state_func = state;
}

-- &workerMetrics{id: id, connectedAt: time.Now()}
unfoldable pub new_worker : String → ℕ → WorkerMetrics
new_worker id now = record {
  id = id;
  name = "";
  status = no_status;
  connected_at = now;
  last_heartbeat = 0;
  version = "";
  build_sha = "";
  build_date = "";
  host_info = record {
    hostname = "";
    os_name = "";
    os_version = "";
    worker_version = "";
    backend_version = "";
    backend_family = "";
  };
  host_cpu_percent = 0;
  host_ram_used_percent = 0;
  input_tokens_total = 0;
  output_tokens_total = 0;
  max_concurrency = pos 0;
  preferred_batch_size = pos 0;
  processed_total = 0;
  processing_ms_total = 0;
  inflight = 0;
  failures_total = 0;
  queue_len = pos 0;
  last_error = "";
}

unfoldable pub or_connected : WorkerStatus → WorkerStatus
or_connected no_status = status_connected
or_connected known = known

-- w, ok := m.workers[id]; if !ok { ... }
unfoldable pub known_worker : String → ℕ → MetricsRegistry → WorkerMetrics
unfolding new_worker
known_worker id now m = elim (lookup id m.workers) [ some w ↦ w | none ↦ new_worker id now ]

-- UpsertWorker
unfoldable pub upsert_worker :
    String → String → String → String → String → ℤ → ℤ → ℕ → MetricsRegistry → MetricsRegistry
unfolding known_worker or_connected
upsert_worker id name version build_sha build_date max_concurrency batch now m =
    let w = known_worker id now m in
    let host : HostInfo = record w.host_info { worker_version = version } in
    record m {
      workers =
          insert id
            (record w {
              name = name;
              version = version;
              build_sha = build_sha;
              build_date = build_date;
              host_info = host;
              max_concurrency = max_concurrency;
              preferred_batch_size = batch;
              last_heartbeat = now;
              status = or_connected w.status;
            })
            m.workers;
    }

-- if w, ok := m.workers[id]; ok { ... }
unfoldable pub modify_worker :
    (WorkerMetrics → WorkerMetrics) → String → MetricsRegistry → MetricsRegistry
modify_worker f id m = elim (lookup id m.workers) [
  | some w ↦ record m { workers = insert id (f w) m.workers }
  | none ↦ m
]

-- if v, ok := agentConfig[key]; ok && v != "" { ... }
unfoldable pub config_or : String → Dict String → String → String
config_or key config old = elim (lookup key config) [
  | some v ↦ if str_eq v "" then old else v
  | none ↦ old
]

unfoldable pub merge_host_info : String → Dict String → HostInfo → HostInfo
unfolding config_or
merge_host_info version config host = record {
  hostname = config_or "hostname" config host.hostname;
  os_name = config_or "os_name" config host.os_name;
  os_version = config_or "os_version" config host.os_version;
  worker_version = version;
  backend_version = config_or "backend_version" config host.backend_version;
  backend_family = config_or "backend_family" config host.backend_family;
}

-- SetWorkerHostInfo; `none` is a nil map.
unfoldable pub set_worker_host_info :
    String → Option (Dict String) → MetricsRegistry → MetricsRegistry
unfolding modify_worker merge_host_info
set_worker_host_info id none m = m
set_worker_host_info id (some config) m =
    modify_worker (λ w. record w { host_info = merge_host_info w.version config w.host_info }) id m

unfoldable pub remove_worker : String → MetricsRegistry → MetricsRegistry
remove_worker id m = record m { workers = delete id m.workers }

unfoldable pub set_worker_status : String → WorkerStatus → MetricsRegistry → MetricsRegistry
unfolding modify_worker
set_worker_status id status = modify_worker (λ w. record w { status = status }) id

unfoldable pub update_worker : String → ℤ → ℤ → MetricsRegistry → MetricsRegistry
unfolding modify_worker
update_worker id max_concurrency batch =
    modify_worker
      (λ w. record w { max_concurrency = max_concurrency; preferred_batch_size = batch }) id

unfoldable pub record_heartbeat : String → ℕ → ℕ → ℕ → MetricsRegistry → MetricsRegistry
unfolding modify_worker
record_heartbeat id cpu ram now =
    modify_worker
      (λ w. record w { last_heartbeat = now; host_cpu_percent = cpu; host_ram_used_percent = ram })
      id

unfoldable pub record_job_start : String → MetricsRegistry → MetricsRegistry
unfolding modify_worker
record_job_start id m =
    let n = modify_worker (λ w. record w { inflight = suc w.inflight }) id m in
    record n { jobs_inflight = suc n.jobs_inflight }

-- What RecordJobEnd does to a worker. n - 1 is 0 for 0, as `if n > 0 { n-- }` leaves it.
unfoldable pub end_job : ℕ → Bool → String → WorkerMetrics → WorkerMetrics
unfolding add_uint64
end_job ms success message w = record w {
  inflight = if ltb 0 w.inflight then w.inflight - 1 else w.inflight;
  processed_total = add_uint64 w.processed_total 1;
  processing_ms_total = add_uint64 w.processing_ms_total ms;
  failures_total = if success then w.failures_total else add_uint64 w.failures_total 1;
  last_error = if success then w.last_error else message;
}

unfoldable pub record_job_end : String → ℕ → Bool → String → MetricsRegistry → MetricsRegistry
unfolding modify_worker end_job
record_job_end id ms success message m =
    let n = modify_worker (end_job ms success message) id m in
    record n {
      jobs_inflight = if ltb 0 n.jobs_inflight then n.jobs_inflight - 1 else n.jobs_inflight;
      jobs_completed_total =
          if success then add_uint64 n.jobs_completed_total 1 else n.jobs_completed_total;
      jobs_failed_total = if success then n.jobs_failed_total else add_uint64 n.jobs_failed_total 1;
    }

unfoldable pub set_worker_queue_len : String → ℤ → MetricsRegistry → MetricsRegistry
unfolding modify_worker
set_worker_queue_len id n = modify_worker (λ w. record w { queue_len = n }) id

unfoldable pub set_scheduler_queue_len : ℤ → MetricsRegistry → MetricsRegistry
set_scheduler_queue_len n m = record m { scheduler_queue_len = n }

unfoldable pub set_scheduler_queue_capacity : ℤ → MetricsRegistry → MetricsRegistry
set_scheduler_queue_capacity n m = record m { scheduler_queue_capacity = n }

unfoldable pub add_tokens : String → ℕ → WorkerMetrics → WorkerMetrics
unfolding add_uint64
add_tokens kind n w =
    if str_eq kind "in"
    then record w { input_tokens_total = add_uint64 w.input_tokens_total n }
    else if str_eq kind "out"
    then record w { output_tokens_total = add_uint64 w.output_tokens_total n }
    else w

unfoldable pub add_worker_tokens : String → String → ℕ → MetricsRegistry → MetricsRegistry
unfolding modify_worker add_tokens
add_worker_tokens id kind n m = if n == 0 then m else modify_worker (add_tokens kind n) id m
