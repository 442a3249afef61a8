-- ===== src/Metrics/Snapshot.antt =====
-- Snapshot of metrics.go.
use nfrx.Prelude.{ℕ, List, String, [], if◌then◌else◌, ltb, none, some, suc, ℤ, ◌++◌, ◌-◌, ◌∷◌}
use nfrx.Prelude.Dict.{Dict}
use nfrx.Metrics.Types.{
  HostInfo, WorkerMetrics, MetricsRegistry, WorkerStatus, status_connected, status_idle,
  status_not_ready, status_working,
}

pub record WorkerSnapshot : Type 0 where
  pub id : String
  pub name : String
  pub status : WorkerStatus
  pub connected_at : ℕ
  pub last_heartbeat : ℕ
  pub version : String
  pub build_sha : String
  pub build_date : String
  pub host_info : HostInfo
  pub host_cpu_percent : ℕ
  pub host_ram_used_percent : ℕ
  pub input_tokens_total : ℕ
  pub output_tokens_total : ℕ
  pub max_concurrency : ℤ
  pub preferred_batch_size : ℤ
  pub processed_total : ℕ
  pub processing_ms_total : ℕ
  pub avg_processing_ms : ℕ × ℕ
  pub inflight : ℕ
  pub failures_total : ℕ
  pub queue_len : ℤ
  pub last_error : String

pub record ServerSnapshot : Type 0 where
  pub now : ℕ
  pub version : String
  pub build_sha : String
  pub build_date : String
  pub state : String
  pub uptime_seconds : ℕ
  pub jobs_inflight : ℕ
  pub jobs_completed_total : ℕ
  pub jobs_failed_total : ℕ
  pub scheduler_queue_len : ℤ
  pub scheduler_queue_capacity : ℤ

pub record WorkersSummary : Type 0 where
  pub connected : ℕ
  pub working : ℕ
  pub idle : ℕ
  pub not_ready : ℕ
  pub gone : ℕ

-- The list of models stays empty.
pub record StateResponse : Type 0 where
  pub server : ServerSnapshot
  pub workers_summary : WorkersSummary
  pub workers : List WorkerSnapshot

-- One case of the switch on the status; a draining worker, and one that is gone, have none.
unfoldable pub count_status : WorkerStatus → WorkersSummary → WorkersSummary
count_status status_connected s = record s { connected = suc s.connected }
count_status status_working s = record s { working = suc s.working }
count_status status_idle s = record s { idle = suc s.idle }
count_status status_not_ready s = record s { not_ready = suc s.not_ready }
count_status other s = s

-- The quotient is given as the pair of its terms.
unfoldable pub snapshot_worker : WorkerMetrics → WorkerSnapshot
snapshot_worker w = record {
  id = w.id;
  name = w.name;
  status = w.status;
  connected_at = w.connected_at;
  last_heartbeat = w.last_heartbeat;
  version = w.version;
  build_sha = w.build_sha;
  build_date = w.build_date;
  host_info = w.host_info;
  host_cpu_percent = w.host_cpu_percent;
  host_ram_used_percent = w.host_ram_used_percent;
  input_tokens_total = w.input_tokens_total;
  output_tokens_total = w.output_tokens_total;
  max_concurrency = w.max_concurrency;
  preferred_batch_size = w.preferred_batch_size;
  processed_total = w.processed_total;
  processing_ms_total = w.processing_ms_total;
  avg_processing_ms =
      if ltb 0 w.processed_total then (w.processing_ms_total, w.processed_total) else (0, 1);
  inflight = w.inflight;
  failures_total = w.failures_total;
  queue_len = w.queue_len;
  last_error = w.last_error;
}

-- The loop over the workers, once they are sorted.
unfoldable pub snapshot_workers :
    List WorkerMetrics → WorkersSummary × List WorkerSnapshot → WorkersSummary × List WorkerSnapshot
unfolding count_status snapshot_worker
snapshot_workers [] (summary, shown) = (summary, shown)
snapshot_workers (w ∷ ws) (summary, shown) =
    snapshot_workers ws (count_status w.status summary, shown ++ snapshot_worker w ∷ [])

abbrev pub values {ℓ} : {V : Type ℓ} → Dict V → List V
values [] = []
values ((k, v) ∷ rest) = v ∷ values rest

abbrev pub no_workers : WorkersSummary
no_workers = record { connected = 0; working = 0; idle = 0; not_ready = 0; gone = 0 }

-- `sort` is sort.Slice by the time of connection; seconds are the unit of time.
unfoldable pub snapshot :
    (List WorkerMetrics → List WorkerMetrics) → ℕ → MetricsRegistry → StateResponse
unfolding snapshot_workers
snapshot sort now m =
    let shown = snapshot_workers (sort (values m.workers)) (no_workers, []) in
    record {
      server = record {
        now = now;
        version = m.server_ver;
        build_sha = m.server_sha;
        build_date = m.server_date;
        state = elim (m.state_func) [ some state ↦ state | none ↦ "" ];
        uptime_seconds = now - m.server_start;
        jobs_inflight = m.jobs_inflight;
        jobs_completed_total = m.jobs_completed_total;
        jobs_failed_total = m.jobs_failed_total;
        scheduler_queue_len = m.scheduler_queue_len;
        scheduler_queue_capacity = m.scheduler_queue_capacity;
      };
      workers_summary = shown.0;
      workers = shown.1;
    }
