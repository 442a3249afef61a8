-- ===== src/Metrics/Types.antt =====
-- The state of metrics.go.
use nfrx.Prelude.{ℕ, Option, String, ℤ}
use nfrx.Prelude.Dict.{Dict}

-- `no_status` is the empty text.
pub data WorkerStatus : Type 0 where
  no_status : WorkerStatus
  status_connected : WorkerStatus
  status_working : WorkerStatus
  status_idle : WorkerStatus
  status_not_ready : WorkerStatus
  status_draining : WorkerStatus
  status_gone : WorkerStatus

pub record HostInfo : Type 0 where
  pub hostname : String
  pub os_name : String
  pub os_version : String
  pub worker_version : String
  pub backend_version : String
  pub backend_family : String

-- Times are numbers, percentages are in hundredths. A uint64 wraps; the int that counts the jobs in
-- flight does not get near its end.
pub record WorkerMetrics : Type 0 where
  pub id : String
  pub name : String
  pub status : WorkerStatus
  pub connected_at : ℕ
  pub last_heartbeat : ℕ
  pub version : String
  pub build_sha : String
  pub build_date : String
  pub host_info : HostInfo
  pub host_cpu_percent : ℕ
  pub host_ram_used_percent : ℕ
  pub input_tokens_total : ℕ
  pub output_tokens_total : ℕ
  pub max_concurrency : ℤ
  pub preferred_batch_size : ℤ
  pub processed_total : ℕ
  pub processing_ms_total : ℕ
  pub inflight : ℕ
  pub failures_total : ℕ
  pub queue_len : ℤ
  pub last_error : String

pub record MetricsRegistry : Type 0 where
  pub server_start : ℕ
  pub server_ver : String
  pub server_sha : String
  pub server_date : String
  pub jobs_inflight : ℕ
  pub jobs_completed_total : ℕ
  pub jobs_failed_total : ℕ
  pub scheduler_queue_len : ℤ
  pub scheduler_queue_capacity : ℤ
  pub workers : Dict WorkerMetrics
  pub state_func : Option String
