-- ===== src/Jobs/Status.antt =====
-- setJobStatusLocked and the tests on statuses in registry.go.
use nfrx.Prelude.{
  Bool, Option, String, if◌then◌else◌, ltb, none, not, some, str_eq, ℕ, ◌%◌, ◌&&◌, ◌+ℤ◌, ◌+◌, ◌==◌,
  ◌^◌, ◌||◌,
}
use nfrx.Prelude.Int.{sub_ℕ}
use nfrx.Jobs.Types.{
  Job, JobStats, status_awaiting_payload, status_awaiting_result, status_canceled, status_claimed,
  status_completed, status_failed, status_running,
}

unfoldable pub is_terminal_status : String → Bool
is_terminal_status s =
    str_eq s status_completed || str_eq s status_failed || str_eq s status_canceled

unfoldable pub can_request_transfer : String → Bool
can_request_transfer s =
    str_eq s status_claimed
    || str_eq s status_running
    || str_eq s status_awaiting_payload
    || str_eq s status_awaiting_result

abbrev pub u64 : ℕ → ℕ
u64 n = n % 2 ^ 64

-- The counters of one status; `none` is the `default` case, which returns.
count_terminal : String → ℕ → JobStats → Option JobStats
count_terminal status now s =
    if str_eq status status_completed
    then some (record s { completed_jobs = u64 (s.completed_jobs + 1); last_completed_at = now })
    else if str_eq status status_failed
    then some (record s { failed_jobs = u64 (s.failed_jobs + 1); last_failed_at = now })
    else if str_eq status status_canceled
    then some (record s { canceled_jobs = u64 (s.canceled_jobs + 1); last_canceled_at = now })
    else none

-- !t.IsZero() && !now.Before(t)
abbrev pub is_past : ℕ → ℕ → Bool
is_past now t = not (t == 0) && not (ltb now t)

add_end_to_end : Job → ℕ → JobStats → JobStats
add_end_to_end job now s =
    if is_past now job.created_at
    then record s {
      end_to_end_total = s.end_to_end_total +ℤ sub_ℕ now job.created_at;
      end_to_end_samples = u64 (s.end_to_end_samples + 1);
    }
    else s

add_waits : Job → String → ℕ → JobStats → JobStats
add_waits job status now s =
    if is_past now job.claimed_at
    then record s {
      queue_wait_total = s.queue_wait_total +ℤ sub_ℕ job.claimed_at job.created_at;
      queue_wait_samples = u64 (s.queue_wait_samples + 1);
      service_total = s.service_total +ℤ sub_ℕ now job.claimed_at;
      service_samples = u64 (s.service_samples + 1);
    }
    else if str_eq status status_canceled && is_past now job.created_at
    then record s {
      queue_wait_total = s.queue_wait_total +ℤ sub_ℕ now job.created_at;
      queue_wait_samples = u64 (s.queue_wait_samples + 1);
    }
    else s

unfoldable pub record_terminal : Job → String → ℕ → JobStats → JobStats
unfolding count_terminal add_end_to_end add_waits
record_terminal job status now s = elim (count_terminal status now s) [
  | none ↦ s
  | some counted ↦ add_waits job status now (add_end_to_end job now counted)
]

-- setJobStatusLocked, on the job and on the registry's statistics.
unfoldable pub set_job_status : Job → String → ℕ → JobStats → Job × JobStats
set_job_status job status now s =
    let claimed =
      if str_eq status status_claimed && job.claimed_at == 0 then now else job.claimed_at in
    let stats =
      if not (is_terminal_status job.status) && is_terminal_status status
      then record_terminal (record job { claimed_at = claimed }) status now s
      else s in
    (record job { claimed_at = claimed; status = status; updated_at = now }, stats)
