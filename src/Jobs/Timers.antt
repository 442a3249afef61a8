-- ===== src/Jobs/Timers.antt =====
-- The client timers of registry.go: a job whose client has gone is canceled after a while.
use nfrx.Prelude.{
  Bool, Option, String, [], false, if◌then◌else◌, none, pos, some, str_eq, true, ℕ, ◌+◌, ◌∷◌,
}
use nfrx.Prelude.Int.{pos_part, leb_ℤ}
use nfrx.Prelude.Dict.{delete, insert, lookup}
use nfrx.Jobs.Types.{Job, JobError, Registry, status_canceled, status_queued}
use nfrx.Jobs.Status.{is_terminal_status, set_job_status}
use nfrx.Jobs.Events.{publish, status_event, subscribers}
use nfrx.Jobs.Queue.{remove_first}

abbrev pub has_subscribers : String → Registry → Bool
has_subscribers id r = elim (subscribers id r.subs) [ [] ↦ false | s ∷ ss ↦ true ]

unfoldable pub clear_client_timer : String → Registry → Registry
clear_client_timer id r = elim (lookup id r.client_timers) [
  | none ↦ r
  | some due ↦ record r { client_timers = delete id r.client_timers }
]

unfoldable pub on_client_connect : String → Registry → Registry
unfolding clear_client_timer
on_client_connect id r = if leb_ℤ r.client_ttl (pos 0) then r else clear_client_timer id r

-- `now` is when time.AfterFunc starts the timer.
unfoldable pub start_client_timer_if_idle : String → ℕ → Registry → Registry
start_client_timer_if_idle id now r =
    if leb_ℤ r.client_ttl (pos 0)
    then r
    else if has_subscribers id r
    then r
    else elim (lookup id r.client_timers) [
      | some due ↦ r
      | none ↦ record r { client_timers = insert id (now + pos_part r.client_ttl) r.client_timers }
    ]

abbrev pub inactive_error : JobError
inactive_error = record { code = "client_inactive"; message = "client inactive" }

-- Cancel a job that is not terminal: out of the queue if it waits there, and its new record.
unfoldable pub cancel_job : String → ℕ → Option JobError → Job → Registry → Registry × Job
cancel_job id now error job r =
    let queue = if str_eq job.status status_queued then remove_first id r.queue else r.queue in
    let (set, stats) = set_job_status job status_canceled now r.stats in
    let canceled = record set { error = error } in
    (record r { queue = queue; jobs = insert id canceled r.jobs; stats = stats }, canceled)

expire_job : String → ℕ → Option Job → Registry → Registry
unfolding cancel_job
expire_job id now none r = r
expire_job id now (some job) r =
    if is_terminal_status job.status
    then r
    else let (r', canceled) = cancel_job id now (some inactive_error) job r in
      publish id (status_event canceled) r'

-- expireJobIfIdle, the callback of a timer that has fired.
unfoldable pub expire_job_if_idle : String → ℕ → Registry → Registry
unfolding expire_job
expire_job_if_idle id now r = if has_subscribers id r then r else elim (lookup id r.client_timers) [
  | none ↦ r
  | some due ↦
      let r' = record r { client_timers = delete id r.client_timers } in
      expire_job id now (lookup id r.jobs) r'
]
