-- ===== src/Jobs/Terminal.antt =====
-- Terminal statuses in registry.go: where they are final, and the two ways in which a job that has
-- ended starts again.
use nfrx.Prelude.{
  ℕ, String, arith, eq_iff, false, if◌then◌else◌, inl, inr, some, str_eq, true, ◌≡◌, Bool-cases,
  List, Option, [], ap, contains, str_eq_refl, ◌++◌, ◌+◌, ◌∷◌, ◌⊎◌,
}
use nfrx.Prelude.Dict.{lookup, lookup-insert}
use nfrx.Jobs.Types.{
  Job, Registry, status_awaiting_payload, status_awaiting_result, status_canceled, status_claimed,
  status_completed, status_failed, status_queued, status_running, JobError,
}
use nfrx.Jobs.Status.{can_request_transfer, is_terminal_status}
use nfrx.Jobs.Queue.{claim_next, Claimant}
use nfrx.Jobs.Fifo.{claim_next_fifo, Claimed, claimed}
use nfrx.Jobs.Exact.{Exact, waits}
use nfrx.Jobs.Steps.{
  HasLeft, IsPermitted, Reach, Reach-Exact, Step, cancels, claims, creates, elsewhere, expire_cases,
  expires, here, next, requested, status_commit_cases, transfer_commit_writes, transfers, updated,
  updates,
}
use nfrx.Prelude.Text.{trim_space}
use nfrx.Jobs.Timers.{cancel_job, expire_job_if_idle, inactive_error}
use nfrx.Jobs.Handlers.{cancel_section, decoded, enqueue_job, status_commit}
use nfrx.Jobs.Transfers.{new_info, request_key, transfer_commit}

-- The tests on statuses, as the lists of the statuses that pass them.
pub is_terminal_cases :
    (s : String)
    → is_terminal_status s ≡ true
    → (s ≡ status_completed) ⊎ (s ≡ status_failed) ⊎ (s ≡ status_canceled)
unfolding is_terminal_status
is_terminal_cases s h =
    ground (arith, eq_iff s status_completed, eq_iff s status_failed, eq_iff s status_canceled)

can_request_cases :
    (s : String)
    → can_request_transfer s ≡ true
    → (s ≡ status_claimed)
      ⊎ (s ≡ status_running)
      ⊎ (s ≡ status_awaiting_payload)
      ⊎ (s ≡ status_awaiting_result)
unfolding can_request_transfer
can_request_cases s h = ground (
  arith,
  eq_iff s status_claimed,
  eq_iff s status_running,
  eq_iff s status_awaiting_payload,
  eq_iff s status_awaiting_result,
)

pub permitted-open : (s : String) → can_request_transfer s ≡ true → is_terminal_status s ≡ false
unfolding is_terminal_status
permitted-open s h = elim (can_request_cases s h) [
  | inl e ↦ rw e
  | inr (inl e) ↦ rw e
  | inr (inr (inl e)) ↦ rw e
  | inr (inr (inr e)) ↦ rw e
]

pub permitted-left : (s : String) → IsPermitted s → HasLeft s
permitted-left s h = elim (can_request_cases s h) [
  | inl e ↦ rw e
  | inr (inl e) ↦ rw e
  | inr (inr (inl e)) ↦ rw e
  | inr (inr (inr e)) ↦ rw e
]

pub queued-open : (s : String) → str_eq s status_queued ≡ true → is_terminal_status s ≡ false
unfolding is_terminal_status
queued-open s h = rw ((eq_iff s status_queued).0 h)

contains-middle :
    (before after : List String) (id : String) → contains (before ++ id ∷ after) id ≡ true
unfolding contains
contains-middle [] after id = rw (str_eq_refl id)
contains-middle (x ∷ before) after id = ground (arith, contains-middle before after id)

-- A section that rewrites one job, which is not terminal, leaves a terminal one as it was.
untouched :
    (r s : Registry) (id j : String) (old new job : Job)
    → lookup id r.jobs ≡ some old
    → is_terminal_status old.status ≡ false
    → ((k : String) → lookup k s.jobs ≡ (if str_eq id k then some new else lookup k r.jobs))
    → lookup j r.jobs ≡ some job
    → is_terminal_status job.status ≡ true
    → lookup j s.jobs ≡ some job
untouched r s id j old new job found going jobs here' ended =
    rw (jobs j) (ground (arith, eq_iff id j))

-- The job that a claim finds waits in the queue.
Claimed-waits :
    (c : Claimant) (now : ℕ) (r : Registry) (f : Claimed c now r)
    → Exact r
    → str_eq f.job.status status_queued ≡ true
unfolding waits
Claimed-waits c now r f v = ground (
  arith,
  v.exact f.id,
  contains-middle f.found.before f.found.after f.id,
  ap (λ q. contains q f.id) f.found.queue_split,
)

claim_next-final :
    (c : Claimant) (now : ℕ) (r : Registry) (j : String) (job : Job)
    → Exact r
    → lookup j r.jobs ≡ some job
    → is_terminal_status job.status ≡ true
    → lookup j (claim_next c now r).0.jobs ≡ some job
claim_next-final c now r j job v found ended = elim (claim_next_fifo c now r) [
  | inr (_, same) ↦ rw same found
  | inl f ↦
      untouched r (claim_next c now r).0 f.id j f.job (claimed c now f.job r.stats) job f.job_found
        (queued-open f.job.status (Claimed-waits c now r f v)) f.jobs_left found ended
]

cancel_job-jobs :
    (id : String) (now : ℕ) (e : Option JobError) (job : Job) (r : Registry) (k : String)
    → lookup k (cancel_job id now e job r).0.jobs
      ≡ (if str_eq id k then some (cancel_job id now e job r).1 else lookup k r.jobs)
unfolding cancel_job
cancel_job-jobs id now e job r k = lookup-insert id k _ r.jobs

cancel_section-final :
    (id : String) (now : ℕ) (old : Job) (r : Registry) (j : String) (job : Job)
    → lookup id r.jobs ≡ some old
    → lookup j r.jobs ≡ some job
    → is_terminal_status job.status ≡ true
    → lookup j (cancel_section id now old r).0.jobs ≡ some job
unfolding cancel_section
cancel_section-final id now old r j job found there ended =
    elim (Bool-cases (is_terminal_status old.status)) [
      | inl terminal ↦ rw terminal there
      | inr going ↦ rw going (
          untouched r (cancel_job id now old.error old r).0 id j old
            (cancel_job id now old.error old r).1 job found going
            (cancel_job-jobs id now old.error old r) there ended)
    ]

Step-final :
    {r s : Registry} (j : String) (job : Job)
    → Step IsPermitted r s
    → Exact r
    → lookup j r.jobs ≡ some job
    → is_terminal_status job.status ≡ true
    → lookup j s.jobs ≡ some job
unfolding enqueue_job
Step-final {r} j job (creates new queued fresh) v there ended =
    rw (lookup-insert new.id j new r.jobs) (ground (arith, eq_iff new.id j))
Step-final {r} j job (claims c now) v there ended = claim_next-final c now r j job v there ended
Step-final {r} j job (cancels id now old found) v there ended =
    cancel_section-final id now old r j job found there ended
Step-final {r} j job (expires id now) v there ended = elim (expire_cases id now r) [
  | inl (jobs, _) ↦ rw jobs there
  | inr (old, found, going, jobs, _) ↦
      untouched r (expire_job_if_idle id now r) id j old
        (cancel_job id now (some inactive_error) old r).1 job found going
        (λ k. rw jobs (cancel_job-jobs id now (some inactive_error) old r k)) there ended
]
Step-final {r} j job (updates id body now old found off off') v there ended =
    elim (status_commit_cases id body now old r found) [
      | inl same ↦ rw same there
      | inr (going, _, jobs) ↦
          untouched r (status_commit id (decoded body) now r).0 id j old
            (updated (trim_space body.state) body now old r.stats) job found going
            (λ k. rw jobs (lookup-insert id k _ r.jobs)) there ended
    ]
Step-final {r} j job (transfers dir id body channel_id created now old found p) v there ended =
    let (_, jobs) = transfer_commit_writes dir id body channel_id created now old r found in
    untouched r (transfer_commit dir id (decoded body) channel_id created now r).0 id j old
      (requested dir (request_key dir body)
        (new_info dir body channel_id (created + r.transfer.ttl)) now old r.stats)
      job found (permitted-open old.status p) (λ k. rw jobs (lookup-insert id k _ r.jobs)) there
      ended
Step-final {r} j job (elsewhere s jobs queue) v there ended = rw jobs there

-- A job that is completed, failed or canceled keeps its whole record in every order of the
-- handlers' sections and of fired timers, if workers report only on jobs that have left the queue
-- and never the status `queued`, and if the guard of a transfer request still passes when the
-- transfer is written.
pub Reach-final :
    {r s : Registry} (j : String) (job : Job)
    → Reach IsPermitted r s
    → Exact r
    → lookup j r.jobs ≡ some job
    → is_terminal_status job.status ≡ true
    → lookup j s.jobs ≡ some job
Reach-final j job here v there ended = there
Reach-final j job (next path step) v there ended =
    Step-final j job step (Reach-Exact permitted-left path v) (Reach-final j job path v there ended)
      ended
