-- ===== src/Jobs/Steps.antt =====
-- Every order in which the handlers and timers of registry.go can run their locked sections.
use nfrx.Prelude.{
  String, arith, false, none, some, str_eq, true, ℕ, ◌+◌, ◌≡◌, ◌⊎◌, Bool-cases, inl, inr, refl,
}
use nfrx.Prelude.Dict.{insert, lookup}
use nfrx.Prelude.Text.{trim_space}
use nfrx.Transfer
use nfrx.Jobs.Types.{Job, JobStats, Registry, TransferInfo, status_queued}
use nfrx.Jobs.Status.{set_job_status, can_request_transfer, is_terminal_status}
use nfrx.Jobs.Events.{publish}
use nfrx.Jobs.Queue.{claim_next, Claimant}
use nfrx.Jobs.Timers.{clear_client_timer, expire_job_if_idle, cancel_job, inactive_error}
use nfrx.Jobs.Handlers.{
  status_commit, StatusUpdateRequest, cancel_section, decoded, enqueue_job, or_else,
}
use nfrx.Jobs.Transfers.{
  transfer_commit, Direction, TransferRequest, new_info, requested_status, store_info,
  payload_request, request_key, result_request,
}
use nfrx.Jobs.Exact.{Exact, cancel_job-Exact, claim_next-Exact, create-Exact, update-Exact}

-- The sections that write jobs or the queue. A worker reports on a job that has left the queue, and
-- not the status `queued`; a transfer is written into a job whose status then satisfies `P`;
-- `elsewhere` is any section on timers, subscribers, workers and transfers alone.
pub data Step (P : String → Type 0) (r : Registry) : Registry → Type 0 where
  creates :
      (job : Job)
      → job.status ≡ status_queued
      → lookup job.id r.jobs ≡ none
      → Step P r (enqueue_job job r)
  claims : (c : Claimant) (now : ℕ) → Step P r (claim_next c now r).0
  cancels :
      (id : String) (now : ℕ) (job : Job)
      → lookup id r.jobs ≡ some job
      → Step P r (cancel_section id now job r).0
  expires : (id : String) (now : ℕ) → Step P r (expire_job_if_idle id now r)
  updates :
      (id : String) (body : StatusUpdateRequest) (now : ℕ) (job : Job)
      → lookup id r.jobs ≡ some job
      → str_eq job.status status_queued ≡ false
      → str_eq (trim_space body.state) status_queued ≡ false
      → Step P r (status_commit id (decoded body) now r).0
  transfers :
      (dir : Direction) (id : String) (body : TransferRequest) (channel_id : String)
      (created now : ℕ) (job : Job)
      → lookup id r.jobs ≡ some job
      → P job.status
      → Step P r (transfer_commit dir id (decoded body) channel_id created now r).0
  elsewhere : (s : Registry) → s.jobs ≡ r.jobs → s.queue ≡ r.queue → Step P r s

pub data Reach (P : String → Type 0) (r : Registry) : Registry → Type 0 where
  here : Reach P r r
  next : {s t : Registry} → Reach P r s → Step P s t → Reach P r t

-- The status of a job that has left the queue, and one at which the guard lets a transfer through.
abbrev pub HasLeft : String → Type 0
HasLeft s = str_eq s status_queued ≡ false

abbrev pub IsPermitted : String → Type 0
IsPermitted s = can_request_transfer s ≡ true

-- What a report writes into the job, if the job is not terminal.
abbrev pub updated : String → StatusUpdateRequest → ℕ → Job → JobStats → Job
updated state body now job stats =
    let set = (set_job_status job state now stats).0 in
    record set {
      progress = or_else body.progress set.progress;
      error = or_else body.error set.error;
    }

pub status_commit_cases :
    (id : String) (body : StatusUpdateRequest) (now : ℕ) (job : Job) (r : Registry)
    → lookup id r.jobs ≡ some job
    → let s = (status_commit id (decoded body) now r).0 in
      (s ≡ r)
      ⊎ ((is_terminal_status job.status ≡ false)
          × (s.queue ≡ r.queue)
          × (s.jobs ≡ insert id (updated (trim_space body.state) body now job r.stats) r.jobs))
unfolding status_commit publish clear_client_timer
status_commit_cases id body now job r found =
    elim (Bool-cases (str_eq (trim_space body.state) "")) [
      | inl empty ↦ inl (rw empty)
      | inr some_state ↦ elim (Bool-cases (is_terminal_status job.status)) [
        | inl terminal ↦ inl (rw some_state (rw (found, status_commit) (rw terminal)))
        | inr open_job ↦ inr (open_job, ground arith, ground arith)
      ]
    ]

-- What a transfer writes into the job, whatever its status.
abbrev pub requested : Direction → String → TransferInfo → ℕ → Job → JobStats → Job
requested dir key info now job stats =
    (set_job_status (store_info dir key info job) (requested_status dir) now stats).0

pub transfer_commit_writes :
    (dir : Direction) (id : String) (body : TransferRequest) (channel_id : String) (created now : ℕ)
    (job : Job) (r : Registry)
    → lookup id r.jobs ≡ some job
    → let s = (transfer_commit dir id (decoded body) channel_id created now r).0 in
      let info = new_info dir body channel_id (created + r.transfer.ttl) in
      (s.queue ≡ r.queue)
      × (s.jobs ≡ insert id (requested dir info.key info now job r.stats) r.jobs)
unfolding transfer_commit publish Transfer.create
transfer_commit_writes dir id body channel_id created now job r found = (ground arith, ground arith)

same-Exact : (r s : Registry) → s.jobs ≡ r.jobs → s.queue ≡ r.queue → Exact r → Exact s
same-Exact r s jobs queue v = record {
  distinct = rw queue v.distinct;
  exact = λ id. rw (jobs, queue) (v.exact id);
  keyed = λ id job. rw jobs (v.keyed id job);
}

-- A timer that fires changes no job, or cancels one that is there and not terminal.
pub expire_cases :
    (id : String) (now : ℕ) (r : Registry)
    → let s = expire_job_if_idle id now r in
      ((s.jobs ≡ r.jobs) × (s.queue ≡ r.queue))
      ⊎ ((job : Job) × (lookup id r.jobs ≡ some job)
          × (is_terminal_status job.status ≡ false)
          × (s.jobs ≡ (cancel_job id now (some inactive_error) job r).0.jobs)
          × (s.queue ≡ (cancel_job id now (some inactive_error) job r).0.queue))
unfolding expire_job_if_idle publish cancel_job
expire_cases id now r = ground arith

cancel_section-Exact :
    (id : String) (now : ℕ) (job : Job) (r : Registry)
    → lookup id r.jobs ≡ some job
    → Exact r
    → Exact (cancel_section id now job r).0
unfolding cancel_section
cancel_section-Exact id now job r found v = elim (Bool-cases (is_terminal_status job.status)) [
  | inl terminal ↦ rw terminal v
  | inr open_job ↦ rw open_job (cancel_job-Exact id now job.error job r found v)
]

requested-left : (dir : Direction) → str_eq (requested_status dir) status_queued ≡ false
requested-left payload_request = refl
requested-left result_request = refl

transfer-Exact :
    (dir : Direction) (id : String) (body : TransferRequest) (channel_id : String) (created now : ℕ)
    (job : Job) (r : Registry)
    → lookup id r.jobs ≡ some job
    → HasLeft job.status
    → Exact r
    → Exact (transfer_commit dir id (decoded body) channel_id created now r).0
unfolding set_job_status
transfer-Exact dir id body channel_id created now job r found left v =
    let (queue, jobs) = transfer_commit_writes dir id body channel_id created now job r found in
    let info = new_info dir body channel_id (created + r.transfer.ttl) in
    update-Exact r _ id job (requested dir info.key info now job r.stats) found left (kept dir)
      (requested-left dir) queue jobs v
  where
    kept :
        (dir : Direction)
        → (requested dir
            (request_key dir body)
            (new_info dir body channel_id (created + r.transfer.ttl))
            now
            job
            r.stats).id
          ≡ job.id
    kept payload_request = refl
    kept result_request = refl

pub Step-Exact :
    {P : String → Type 0} {r s : Registry}
    → ((status : String) → P status → HasLeft status)
    → Step P r s
    → Exact r
    → Exact s
unfolding set_job_status
Step-Exact {P} {r} left (creates job queued fresh) v = create-Exact r job queued fresh v
Step-Exact {P} {r} left (claims c now) v = claim_next-Exact c now r v
Step-Exact {P} {r} left (cancels id now job found) v = cancel_section-Exact id now job r found v
Step-Exact {P} {r} left (expires id now) v = elim (expire_cases id now r) [
  | inl (jobs, queue) ↦ same-Exact r _ jobs queue v
  | inr (job, found, _, jobs, queue) ↦
      same-Exact (cancel_job id now (some inactive_error) job r).0 _ jobs queue
        (cancel_job-Exact id now (some inactive_error) job r found v)
]
Step-Exact {P} {r} left (updates id body now job found off off') v =
    elim (status_commit_cases id body now job r found) [
      | inl same ↦ rw same v
      | inr (_, queue, jobs) ↦
          update-Exact r _ id job (updated (trim_space body.state) body now job r.stats) found off
            refl off' queue jobs v
    ]
Step-Exact {P} {r} left (transfers dir id body channel_id created now job found p) v =
    transfer-Exact dir id body channel_id created now job r found (left job.status p) v
Step-Exact {P} {r} left (elsewhere s jobs queue) v = same-Exact r s jobs queue v

-- In every order of the handlers' sections and of fired timers, as long as workers report only on
-- jobs that have left the queue and never the status `queued`, and transfers are written into such
-- jobs only: the queue has no id twice and holds exactly the jobs whose status is `queued`.
pub Reach-Exact :
    {P : String → Type 0} {r s : Registry}
    → ((status : String) → P status → HasLeft status)
    → Reach P r s
    → Exact r
    → Exact s
Reach-Exact left here v = v
Reach-Exact left (next path step) v = Step-Exact left step (Reach-Exact left path v)
