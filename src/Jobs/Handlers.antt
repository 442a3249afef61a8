-- ===== src/Jobs/Handlers.antt =====
-- The HTTP handlers of registry.go, as sections under the registry's lock and their composition.
-- What a handler gets from outside is an argument: the decoded body, the id that uuid.NewString
-- returns, and one time for each reading of the clock.
use nfrx.Prelude.{Option, String, [], if◌then◌else◌, none, some, str_eq, true, ℕ, ◌++◌, ◌∷◌, ℤ}
use nfrx.Prelude.Dict.{insert, lookup}
use nfrx.Prelude.Text.{trim_space}
use nfrx.Jobs.Types.{
  ClaimResponse, Document, Job, JobError, JobView, Registry, TransferInfo, status_queued,
}
use nfrx.Jobs.Status.{is_terminal_status, set_job_status}
use nfrx.Jobs.Events.{publish, status_event}
use nfrx.Jobs.Queue.{snapshot}
use nfrx.Jobs.Timers.{cancel_job, clear_client_timer, start_client_timer_if_idle}

-- What json.Decoder.Decode gives: a body, io.EOF, or any other error.
pub data Decoded {ℓ} (A : Type ℓ) : Type ℓ where
  decoded : A → Decoded A
  eof malformed : Decoded A

pub record CreateJobRequest : Type 0 where
  pub priority : ℤ
  pub type : String
  pub metadata : Document
  pub worker_id : String
  pub worker_group : String

pub record StatusUpdateRequest : Type 0 where
  pub state : String
  pub progress : Document
  pub error : Option JobError

-- The payload of a response, with its status code beside it.
pub data Reply : Type 0 where
  error_reply : String → Reply
  created_reply : String → String → Reply
  status_reply : String → Reply
  view_reply : JobView → Reply
  claim_reply : ClaimResponse → Reply
  transfer_reply : TransferInfo → Reply
  no_content : Reply

abbrev pub Response : Type 0
Response = ℕ × Reply

-- job.Status, read when the response is written.
abbrev pub current_status : String → Registry → String
current_status id r = elim (lookup id r.jobs) [ none ↦ "" | some job ↦ job.status ]

-- r.signal()
unfoldable pub signal : Registry → Registry
signal r = record r { notify = true }

abbrev pub new_job : String → CreateJobRequest → ℕ → ℕ → Job
new_job id body created updated = record {
  id = id;
  type = body.type;
  status = status_queued;
  metadata = body.metadata;
  worker_id = trim_space body.worker_id;
  worker_group = trim_space body.worker_group;
  claimed_worker_id = "";
  claimed_worker_group = "";
  progress = none;
  error = none;
  payloads = none;
  results = none;
  created_at = created;
  claimed_at = 0;
  updated_at = updated;
}

unfoldable pub enqueue_job : Job → Registry → Registry
enqueue_job job r = record r { jobs = insert job.id job r.jobs; queue = r.queue ++ job.id ∷ [] }

create_job : String → CreateJobRequest → ℕ → ℕ → ℕ → Registry → Registry × Response
unfolding enqueue_job signal
create_job id body created updated timer r =
    let job = new_job id body created updated in
    let r' =
      signal
        (start_client_timer_if_idle id timer (publish id (status_event job) (enqueue_job job r))) in
    (r', (200, created_reply id (current_status id r')))

-- HandleCreateJob
unfoldable pub handle_create_job :
    String → Decoded CreateJobRequest → ℕ → ℕ → ℕ → Registry → Registry × Response
unfolding create_job
handle_create_job id eof created updated timer r = (r, (400, error_reply "invalid_request"))
handle_create_job id malformed created updated timer r = (r, (400, error_reply "invalid_request"))
handle_create_job id (decoded body) created updated timer r =
    if str_eq (trim_space body.type) ""
    then (r, (400, error_reply "missing_type"))
    else create_job id body created updated timer r

-- HandleGetJob
unfoldable pub handle_get_job : String → Registry → Response
handle_get_job id r = elim (snapshot id r) [
  | none ↦ (404, error_reply "not_found")
  | some (v, place) ↦ (200, view_reply (record v { queue_position = place }))
]

-- The section of HandleCancelJob under the lock, for a job that is there.
unfoldable pub cancel_section : String → ℕ → Job → Registry → Registry × Job
cancel_section id now job r =
    if is_terminal_status job.status then (r, job) else cancel_job id now job.error job r

-- HandleCancelJob
unfoldable pub handle_cancel_job : String → ℕ → Registry → Registry × Response
unfolding cancel_section
handle_cancel_job id now r = elim (lookup id r.jobs) [
  | none ↦ (r, (404, error_reply "not_found"))
  | some job ↦
      let (r', canceled) = cancel_section id now job r in
      (
        publish id (status_event canceled) (clear_client_timer id r'),
        (200, status_reply canceled.status),
      )
]

-- The first section of HandleStatusUpdate: the error with which it stops, if any.
unfoldable pub status_check : String → Registry → Option Response
status_check id r = elim (lookup id r.jobs) [
  | none ↦ some (404, error_reply "not_found")
  | some job ↦
      if is_terminal_status job.status then some (409, error_reply "invalid_state") else none
]

abbrev pub or_else {ℓ} : {A : Type ℓ} → Option A → Option A → Option A
or_else none b = b
or_else (some a) b = some a

apply_update : String → String → StatusUpdateRequest → ℕ → Job → Registry → Registry × Response
apply_update id state body now job r =
    if is_terminal_status job.status
    then (r, (409, error_reply "invalid_state"))
    else let (set, stats) = set_job_status job state now r.stats in
      let new = record set {
        progress = or_else body.progress set.progress;
        error = or_else body.error set.error;
      } in
      let r' = record r { jobs = insert id new r.jobs; stats = stats } in
      let r'' = if is_terminal_status state then clear_client_timer id r' else r' in
      let done = publish id (status_event new) r'' in
      (done, (200, status_reply (current_status id done)))

-- The rest of HandleStatusUpdate: it decodes, locks again and tests the job once more.
unfoldable pub status_commit :
    String → Decoded StatusUpdateRequest → ℕ → Registry → Registry × Response
unfolding apply_update
status_commit id eof now r = (r, (400, error_reply "invalid_request"))
status_commit id malformed now r = (r, (400, error_reply "invalid_request"))
status_commit id (decoded body) now r =
    let state = trim_space body.state in
    if str_eq state "" then (r, (400, error_reply "missing_state")) else elim (lookup id r.jobs) [
      | none ↦ (r, (404, error_reply "not_found"))
      | some job ↦ apply_update id state body now job r
    ]

-- HandleStatusUpdate, when nothing runs between its sections.
unfoldable pub handle_status_update :
    String → Decoded StatusUpdateRequest → ℕ → Registry → Registry × Response
unfolding status_check status_commit
handle_status_update id body now r = elim (status_check id r) [
  | some response ↦ (r, response)
  | none ↦ status_commit id body now r
]
