-- ===== src/Jobs/Revival.antt =====
-- How a job that has ended starts again in registry.go, and how one that waits is forgotten.
use nfrx.Prelude.{
  ℕ, String, arith, false, none, refl, some, str_eq_refl, ◌+◌, ◌≡◌, ap, true, ◌∙◌, List, ◌∷◌, inl,
  inr, str_eq,
}
use nfrx.Transfer
use nfrx.Prelude.Dict.{lookup, lookup-insert, insert}
use nfrx.Jobs.Status.{is_terminal_status}
use nfrx.Jobs.Types.{Job, JobStats, Registry, TransferInfo, status_canceled, status_claimed}
use nfrx.Jobs.Status.{set_job_status, is_terminal_status, can_request_transfer}
use nfrx.Jobs.Events.{publish}
use nfrx.Jobs.Timers.{cancel_job, clear_client_timer}
use nfrx.Jobs.Handlers.{
  cancel_section, decoded, handle_cancel_job, status_reply, transfer_reply, Response,
  current_status, StatusUpdateRequest, status_commit,
}
use nfrx.Jobs.Transfers.{
  transfer_commit, Direction, TransferRequest, new_info, payload_request, requested_status,
  result_request, transfer_check,
}
use nfrx.Jobs.Terminal.{permitted-open, is_terminal_cases}
use nfrx.Jobs.Steps.{requested, transfer_commit_writes, updated}
use nfrx.Prelude.Text.{trim_space}
use nfrx.Jobs.Queue.{Claimant, claim_next, is_claimable, claim_scan}
use nfrx.Jobs.Fifo.{claimed}

requested-status :
    (dir : Direction) (key : String) (info : TransferInfo) (now : ℕ) (job : Job) (stats : JobStats)
    → (requested dir key info now job stats).status ≡ requested_status dir
unfolding set_job_status
requested-status payload_request key info now job stats = refl
requested-status result_request key info now job stats = refl

jobs-handle_cancel_job :
    (id : String) (now : ℕ) (job : Job) (r : Registry)
    → lookup id r.jobs ≡ some job
    → is_terminal_status job.status ≡ false
    → (lookup id (handle_cancel_job id now r).0.jobs ≡ some (cancel_job id now job.error job r).1)
      × ((handle_cancel_job id now r).1 ≡ (200, status_reply status_canceled))
unfolding handle_cancel_job publish clear_client_timer cancel_section cancel_job set_job_status
jobs-handle_cancel_job id now job r found going =
    ground (arith, lookup-insert id id (cancel_job id now job.error job r).1 r.jobs, str_eq_refl id)

transfer_commit-reply :
    (dir : Direction) (id : String) (body : TransferRequest) (channel_id : String) (created now : ℕ)
    (job : Job) (r : Registry)
    → lookup id r.jobs ≡ some job
    → (transfer_commit dir id (decoded body) channel_id created now r).1
      ≡ (200, transfer_reply (new_info dir body channel_id (created + r.transfer.ttl)))
unfolding transfer_commit Transfer.create
transfer_commit-reply dir id body channel_id created now job r found = ground arith

check_passed :
    (id : String) (job : Job) (r : Registry)
    → lookup id r.jobs ≡ some job
    → transfer_check id r ≡ none
    → can_request_transfer job.status ≡ true
unfolding transfer_check
check_passed id job r found passed = ground arith

current_status-insert :
    (id : String) (job : Job) (s t : Registry)
    → t.jobs ≡ insert id job s.jobs
    → current_status id t ≡ job.status
current_status-insert id job s t jobs =
    rw (jobs, current_status) (rw (lookup-insert id id job s.jobs, str_eq_refl id))

-- A client's cancellation that comes between the guard of a transfer request and its second section
-- is undone: it answers 200 with `canceled`, and the request then answers 200 as well and leaves
-- the job in a status that awaits the transfer.
pub cancel_undone :
    (dir : Direction) (id : String) (body : TransferRequest) (channel_id : String)
    (created now later : ℕ) (job : Job) (r : Registry)
    → lookup id r.jobs ≡ some job
    → transfer_check id r ≡ none
    → let s = handle_cancel_job id now r in
      let t = transfer_commit dir id (decoded body) channel_id created later s.0 in
      (s.1 ≡ (200, status_reply status_canceled))
      × (t.1.0 ≡ 200)
      × (current_status id t.0 ≡ requested_status dir)
cancel_undone dir id body channel_id created now later job r found passed =
    let going = permitted-open job.status (check_passed id job r found passed) in
    let (canceled, reply) = jobs-handle_cancel_job id now job r found going in
    let s = (handle_cancel_job id now r).0 in
    let (_, jobs) =
      transfer_commit_writes dir id body channel_id created later
        (cancel_job id now job.error job r).1 s canceled in
    (
      reply,
      ap (λ (x : Response). x.0)
          (transfer_commit-reply dir id body channel_id created later _ s canceled),
      current_status-insert id _ s
            (transfer_commit dir id (decoded body) channel_id created later s).0 jobs
          ∙ requested-status dir _ _ later _ s.stats,
    )

status_commit_writes :
    (id : String) (body : StatusUpdateRequest) (now : ℕ) (job : Job) (r : Registry)
    → lookup id r.jobs ≡ some job
    → is_terminal_status job.status ≡ false
    → str_eq (trim_space body.state) "" ≡ false
    → let s = (status_commit id (decoded body) now r).0 in
      (s.queue ≡ r.queue)
      × (s.jobs ≡ insert id (updated (trim_space body.state) body now job r.stats) r.jobs)
unfolding status_commit publish clear_client_timer
status_commit_writes id body now job r found going some_state = (ground arith, ground arith)

terminal-ne-empty : (s : String) → is_terminal_status s ≡ true → str_eq s "" ≡ false
terminal-ne-empty s h = elim (is_terminal_cases s h) [
  | inl e ↦ rw e
  | inr (inl e) ↦ rw e
  | inr (inr e) ↦ rw e
]

-- A claim at the head of the queue.
claim_head :
    (c : Claimant) (now : ℕ) (id : String) (rest : List String) (job : Job) (s : Registry)
    → lookup id s.jobs ≡ some job
    → s.queue ≡ id ∷ rest
    → is_claimable s.jobs c id ≡ true
    → ((claim_next c now s).0.queue ≡ rest)
      × ((claim_next c now s).0.jobs ≡ insert id (claimed c now job s.stats) s.jobs)
unfolding claim_next claim_scan publish
claim_head c now id rest job s found head fits = (ground arith, ground arith)

claimed-status :
    (c : Claimant) (now : ℕ) (job : Job) (stats : JobStats)
    → (claimed c now job stats).status ≡ status_claimed
unfolding set_job_status
claimed-status c now job stats = refl

updated-claimable :
    (c : Claimant) (id : String) (state : String) (body : StatusUpdateRequest) (now : ℕ) (job : Job)
    (r s : Registry)
    → lookup id r.jobs ≡ some job
    → s.jobs ≡ insert id (updated state body now job r.stats) r.jobs
    → is_claimable s.jobs c id ≡ is_claimable r.jobs c id
unfolding is_claimable set_job_status
updated-claimable c id state body now job r s found jobs =
    let new = updated state body now job r.stats in
    let there : lookup id s.jobs ≡ some new =
      rw (jobs, lookup-insert id id new r.jobs, str_eq_refl id) in
    rw (there, is_claimable) (rw (found, is_claimable))

-- A report that a worker makes on a job that still waits in the queue, at its head: with any
-- terminal state the job keeps its place, and the next claim that fits hands it out as claimed.
pub report_undone :
    (id : String) (rest : List String) (body : StatusUpdateRequest) (now later : ℕ) (c : Claimant)
    (job : Job) (r : Registry)
    → lookup id r.jobs ≡ some job
    → is_terminal_status job.status ≡ false
    → r.queue ≡ id ∷ rest
    → is_claimable r.jobs c id ≡ true
    → is_terminal_status (trim_space body.state) ≡ true
    → let s = (status_commit id (decoded body) now r).0 in
      let t = claim_next c later s in
      (current_status id s ≡ trim_space body.state)
      × (s.queue ≡ r.queue)
      × (current_status id t.0 ≡ status_claimed)
      × (t.0.queue ≡ rest)
unfolding set_job_status
report_undone id rest body now later c job r found going head fits ended =
    let (queue, jobs) =
      status_commit_writes id body now job r found going (terminal-ne-empty _ ended) in
    let s = (status_commit id (decoded body) now r).0 in
    let new = updated (trim_space body.state) body now job r.stats in
    let there : lookup id s.jobs ≡ some new =
      rw (jobs, lookup-insert id id new r.jobs, str_eq_refl id) in
    let (left, claims_jobs) =
      claim_head c later id rest new s there (queue ∙ head)
        (updated-claimable c id (trim_space body.state) body now job r s found jobs ∙ fits) in
    (
      current_status-insert id new r s jobs,
      queue,
      current_status-insert id (claimed c later new s.stats) s (claim_next c later s).0 claims_jobs
          ∙ claimed-status c later new s.stats,
      left,
    )
