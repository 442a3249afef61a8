-- ===== src/Jobs/Examples.antt =====
-- Small registries of registry.go, and the theorems at their states.
use nfrx.Prelude.Int.{leb_ℤ}
use nfrx.Jobs.Snapshot.{state_snapshot, latest_first, listed_view}
use nfrx.Jobs.Summary.{
  is_claimed, is_running, awaits, has_ended, tally, is_other, is_queued, state_snapshot-counts,
}
use nfrx.Jobs.Watch.{watch_ends, any_terminal, on_close_timer, start_watch, watch_events}
use nfrx.Jobs.Events.{status_event}
use nfrx.Prelude.{
  String, [], arith, contains, eq_iff, false, none, pos, refl, some, ◌∷◌, ◌≡◌, ◌⊎◌, count_if, ◌&&◌,
  ◌+◌, ◌||◌,
}
use nfrx.Transfer
use nfrx.Prelude.Dict.{lookup, insert}
use nfrx.Jobs.Status.{set_job_status, can_request_transfer, is_terminal_status}
use nfrx.Jobs.Types.{
  Job, Registry, status_canceled, status_completed, status_running, zero_stats, JobView,
}
use nfrx.Jobs.Events.{publish}
use nfrx.Jobs.Queue.{claim_next, Claimant, claim_scan, is_claimable}
use nfrx.Jobs.Handlers.{
  CreateJobRequest, StatusUpdateRequest, cancel_section, current_status, decoded, enqueue_job,
  handle_cancel_job, new_job, status_reply,
}
use nfrx.Jobs.Transfers.{
  transfer_commit, TransferRequest, payload_request, requested_status, transfer_check,
}
use nfrx.Jobs.Fifo.{claim_next_fifo, Claimed, Unclaimable}
use nfrx.Jobs.Exact.{Exact, waits}
use nfrx.Jobs.Steps.{IsPermitted, Reach, Reach-Exact, cancels, creates, here, next}
use nfrx.Jobs.Terminal.{Reach-final, permitted-left}
use nfrx.Jobs.Revival.{cancel_undone}

abbrev transfers : Transfer.Registry
transfers = record { channels = []; heap = []; ttl = 60_000_000_000 }

abbrev empty : Registry
empty = record {
  jobs = [];
  queue = [];
  notify = false;
  subs = [];
  transfer = transfers;
  sse_close_delay = pos 0;
  client_ttl = pos 30_000_000_000;
  client_timers = [];
  workers = [];
  stats = zero_stats;
}

abbrev request : String → CreateJobRequest
request worker = record {
  priority = pos 0;
  type = "asr";
  metadata = none;
  worker_id = worker;
  worker_group = "";
}

abbrev first_job : Job
first_job = record (new_job "a" (request "") 10 11) { worker_id = "w9"; worker_group = "" }

abbrev second_job : Job
second_job = record (new_job "b" (request "") 12 13) { worker_id = ""; worker_group = "" }

abbrev queued : Registry
queued = record empty { jobs = ("a", first_job) ∷ ("b", second_job) ∷ []; queue = "a" ∷ "b" ∷ [] }

abbrev worker : Claimant
worker = record { types = "asr" ∷ []; worker_id = "w1"; worker_group = "" }

empty-Exact : Exact empty
unfolding lookup contains waits
empty-Exact = record { distinct = tt; exact = λ id. refl; keyed = λ id job h. cc }

path_to_queued : {P : String → Type 0} → Reach P empty queued
unfolding enqueue_job lookup insert
path_to_queued = next (next here (creates first_job refl refl)) (creates second_job refl refl)

Reach-Exact_example : Exact queued
Reach-Exact_example = Reach-Exact permitted-left path_to_queued empty-Exact

claim_next_fifo_example :
    Claimed worker 20 queued
    ⊎ (Unclaimable queued.jobs worker queued.queue × (claim_next worker 20 queued ≡ (queued, none)))
claim_next_fifo_example = claim_next_fifo worker 20 queued

-- The first job is for another worker, so the second is handed out.
claim_passes_over : (claim_next worker 20 queued).0.queue ≡ "a" ∷ []
unfolding claim_next claim_scan is_claimable contains lookup insert set_job_status publish
claim_passes_over = refl

abbrev done_job : Job
done_job = record second_job { status = status_completed; updated_at = 30 }

abbrev done : Registry
done = record queued { jobs = ("a", first_job) ∷ ("b", done_job) ∷ []; queue = "a" ∷ [] }

done-Exact : Exact done
unfolding lookup contains waits
done-Exact = record {
  distinct = ground arith;
  exact = λ id. ground (arith, eq_iff "a" id, eq_iff "b" id);
  keyed = λ id job. ground (arith, eq_iff "a" id, eq_iff "b" id);
}

path_from_done : Reach IsPermitted done (cancel_section "b" 40 done_job done).0
unfolding lookup
path_from_done = next here (cancels "b" 40 done_job refl)

Reach-final_example : lookup "b" (cancel_section "b" 40 done_job done).0.jobs ≡ some done_job
unfolding lookup is_terminal_status
Reach-final_example = Reach-final "b" done_job path_from_done done-Exact refl refl

abbrev running_job : Job
running_job = record second_job { status = status_running; claimed_at = 20 }

abbrev running : Registry
running = record empty { jobs = ("b", running_job) ∷ [] }

abbrev plain_request : TransferRequest
plain_request = record { key = none; properties = none }

cancel_undone_example :
    let s = handle_cancel_job "b" 40 running in
    let t = transfer_commit payload_request "b" (decoded plain_request) "t1" 41 42 s.0 in
    (s.1 ≡ (200, status_reply status_canceled))
    × (t.1.0 ≡ 200)
    × (current_status "b" t.0 ≡ requested_status payload_request)
unfolding lookup transfer_check can_request_transfer
cancel_undone_example =
    cancel_undone payload_request "b" plain_request "t1" 41 40 42 running_job running refl refl

abbrev waiting : Registry
waiting = record empty { jobs = ("b", second_job) ∷ []; queue = "b" ∷ [] }

abbrev completed_report : StatusUpdateRequest
completed_report = record { state = "completed"; progress = none; error = none }

state_snapshot-counts_example :
    let c = (state_snapshot 40 done).1.job_counts in
    (c.total_jobs ≡ 2)
    × (c.queued_jobs ≡ count_if is_queued done.jobs)
    × (c.claimed_jobs ≡ count_if is_claimed done.jobs)
    × (c.running_jobs ≡ count_if is_running done.jobs)
    × (c.awaiting_transfers ≡ count_if awaits done.jobs)
    × (c.terminal_jobs ≡ count_if has_ended done.jobs)
    × (tally c + count_if is_other done.jobs ≡ 2)
state_snapshot-counts_example = state_snapshot-counts 40 done

-- The job that ended last comes first.
done_first : latest_first done.jobs ≡ ("b", done_job) ∷ ("a", first_job) ∷ []
unfolding latest_first
done_first = refl

-- A client that comes when the job has ended, and one that sees it end.
abbrev done_view : JobView
done_view = listed_view [] "b" done_job

watch_ends_example :
    let w = watch_events (pos 0) (status_event done_job ∷ []) (start_watch done_view) in
    ((w.closing || w.over) ≡ (leb_ℤ (pos 0) (pos 0) && any_terminal (status_event done_job ∷ [])))
    × ((on_close_timer w).over ≡ (w.closing || w.over))
watch_ends_example = watch_ends (pos 0) (status_event done_job ∷ []) done_view

too_late : (watch_events (pos 0) [] (start_watch done_view)).over ≡ false
unfolding watch_events start_watch
too_late = refl
