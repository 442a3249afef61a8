-- ===== src/Jobs/Exact.antt =====
-- The queue of registry.go against the statuses of the jobs.
use nfrx.Prelude.{
  Bool, IsDistinct, List, Option, String, [], arith, contains, eq_iff, false, if◌then◌else◌, none,
  refl, some, str_eq, str_eq_refl, true, ◌++◌, ◌∷◌, ◌≡◌, IsDistinct-snoc, ap, contains-append, inl,
  inr, sym, ℕ, ◌∙◌,
}
use nfrx.Prelude.Dict.{Dict, lookup, insert, lookup-insert}
use nfrx.Jobs.Status.{set_job_status}
use nfrx.Jobs.Timers.{cancel_job}
use nfrx.Jobs.Handlers.{enqueue_job}
use nfrx.Jobs.Types.{Job, Registry, status_queued, JobError}
use nfrx.Jobs.Queue.{Claimant, is_claimable, remove_first, claim_next}
use nfrx.Jobs.Fifo.{Unclaimable, claim_next_fifo, claimed}

-- Whether a status is `queued`, and whether a job has that status.
unfoldable pub waits : Option Job → Bool
waits none = false
waits (some job) = str_eq job.status status_queued

-- The queue has no id twice, holds exactly the jobs whose status is `queued`, and a job stands
-- under its own id.
pub record Exact (r : Registry) : Type 0 where
  pub distinct : IsDistinct r.queue
  pub exact : (id : String) → contains r.queue id ≡ waits (lookup id r.jobs)
  pub keyed : (id : String) (job : Job) → lookup id r.jobs ≡ some job → job.id ≡ id

pub contains-remove_first :
    (id j : String) (queue : List String)
    → IsDistinct queue
    → contains (remove_first id queue) j ≡ (if str_eq id j then false else contains queue j)
unfolding contains remove_first
contains-remove_first id j [] d = ground arith
contains-remove_first id j (x ∷ queue) d =
    ground (arith, contains-remove_first id j queue d.1, eq_iff x id, eq_iff x j, eq_iff id j)

remove_first-IsDistinct :
    (id : String) (queue : List String) → IsDistinct queue → IsDistinct (remove_first id queue)
unfolding contains remove_first
remove_first-IsDistinct id [] d = tt
remove_first-IsDistinct id (x ∷ queue) d =
    ground (arith, remove_first-IsDistinct id queue d.1, contains-remove_first id x queue d.1)

-- What a claim leaves is the queue without the entry that it found.
rest-eq-remove_first :
    (jobs : Dict Job) (c : Claimant) (before after : List String) (id : String)
    → Unclaimable jobs c before
    → is_claimable jobs c id ≡ true
    → before ++ after ≡ remove_first id (before ++ id ∷ after)
unfolding remove_first
rest-eq-remove_first jobs c [] after id p h = rw (str_eq_refl id)
rest-eq-remove_first jobs c (x ∷ before) after id p h =
    ground (arith, eq_iff x id, rest-eq-remove_first jobs c before after id p.1 h)

-- Taking a job out of the queue and giving it another status, or changing a job off the queue.
leave-Exact :
    (r s : Registry) (id : String) (new : Job)
    → Exact r
    → new.id ≡ id
    → str_eq new.status status_queued ≡ false
    → s.queue ≡ remove_first id r.queue
    → ((j : String) → lookup j s.jobs ≡ (if str_eq id j then some new else lookup j r.jobs))
    → Exact s
unfolding waits
leave-Exact r s id new v same off q jobs = record {
  distinct = rw q (remove_first-IsDistinct id r.queue v.distinct);
  exact = λ j.
      rw (q, contains-remove_first id j r.queue v.distinct, jobs j) (ground (arith, v.exact j));
  keyed = λ j job. rw (jobs j) (ground (arith, v.keyed j job, eq_iff id j));
}

remove_first-absent :
    (id : String) (queue : List String) → contains queue id ≡ false → remove_first id queue ≡ queue
unfolding contains remove_first
remove_first-absent id [] h = refl
remove_first-absent id (x ∷ queue) h = ground (arith, remove_first-absent id queue)

-- A section changes one job and its place in the queue as `leave-Exact` says, or adds one.
pub create-Exact :
    (r : Registry) (job : Job)
    → job.status ≡ status_queued
    → lookup job.id r.jobs ≡ none
    → Exact r
    → Exact (enqueue_job job r)
unfolding enqueue_job waits contains
create-Exact r job q fresh v =
    let absent : contains r.queue job.id ≡ false = rw (v.exact job.id, fresh) in
    record {
      distinct = IsDistinct-snoc r.queue job.id v.distinct absent;
      exact = λ j.
          rw (lookup-insert job.id j job r.jobs, contains-append r.queue (job.id ∷ []) j)
            (ground (arith, v.exact j, eq_iff job.id j, eq_iff job.status status_queued));
      keyed = λ j found.
          rw (lookup-insert job.id j job r.jobs) (ground (arith, v.keyed j found, eq_iff job.id j));
    }

pub claim_next-Exact :
    (c : Claimant) (now : ℕ) (r : Registry) → Exact r → Exact (claim_next c now r).0
unfolding set_job_status
claim_next-Exact c now r v = elim (claim_next_fifo c now r) [
  | inr (_, same) ↦ rw same v
  | inl f ↦
      leave-Exact r (claim_next c now r).0 f.id (claimed c now f.job r.stats) v
        (v.keyed f.id f.job f.job_found) refl
        (f.queue_left
          ∙ f.found.rest_joined
          ∙ rest-eq-remove_first r.jobs c f.found.before f.found.after f.id f.found.passed_over
              f.found.claimable
          ∙ ap (remove_first f.id) (sym f.found.queue_split))
        f.jobs_left
]

-- The queue that `cancel_job` leaves is in each case the one without the job.
pub cancel_job-Exact :
    (id : String) (now : ℕ) (e : Option JobError) (job : Job) (r : Registry)
    → lookup id r.jobs ≡ some job
    → Exact r
    → Exact (cancel_job id now e job r).0
unfolding cancel_job set_job_status waits
cancel_job-Exact id now e job r found v =
    leave-Exact r (cancel_job id now e job r).0 id (cancel_job id now e job r).1 v
      (v.keyed id job found) refl (ground (arith, v.exact id, remove_first-absent id r.queue))
      (λ j. lookup-insert id j _ r.jobs)

-- A job off the queue may take any status but `queued`.
pub update-Exact :
    (r s : Registry) (id : String) (job new : Job)
    → lookup id r.jobs ≡ some job
    → str_eq job.status status_queued ≡ false
    → new.id ≡ job.id
    → str_eq new.status status_queued ≡ false
    → s.queue ≡ r.queue
    → s.jobs ≡ insert id new r.jobs
    → Exact r
    → Exact s
unfolding waits
update-Exact r s id job new found off same off' q jobs v =
    leave-Exact r s id new v (same ∙ v.keyed id job found) off'
      (q ∙ sym (remove_first-absent id r.queue (v.exact id ∙ (rw found off))))
      (λ j. rw jobs (lookup-insert id j new r.jobs))
