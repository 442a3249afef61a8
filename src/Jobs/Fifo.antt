-- ===== src/Jobs/Fifo.antt =====
-- claimNext in registry.go: which queued job a worker gets.
use nfrx.Prelude.{
  All, Bool-cases, List, String, [], arith, false, inl, inr, none, some, true, ◌++◌, ◌∷◌, ◌≡◌,
  Option-cases, ap, if◌then◌else◌, str_eq, ℕ, ◌∙◌, ◌⊎◌,
}
use nfrx.Prelude.Dict.{Dict, lookup, lookup-insert}
use nfrx.Jobs.Status.{set_job_status}
use nfrx.Jobs.Events.{publish}
use nfrx.Jobs.Types.{Job, JobStats, Registry, status_claimed}
use nfrx.Jobs.Queue.{
  Claimant, accepts_type, claim_scan, is_claimable, is_compatible_claim, claim_next,
}

-- The queue entries that a claimant passes over.
abbrev pub Unclaimable : Dict Job → Claimant → List String → Type 0
Unclaimable jobs c = All (λ id. is_claimable jobs c id ≡ false)

-- The queue around the entry that a scan finds.
pub record Found (jobs : Dict Job) (c : Claimant) (queue : List String) (id : String)
    (rest : List String) : Type 0 where
  pub before : List String
  pub after : List String
  pub queue_split : queue ≡ before ++ id ∷ after
  pub rest_joined : rest ≡ before ++ after
  pub passed_over : Unclaimable jobs c before
  pub claimable : is_claimable jobs c id ≡ true

claim_scan_later :
    (jobs : Dict Job) (c : Claimant) (x : String) (queue : List String) (id : String)
    (rest : List String)
    → is_claimable jobs c x ≡ false
    → claim_scan jobs c (x ∷ queue) ≡ some (id, rest)
    → (inner : List String) × (claim_scan jobs c queue ≡ some (id, inner)) × (rest ≡ x ∷ inner)
unfolding claim_scan
claim_scan_later jobs c x queue id rest miss h = ground arith

pub claim_scan-Found :
    (jobs : Dict Job) (c : Claimant) (queue : List String) (id : String) (rest : List String)
    → claim_scan jobs c queue ≡ some (id, rest)
    → Found jobs c queue id rest
unfolding claim_scan
claim_scan-Found jobs c [] id rest h = cc
claim_scan-Found jobs c (x ∷ queue) id rest h = elim (Bool-cases (is_claimable jobs c x)) [
  | inl hit ↦ record {
    before = [];
    after = queue;
    queue_split = ground arith;
    rest_joined = ground arith;
    passed_over = tt;
    claimable = ground arith;
  }
  | inr miss ↦
      let (inner, found, e) = claim_scan_later jobs c x queue id rest miss h in
      let f = claim_scan-Found jobs c queue id inner found in
      record {
        before = x ∷ f.before;
        after = f.after;
        queue_split = ap (λ q. x ∷ q) f.queue_split;
        rest_joined = e ∙ ap (λ q. x ∷ q) f.rest_joined;
        passed_over = (miss, f.passed_over);
        claimable = f.claimable;
      }
]

pub claim_scan-none :
    (jobs : Dict Job) (c : Claimant) (queue : List String)
    → claim_scan jobs c queue ≡ none
    → Unclaimable jobs c queue
unfolding claim_scan
claim_scan-none jobs c [] h = tt
claim_scan-none jobs c (x ∷ queue) h = ground (arith, claim_scan-none jobs c queue)

is_claimable-lookup :
    (jobs : Dict Job) (c : Claimant) (id : String)
    → is_claimable jobs c id ≡ true
    → (job : Job) × (lookup id jobs ≡ some job)
      × (accepts_type c.types job.type ≡ true)
      × (is_compatible_claim job c.worker_id c.worker_group ≡ true)
unfolding is_claimable
is_claimable-lookup jobs c id h = ground arith

-- The job as its claim leaves it.
abbrev pub claimed : Claimant → ℕ → Job → JobStats → Job
claimed c now job stats = record (set_job_status job status_claimed now stats).0 {
  claimed_worker_id = c.worker_id;
  claimed_worker_group = c.worker_group;
}

-- A claim that finds a job at `id`, with the queue that it leaves.
pub record Claimed (c : Claimant) (now : ℕ) (r : Registry) : Type 0 where
  pub id : String
  pub job : Job
  pub rest : List String
  pub found : Found r.jobs c r.queue id rest
  pub job_found : lookup id r.jobs ≡ some job
  pub type_accepted : accepts_type c.types job.type ≡ true
  pub compatible : is_compatible_claim job c.worker_id c.worker_group ≡ true
  pub job_returned : (claim_next c now r).1 ≡ some (claimed c now job r.stats)
  pub queue_left : (claim_next c now r).0.queue ≡ rest
  pub jobs_left :
      (j : String)
      → lookup j (claim_next c now r).0.jobs
        ≡ (if str_eq id j then some (claimed c now job r.stats) else lookup j r.jobs)

claim_next-Claimed :
    (c : Claimant) (now : ℕ) (r : Registry) (id : String) (rest : List String)
    → claim_scan r.jobs c r.queue ≡ some (id, rest)
    → Claimed c now r
unfolding claim_next publish
claim_next-Claimed c now r id rest h =
    let f = claim_scan-Found r.jobs c r.queue id rest h in
    let (job, found, accepted, compatible) = is_claimable-lookup r.jobs c id f.claimable in
    record {
      id = id;
      job = job;
      rest = rest;
      found = f;
      job_found = found;
      type_accepted = accepted;
      compatible = compatible;
      job_returned = rw (h, claim_next) (rw (found, claim_next));
      queue_left = rw (h, claim_next) (rw (found, claim_next));
      jobs_left = λ j. rw (h, claim_next) (rw (found, claim_next) (lookup-insert id j _ r.jobs));
    }

-- A claim takes the first queue entry whose type and worker constraints fit the claimant: that job
-- becomes claimed by it, the entries before and after stay in their order, and no other job
-- changes. With no such entry nothing at all changes.
pub claim_next_fifo :
    (c : Claimant) (now : ℕ) (r : Registry)
    → Claimed c now r ⊎ (Unclaimable r.jobs c r.queue × (claim_next c now r ≡ (r, none)))
claim_next_fifo c now r = elim (Option-cases (claim_scan r.jobs c r.queue)) [
  | inl e ↦ inr (claim_scan-none r.jobs c r.queue e, unfold claim_next in rw (e, claim_next))
  | inr (found, e) ↦ inl (claim_next-Claimed c now r found.0 found.1 e)
]
