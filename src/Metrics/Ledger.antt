-- ===== src/Metrics/Ledger.antt =====
-- What the counters of metrics.go say of the jobs that were started and have not ended, in every
-- order of its operations.
use nfrx.Prelude.{
  ℕ, Bool, Bool-cases, List, Option, String, [], arith, inl, inr, length, none, refl, some, str_eq,
  suc, ℤ, ◌%◌, ◌+◌, ◌<◌, ◌^◌, ◌∙◌, ◌∷◌, ◌≡◌, Option-cases, ap, false, if◌then◌else◌, str_eq_refl,
  true, ◌-◌, ◌==◌, ◌≤◌,
}
use nfrx.Prelude.Dict.{Dict, lookup}
use nfrx.Metrics.Types.{WorkerMetrics, MetricsRegistry, WorkerStatus}
use nfrx.Metrics.Registry.{
  record_job_end, add_tokens, add_worker_tokens, end_job, modify_worker, new_metrics_registry,
  record_heartbeat, record_job_start, remove_worker, set_scheduler_queue_capacity,
  set_scheduler_queue_len, set_worker_host_info, set_worker_queue_len, set_worker_status,
  update_worker, upsert_worker, add_uint64, known_worker, new_worker,
}
use nfrx.Metrics.Counts.{
  count_text, Bounded, Bounded-delete, modify_worker-Bounded, modify_worker_jobs, remove_text,
  Bounded-insert, completed_more, count_text-remove_text, failed_more, length-remove_text,
}

-- The registry, the worker of each job that was started and has not ended, and how many jobs have
-- ended.
pub record Ledger : Type 0 where
  pub metrics : MetricsRegistry
  pub outstanding : List String
  pub ended : ℕ

-- The operations that leave the counts of jobs alone.
pub data Other : MetricsRegistry → MetricsRegistry → Type 0 where
  upserts :
      {m : MetricsRegistry} (id name version build_sha build_date : String)
      (max_concurrency batch : ℤ) (now : ℕ)
      → Other m (upsert_worker id name version build_sha build_date max_concurrency batch now m)
  informs :
      {m : MetricsRegistry} (id : String) (config : Option (Dict String))
      → Other m (set_worker_host_info id config m)
  removes : {m : MetricsRegistry} (id : String) → Other m (remove_worker id m)
  has_status :
      {m : MetricsRegistry} (id : String) (status : WorkerStatus)
      → Other m (set_worker_status id status m)
  updates :
      {m : MetricsRegistry} (id : String) (max_concurrency batch : ℤ)
      → Other m (update_worker id max_concurrency batch m)
  beats :
      {m : MetricsRegistry} (id : String) (cpu ram now : ℕ)
      → Other m (record_heartbeat id cpu ram now m)
  queues_worker :
      {m : MetricsRegistry} (id : String) (n : ℤ) → Other m (set_worker_queue_len id n m)
  queues : {m : MetricsRegistry} (n : ℤ) → Other m (set_scheduler_queue_len n m)
  resizes : {m : MetricsRegistry} (n : ℤ) → Other m (set_scheduler_queue_capacity n m)
  has_tokens :
      {m : MetricsRegistry} (id kind : String) (n : ℕ) → Other m (add_worker_tokens id kind n m)

pub data Step : Ledger → Ledger → Type 0 where
  starts :
      {l : Ledger} (id : String)
      → Step l
          (record l { metrics = record_job_start id l.metrics; outstanding = id ∷ l.outstanding })
  ends :
      {l : Ledger} (id : String) (ms : ℕ) (success : Bool) (message : String)
      → 0 < count_text id l.outstanding
      → Step l (record {
        metrics = record_job_end id ms success message l.metrics;
        outstanding = remove_text id l.outstanding;
        ended = suc l.ended;
      })
  others :
      {l : Ledger} {m : MetricsRegistry} → Other l.metrics m → Step l (record l { metrics = m })

pub data Reach : Ledger → Type 0 where
  opens :
      (now : ℕ) (version sha date : String) (state : Option String)
      → Reach (record {
        metrics = new_metrics_registry now version sha date state;
        outstanding = [];
        ended = 0;
      })
  goes_on : {l k : Ledger} → Reach l → Step l k → Reach k

record IsCounted (l : Ledger) : Type 0 where
  jobs : l.metrics.jobs_inflight ≡ length l.outstanding
  each : Bounded (λ id. count_text id l.outstanding) l.metrics.workers
  total : (l.metrics.jobs_completed_total + l.metrics.jobs_failed_total) % 2 ^ 64 ≡ l.ended % 2 ^ 64

-- What leaves the jobs and the bounds of the workers alone.
record IsKept (m n : MetricsRegistry) : Type 0 where
  inflight : n.jobs_inflight ≡ m.jobs_inflight
  completed : n.jobs_completed_total ≡ m.jobs_completed_total
  failed : n.jobs_failed_total ≡ m.jobs_failed_total
  bounded : (k : String → ℕ) → Bounded k m.workers → Bounded k n.workers

modify_worker-IsKept :
    (f : WorkerMetrics → WorkerMetrics) (id : String) (m : MetricsRegistry)
    → ((w : WorkerMetrics) → (f w).inflight ≡ w.inflight)
    → IsKept m (modify_worker f id m)
modify_worker-IsKept f id m same =
    let jobs = modify_worker_jobs f id m in
    record {
      inflight = jobs.0;
      completed = jobs.1;
      failed = jobs.2;
      bounded = λ k h.
          modify_worker-Bounded f id k k m (λ w b. omega (arith, same w, b)) (λ o u. omega arith) h;
    }

add_tokens_inflight :
    (kind : String) (n : ℕ) (w : WorkerMetrics) → (add_tokens kind n w).inflight ≡ w.inflight
unfolding add_tokens
add_tokens_inflight kind n w = elim (Bool-cases (str_eq kind "in")) [
  | inl in_tokens ↦ rw (in_tokens, add_tokens) refl
  | inr other ↦ elim (Bool-cases (str_eq kind "out")) [
    | inl out_tokens ↦ rw (other, out_tokens, add_tokens) refl
    | inr neither ↦ rw (other, neither, add_tokens) refl
  ]
]

known_worker_inflight :
    (id : String) (now : ℕ) (m : MetricsRegistry) (k : String → ℕ)
    → Bounded k m.workers
    → (known_worker id now m).inflight ≤ k id
unfolding known_worker new_worker
known_worker_inflight id now m k h = elim (Option-cases (lookup id m.workers)) [
  | inl missing ↦ rw (missing, known_worker) (omega arith)
  | inr (w, there) ↦ rw (there, known_worker) (h id w there)
]

upsert_worker-IsKept :
    (id name version sha date : String) (c b : ℤ) (now : ℕ) (m : MetricsRegistry)
    → IsKept m (upsert_worker id name version sha date c b now m)
unfolding upsert_worker
upsert_worker-IsKept id name version sha date c b now m = record {
  inflight = refl;
  completed = refl;
  failed = refl;
  bounded = λ k h.
      Bounded-insert id _ k k m.workers (known_worker_inflight id now m k h) (λ o u. omega arith) h;
}

add_worker_tokens-IsKept :
    (id kind : String) (n : ℕ) (m : MetricsRegistry) → IsKept m (add_worker_tokens id kind n m)
unfolding add_worker_tokens
add_worker_tokens-IsKept id kind n m = elim (Bool-cases (n == 0)) [
  | inl nothing ↦
      rw (nothing, add_worker_tokens)
        (record { inflight = refl; completed = refl; failed = refl; bounded = λ k h. h })
  | inr some_tokens ↦
      rw (some_tokens, add_worker_tokens)
        (modify_worker-IsKept (add_tokens kind n) id m (add_tokens_inflight kind n))
]

Other-IsKept : {m n : MetricsRegistry} → Other m n → IsKept m n
unfolding set_worker_host_info remove_worker set_worker_status update_worker record_heartbeat
    set_worker_queue_len set_scheduler_queue_len set_scheduler_queue_capacity
Other-IsKept (upserts {m} id name version sha date c b now) =
    upsert_worker-IsKept id name version sha date c b now m
Other-IsKept (informs {m} id none) = record {
  inflight = refl;
  completed = refl;
  failed = refl;
  bounded = λ k h. h;
}
Other-IsKept (informs {m} id (some config)) = modify_worker-IsKept _ id m (λ w. refl)
Other-IsKept (removes {m} id) = record {
  inflight = refl;
  completed = refl;
  failed = refl;
  bounded = λ k h. Bounded-delete id k m.workers h;
}
Other-IsKept (has_status {m} id told) = modify_worker-IsKept _ id m (λ w. refl)
Other-IsKept (updates {m} id c b) = modify_worker-IsKept _ id m (λ w. refl)
Other-IsKept (beats {m} id cpu ram now) = modify_worker-IsKept _ id m (λ w. refl)
Other-IsKept (queues_worker {m} id n) = modify_worker-IsKept _ id m (λ w. refl)
Other-IsKept (queues n) = record {
  inflight = refl;
  completed = refl;
  failed = refl;
  bounded = λ k h. h;
}
Other-IsKept (resizes n) = record {
  inflight = refl;
  completed = refl;
  failed = refl;
  bounded = λ k h. h;
}
Other-IsKept (has_tokens {m} id kind n) = add_worker_tokens-IsKept id kind n m

end_job_inflight :
    (ms : ℕ) (success : Bool) (message : String) (w : WorkerMetrics)
    → (end_job ms success message w).inflight ≡ w.inflight - 1
unfolding end_job
end_job_inflight ms success message w = ground arith

totals :
    (success : Bool) (a b n : ℕ)
    → (a + b) % 2 ^ 64 ≡ n % 2 ^ 64
    → ((if success then add_uint64 a 1 else a) + (if success then b else add_uint64 b 1)) % 2 ^ 64
      ≡ suc n % 2 ^ 64
totals true a b n h = completed_more a b n h
totals false a b n h = failed_more a b n h

module _ (l : Ledger) (c : IsCounted l) (id : String) where
  started :
      IsCounted
        (record l { metrics = record_job_start id l.metrics; outstanding = id ∷ l.outstanding })
  unfolding record_job_start
  started =
      let m = modify_worker_jobs (λ w. record w { inflight = suc w.inflight }) id l.metrics in
      record {
        jobs = ap suc (m.0 ∙ c.jobs);
        each =
            modify_worker-Bounded _ id (λ o. count_text o l.outstanding) _ l.metrics
              (λ w h. rw (str_eq_refl id) (omega (arith, h))) (λ other u. ground arith) c.each;
        total = rw (m.1, m.2) c.total;
      }

  finished :
      (ms : ℕ) (success : Bool) (message : String)
      → 0 < count_text id l.outstanding
      → IsCounted (record {
        metrics = record_job_end id ms success message l.metrics;
        outstanding = remove_text id l.outstanding;
        ended = suc l.ended;
      })
  unfolding record_job_end
  finished ms success message open_job =
      let m = modify_worker_jobs (end_job ms success message) id l.metrics in
      let one_less = count_text-remove_text id in
      record {
        jobs = rw m.0 (ground (arith, c.jobs, length-remove_text id l.outstanding open_job));
        each =
            modify_worker-Bounded _ id (λ o. count_text o l.outstanding) _ l.metrics
              (λ w h. ground (
                arith,
                h,
                end_job_inflight ms success message w,
                one_less id l.outstanding,
                str_eq_refl id,
              ))
              (λ other u. ground (arith, u, one_less other l.outstanding)) c.each;
        total = rw (m.1, m.2) (totals success _ _ _ c.total);
      }

step-IsCounted : {l k : Ledger} → Step l k → IsCounted l → IsCounted k
step-IsCounted (starts {l} id) c = started l c id
step-IsCounted (ends {l} id ms success message open_job) c =
    finished l c id ms success message open_job
step-IsCounted (others {l} {m} o) c =
    let k = Other-IsKept o in
    record {
      jobs = k.inflight ∙ c.jobs;
      each = k.bounded _ c.each;
      total = rw (k.completed, k.failed) c.total;
    }

reach-IsCounted : {l : Ledger} → Reach l → IsCounted l
unfolding lookup
reach-IsCounted (opens now version sha date state) = record {
  jobs = refl;
  each = λ id w h. absurd cc;
  total = refl;
}
reach-IsCounted (goes_on r st) = step-IsCounted st (reach-IsCounted r)

-- In every order of the operations in which only a job that was started ends: the jobs in flight are
-- those that were started and have not ended, completed and failed jobs add up, modulo 2^64, to those
-- that have ended, and a worker counts at most its own jobs that have not ended, even when its id was
-- removed or registered anew meanwhile.
pub jobs_accounted :
    (l : Ledger) (id : String) (w : WorkerMetrics)
    → Reach l
    → lookup id l.metrics.workers ≡ some w
    → (l.metrics.jobs_inflight ≡ length l.outstanding)
      × ((l.metrics.jobs_completed_total + l.metrics.jobs_failed_total) % 2 ^ 64 ≡ l.ended % 2 ^ 64)
      × (w.inflight ≤ count_text id l.outstanding)
jobs_accounted l id w r found = let c = reach-IsCounted r in (c.jobs, c.total, c.each id w found)
