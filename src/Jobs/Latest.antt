-- ===== src/Jobs/Latest.antt =====
-- Which jobs StateSnapshot of registry.go lists.
use nfrx.Prelude.{
  ℕ, Bool, String, arith, suc, ◌≡◌, Bool-cases, List, [], ap, count_if, inl, inr, length, ltb, map,
  refl, take, zero, ◌∷◌, ◌≤◌,
}
use nfrx.Jobs.Types.{Job, JobView, Registry}
use nfrx.Jobs.Snapshot.{latest_first, list_jobs, listed_view, state_snapshot, place_job}
use nfrx.Prelude.Dict.{Dict}

module _ (p : String × Job → Bool) where
  pub count_if-place_job :
      (id : String) (job : Job) (jobs : Dict Job)
      → count_if p (place_job id job jobs) ≡ count_if p ((id, job) ∷ jobs)
  unfolding place_job
  count_if-place_job id job [] = refl
  count_if-place_job id job ((k, v) ∷ rest) = ground (arith, count_if-place_job id job rest)

  pub count_if-latest_first : (jobs : Dict Job) → count_if p (latest_first jobs) ≡ count_if p jobs
  unfolding latest_first
  count_if-latest_first [] = refl
  count_if-latest_first ((id, job) ∷ jobs) =
      ground (arith, count_if-latest_first jobs, count_if-place_job id job (latest_first jobs))

pub length-place_job :
    (id : String) (job : Job) (jobs : Dict Job) → length (place_job id job jobs) ≡ suc (length jobs)
unfolding place_job
length-place_job id job [] = refl
length-place_job id job ((k, v) ∷ rest) = ground (arith, length-place_job id job rest)

pub length-latest_first : (jobs : Dict Job) → length (latest_first jobs) ≡ length jobs
unfolding latest_first
length-latest_first [] = refl
length-latest_first ((id, job) ∷ jobs) =
    omega (arith, length-latest_first jobs, length-place_job id job (latest_first jobs))

-- No entry was updated later than `limit`.
abbrev pub AllBefore : ℕ → Dict Job → Type 0
AllBefore limit [] = Unit {0}
AllBefore limit ((id, job) ∷ jobs) = (job.updated_at ≤ limit) × AllBefore limit jobs

-- Each entry was updated no later than those in front of it.
abbrev pub IsLatestFirst : Dict Job → Type 0
IsLatestFirst [] = Unit {0}
IsLatestFirst ((id, job) ∷ jobs) = AllBefore job.updated_at jobs × IsLatestFirst jobs

pub AllBefore-place_job :
    (limit : ℕ) (id : String) (job : Job) (jobs : Dict Job)
    → job.updated_at ≤ limit
    → AllBefore limit jobs
    → AllBefore limit (place_job id job jobs)
unfolding place_job
AllBefore-place_job limit id job [] h a = (h, tt)
AllBefore-place_job limit id job ((k, v) ∷ rest) h a =
    elim (Bool-cases (ltb job.updated_at v.updated_at)) [
      | inl later ↦ rw (place_job, later) (a.0, AllBefore-place_job limit id job rest h a.1)
      | inr first ↦ rw (place_job, first) (h, a)
    ]

pub AllBefore-trans :
    (low high : ℕ) (jobs : Dict Job) → low ≤ high → AllBefore low jobs → AllBefore high jobs
AllBefore-trans low high [] h a = tt
AllBefore-trans low high ((k, v) ∷ rest) h a =
    (omega (arith, a.0), AllBefore-trans low high rest h a.1)

pub place_job-IsLatestFirst :
    (id : String) (job : Job) (jobs : Dict Job)
    → IsLatestFirst jobs
    → IsLatestFirst (place_job id job jobs)
unfolding place_job
place_job-IsLatestFirst id job [] s = (tt, tt)
place_job-IsLatestFirst id job ((k, v) ∷ rest) s =
    elim (Bool-cases (ltb job.updated_at v.updated_at)) [
      | inl later ↦
          rw (place_job, later)
            (
              AllBefore-place_job v.updated_at id job rest (ground arith) s.0,
              place_job-IsLatestFirst id job rest s.1,
            )
      | inr first ↦
          let low : v.updated_at ≤ job.updated_at = ground arith in
          rw (place_job, first) ((low, AllBefore-trans v.updated_at job.updated_at rest low s.0), s)
    ]

pub latest_first-IsLatestFirst : (jobs : Dict Job) → IsLatestFirst (latest_first jobs)
unfolding latest_first
latest_first-IsLatestFirst [] = tt
latest_first-IsLatestFirst ((id, job) ∷ jobs) =
    place_job-IsLatestFirst id job (latest_first jobs) (latest_first-IsLatestFirst jobs)

abbrev pub entry_view : List String → String × Job → JobView
entry_view queue (id, job) = listed_view queue id job

pub list_jobs-take :
    (queue : List String) (room : ℕ) (jobs : Dict Job)
    → list_jobs queue room jobs ≡ map (entry_view queue) (take room jobs)
unfolding list_jobs
list_jobs-take queue zero jobs = refl
list_jobs-take queue (suc room) [] = refl
list_jobs-take queue (suc room) ((id, job) ∷ jobs) =
    ap (λ vs. listed_view queue id job ∷ vs) (list_jobs-take queue room jobs)

-- The jobs listed are the first twelve of all jobs in an order by the time of their last change, the
-- latest first: a rearrangement of the jobs, in which each is as often as in the registry.
pub state_snapshot-latest :
    (now : ℕ) (r : Registry)
    → let sorted = latest_first r.jobs in
      ((state_snapshot now r).1.jobs ≡ map (entry_view r.queue) (take 12 sorted))
      × IsLatestFirst sorted
      × ((p : String × Job → Bool) → count_if p sorted ≡ count_if p r.jobs)
unfolding state_snapshot
state_snapshot-latest now r = (
  list_jobs-take r.queue 12 (latest_first r.jobs),
  latest_first-IsLatestFirst r.jobs,
  λ p. count_if-latest_first p r.jobs,
)
