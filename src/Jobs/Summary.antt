-- ===== src/Jobs/Summary.antt =====
-- What StateSnapshot of registry.go counts.
use nfrx.Prelude.{
  inl, inr, Bool-cases, eq_iff, false, subst, sym, true, ℕ, Bool, String, arith, if◌then◌else◌, not,
  str_eq, suc, ◌+◌, ◌||◌, ◌≡◌, [], count_if, length, refl, ◌∷◌, ap, ◌∙◌,
}
use nfrx.Jobs.Types.{
  status_awaiting_payload, status_awaiting_result, status_completed, status_failed, status_canceled,
  Job, status_claimed, status_queued, status_running, Registry,
}
use nfrx.Jobs.Status.{is_terminal_status}
use nfrx.Jobs.Snapshot.{
  JobCounts, count_job, is_awaiting, count_jobs, latest_first, no_jobs, state_snapshot, Case,
  awaiting_case, case_of, claimed_case, count_case, no_case, queued_case, running_case,
  terminal_case,
}
use nfrx.Prelude.Dict.{Dict}
use nfrx.Jobs.Latest.{count_if-latest_first, length-latest_first}

abbrev pub is_queued : String × Job → Bool
is_queued (id, job) = str_eq job.status status_queued

abbrev pub is_claimed : String × Job → Bool
is_claimed (id, job) = str_eq job.status status_claimed

abbrev pub is_running : String × Job → Bool
is_running (id, job) = str_eq job.status status_running

abbrev pub awaits : String × Job → Bool
awaits (id, job) = is_awaiting job.status

abbrev pub has_ended : String × Job → Bool
has_ended (id, job) = is_terminal_status job.status

-- A status that the switch has no case for.
abbrev pub is_other : String × Job → Bool
is_other (id, job) = not (
    str_eq job.status status_queued
    || str_eq job.status status_claimed
    || str_eq job.status status_running
    || is_awaiting job.status
    || is_terminal_status job.status)

abbrev pub tally : JobCounts → ℕ
tally n = n.queued_jobs + n.claimed_jobs + n.running_jobs + n.awaiting_transfers + n.terminal_jobs

abbrev one_of : Bool → ℕ
one_of b = if b then 1 else 0

count_if-cons :
    (p : String × Job → Bool) (e : String × Job) (es : Dict Job)
    → count_if p (e ∷ es) ≡ one_of (p e) + count_if p es
count_if-cons p e es = ground arith

-- The number that a case of the switch counts in, with the jobs that it is for.
abbrev number_of : Case → JobCounts → ℕ
number_of queued_case n = n.queued_jobs
number_of claimed_case n = n.claimed_jobs
number_of running_case n = n.running_jobs
number_of awaiting_case n = n.awaiting_transfers
number_of terminal_case n = n.terminal_jobs
number_of no_case n = 0

abbrev status_test : Case → String → Bool
status_test queued_case s = str_eq s status_queued
status_test claimed_case s = str_eq s status_claimed
status_test running_case s = str_eq s status_running
status_test awaiting_case s = is_awaiting s
status_test terminal_case s = is_terminal_status s
status_test no_case s = false

abbrev has_status : Case → String × Job → Bool
has_status c (id, job) = status_test c job.status

abbrev same_case : Case → Case → ℕ
same_case queued_case queued_case = 1
same_case claimed_case claimed_case = 1
same_case running_case running_case = 1
same_case awaiting_case awaiting_case = 1
same_case terminal_case terminal_case = 1
same_case c d = 0

abbrev other_one : Case → ℕ
other_one no_case = 1
other_one c = 0

abbrev IsUnknown : String → Type 0
IsUnknown s =
    (str_eq s status_queued ≡ false)
    × (str_eq s status_claimed ≡ false)
    × (str_eq s status_running ≡ false)
    × (str_eq s status_awaiting_payload ≡ false)
    × (str_eq s status_awaiting_result ≡ false)
    × (str_eq s status_completed ≡ false)
    × (str_eq s status_failed ≡ false)
    × (str_eq s status_canceled ≡ false)

found : (P : String → Type 0) (s known : String) → P known → str_eq s known ≡ true → P s
found P s known p h = subst P (sym ((eq_iff s known).0 h)) p

-- What holds of each status that the code knows, and of any other text.
each_status :
    (P : String → Type 0) (s : String)
    → P status_queued
    → P status_claimed
    → P status_running
    → P status_awaiting_payload
    → P status_awaiting_result
    → P status_completed
    → P status_failed
    → P status_canceled
    → (IsUnknown s → P s)
    → P s
each_status P s p0 p1 p2 p3 p4 p5 p6 p7 other = elim (Bool-cases (str_eq s status_queued)) [
  | inl h ↦ found P s status_queued p0 h
  | inr h0 ↦ elim (Bool-cases (str_eq s status_claimed)) [
    | inl h ↦ found P s status_claimed p1 h
    | inr h1 ↦ elim (Bool-cases (str_eq s status_running)) [
      | inl h ↦ found P s status_running p2 h
      | inr h2 ↦ elim (Bool-cases (str_eq s status_awaiting_payload)) [
        | inl h ↦ found P s status_awaiting_payload p3 h
        | inr h3 ↦ elim (Bool-cases (str_eq s status_awaiting_result)) [
          | inl h ↦ found P s status_awaiting_result p4 h
          | inr h4 ↦ elim (Bool-cases (str_eq s status_completed)) [
            | inl h ↦ found P s status_completed p5 h
            | inr h5 ↦ elim (Bool-cases (str_eq s status_failed)) [
              | inl h ↦ found P s status_failed p6 h
              | inr h6 ↦ elim (Bool-cases (str_eq s status_canceled)) [
                | inl h ↦ found P s status_canceled p7 h
                | inr h7 ↦ other (h0, h1, h2, h3, h4, h5, h6, h7)
              ]
            ]
          ]
        ]
      ]
    ]
  ]
]

unknown_case : (s : String) → IsUnknown s → case_of s ≡ no_case
unfolding case_of is_awaiting is_terminal_status
unknown_case s h = ground (arith, h)

unknown_test : (c : Case) (s : String) → IsUnknown s → one_of (status_test c s) ≡ 0
unfolding is_awaiting is_terminal_status
unknown_test queued_case s h = ground (arith, h)
unknown_test claimed_case s h = ground (arith, h)
unknown_test running_case s h = ground (arith, h)
unknown_test awaiting_case s h = ground (arith, h)
unknown_test terminal_case s h = ground (arith, h)
unknown_test no_case s h = refl

abbrev Counts : Case → String → Type 0
Counts c s = same_case c (case_of s) ≡ one_of (status_test c s)

uncounted : (c : Case) (s : String) → IsUnknown s → Counts c s
uncounted queued_case s h =
    ap (same_case queued_case) (unknown_case s h) ∙ sym (unknown_test queued_case s h)
uncounted claimed_case s h =
    ap (same_case claimed_case) (unknown_case s h) ∙ sym (unknown_test claimed_case s h)
uncounted running_case s h =
    ap (same_case running_case) (unknown_case s h) ∙ sym (unknown_test running_case s h)
uncounted awaiting_case s h =
    ap (same_case awaiting_case) (unknown_case s h) ∙ sym (unknown_test awaiting_case s h)
uncounted terminal_case s h =
    ap (same_case terminal_case) (unknown_case s h) ∙ sym (unknown_test terminal_case s h)
uncounted no_case s h = ap (same_case no_case) (unknown_case s h) ∙ sym (unknown_test no_case s h)

case_of-same : (c : Case) (s : String) → Counts c s
unfolding case_of is_awaiting is_terminal_status
case_of-same queued_case s =
    each_status (Counts queued_case) s refl refl refl refl refl refl refl refl
      (uncounted queued_case s)
case_of-same claimed_case s =
    each_status (Counts claimed_case) s refl refl refl refl refl refl refl refl
      (uncounted claimed_case s)
case_of-same running_case s =
    each_status (Counts running_case) s refl refl refl refl refl refl refl refl
      (uncounted running_case s)
case_of-same awaiting_case s =
    each_status (Counts awaiting_case) s refl refl refl refl refl refl refl refl
      (uncounted awaiting_case s)
case_of-same terminal_case s =
    each_status (Counts terminal_case) s refl refl refl refl refl refl refl refl
      (uncounted terminal_case s)
case_of-same no_case s =
    each_status (Counts no_case) s refl refl refl refl refl refl refl refl (uncounted no_case s)

case_of-other :
    (id : String) (job : Job) → other_one (case_of job.status) ≡ one_of (is_other (id, job))
unfolding case_of
case_of-other id job = ground arith

module _ (now : ℕ) (job : Job) (n : JobCounts) where
  count_case-total : (c : Case) → (count_case now job n c).total_jobs ≡ n.total_jobs
  unfolding count_case
  count_case-total queued_case = refl
  count_case-total claimed_case = refl
  count_case-total running_case = refl
  count_case-total awaiting_case = refl
  count_case-total terminal_case = refl
  count_case-total no_case = refl

  count_case-number :
      (c d : Case) → number_of c (count_case now job n d) ≡ number_of c n + same_case c d
  unfolding count_case
  count_case-number queued_case queued_case = omega arith
  count_case-number queued_case claimed_case = omega arith
  count_case-number queued_case running_case = omega arith
  count_case-number queued_case awaiting_case = omega arith
  count_case-number queued_case terminal_case = omega arith
  count_case-number queued_case no_case = omega arith
  count_case-number claimed_case queued_case = omega arith
  count_case-number claimed_case claimed_case = omega arith
  count_case-number claimed_case running_case = omega arith
  count_case-number claimed_case awaiting_case = omega arith
  count_case-number claimed_case terminal_case = omega arith
  count_case-number claimed_case no_case = omega arith
  count_case-number running_case queued_case = omega arith
  count_case-number running_case claimed_case = omega arith
  count_case-number running_case running_case = omega arith
  count_case-number running_case awaiting_case = omega arith
  count_case-number running_case terminal_case = omega arith
  count_case-number running_case no_case = omega arith
  count_case-number awaiting_case queued_case = omega arith
  count_case-number awaiting_case claimed_case = omega arith
  count_case-number awaiting_case running_case = omega arith
  count_case-number awaiting_case awaiting_case = omega arith
  count_case-number awaiting_case terminal_case = omega arith
  count_case-number awaiting_case no_case = omega arith
  count_case-number terminal_case queued_case = omega arith
  count_case-number terminal_case claimed_case = omega arith
  count_case-number terminal_case running_case = omega arith
  count_case-number terminal_case awaiting_case = omega arith
  count_case-number terminal_case terminal_case = omega arith
  count_case-number terminal_case no_case = omega arith
  count_case-number no_case queued_case = omega arith
  count_case-number no_case claimed_case = omega arith
  count_case-number no_case running_case = omega arith
  count_case-number no_case awaiting_case = omega arith
  count_case-number no_case terminal_case = omega arith
  count_case-number no_case no_case = omega arith

  count_case-tally : (c : Case) → tally (count_case now job n c) + other_one c ≡ suc (tally n)
  unfolding count_case
  count_case-tally queued_case = omega arith
  count_case-tally claimed_case = omega arith
  count_case-tally running_case = omega arith
  count_case-tally awaiting_case = omega arith
  count_case-tally terminal_case = omega arith
  count_case-tally no_case = omega arith

count_job-total :
    (now : ℕ) (job : Job) (n : JobCounts) → (count_job now job n).total_jobs ≡ suc n.total_jobs
unfolding count_job
count_job-total now job n = count_case-total now job _ (case_of job.status)

number_of-total :
    (c : Case) (n : JobCounts) (total : ℕ)
    → number_of c (record n { total_jobs = total }) ≡ number_of c n
number_of-total queued_case n total = refl
number_of-total claimed_case n total = refl
number_of-total running_case n total = refl
number_of-total awaiting_case n total = refl
number_of-total terminal_case n total = refl
number_of-total no_case n total = refl

count_job-number :
    (c : Case) (now : ℕ) (id : String) (job : Job) (n : JobCounts)
    → number_of c (count_job now job n) ≡ number_of c n + one_of (has_status c (id, job))
unfolding count_job
count_job-number c now id job n =
    let counted : JobCounts = record n { total_jobs = suc n.total_jobs } in
    omega (
      arith,
      case_of-same c job.status,
      count_case-number now job counted c (case_of job.status),
      number_of-total c n (suc n.total_jobs),
    )

count_job-tally :
    (now : ℕ) (id : String) (job : Job) (n : JobCounts)
    → tally (count_job now job n) + one_of (is_other (id, job)) ≡ suc (tally n)
unfolding count_job
count_job-tally now id job n =
    let counted : JobCounts = record n { total_jobs = suc n.total_jobs } in
    rw (← case_of-other id job) (count_case-tally now job counted (case_of job.status))

count_jobs-total :
    (now : ℕ) (jobs : Dict Job) (n : JobCounts)
    → (count_jobs now jobs n).total_jobs ≡ n.total_jobs + length jobs
unfolding count_jobs
count_jobs-total now [] n = omega arith
count_jobs-total now ((id, job) ∷ jobs) n =
    omega (arith, count_jobs-total now jobs (count_job now job n), count_job-total now job n)

count_jobs-number :
    (c : Case) (now : ℕ) (jobs : Dict Job) (n : JobCounts)
    → number_of c (count_jobs now jobs n) ≡ number_of c n + count_if (has_status c) jobs
unfolding count_jobs
count_jobs-number c now [] n = omega arith
count_jobs-number c now ((id, job) ∷ jobs) n = rw (count_if-cons (has_status c) (id, job) jobs) (
    omega
      (arith, count_jobs-number c now jobs (count_job now job n), count_job-number c now id job n))

none_yet : (c : Case) → number_of c no_jobs ≡ 0
none_yet queued_case = refl
none_yet claimed_case = refl
none_yet running_case = refl
none_yet awaiting_case = refl
none_yet terminal_case = refl
none_yet no_case = refl

latest_first-number :
    (c : Case) (now : ℕ) (jobs : Dict Job)
    → number_of c (count_jobs now (latest_first jobs) no_jobs) ≡ count_if (has_status c) jobs
latest_first-number c now jobs = omega (
  arith,
  none_yet c,
  count_jobs-number c now (latest_first jobs) no_jobs,
  count_if-latest_first (has_status c) jobs,
)

count_jobs-tally :
    (now : ℕ) (jobs : Dict Job) (n : JobCounts)
    → tally (count_jobs now jobs n) + count_if is_other jobs ≡ tally n + length jobs
unfolding count_jobs
count_jobs-tally now [] n = omega arith
count_jobs-tally now ((id, job) ∷ jobs) n =
    rw (count_if-cons is_other (id, job) jobs)
      (omega (arith, count_jobs-tally now jobs (count_job now job n), count_job-tally now id job n))

-- The summary counts all jobs in the total, and in each of its five numbers the jobs with the
-- statuses of that number: queued, claimed, running, awaiting a payload or a result, and completed,
-- failed or canceled. Together the five numbers count each job once, unless its status is none that
-- the code knows.
pub state_snapshot-counts :
    (now : ℕ) (r : Registry)
    → let c = (state_snapshot now r).1.job_counts in
      (c.total_jobs ≡ length r.jobs)
      × (c.queued_jobs ≡ count_if is_queued r.jobs)
      × (c.claimed_jobs ≡ count_if is_claimed r.jobs)
      × (c.running_jobs ≡ count_if is_running r.jobs)
      × (c.awaiting_transfers ≡ count_if awaits r.jobs)
      × (c.terminal_jobs ≡ count_if has_ended r.jobs)
      × (tally c + count_if is_other r.jobs ≡ length r.jobs)
unfolding state_snapshot
state_snapshot-counts now r =
    let sorted = latest_first r.jobs in
    (
      omega (arith, count_jobs-total now sorted no_jobs, length-latest_first r.jobs),
      latest_first-number queued_case now r.jobs,
      latest_first-number claimed_case now r.jobs,
      latest_first-number running_case now r.jobs,
      latest_first-number awaiting_case now r.jobs,
      latest_first-number terminal_case now r.jobs,
      omega (
        arith,
        count_jobs-tally now sorted no_jobs,
        length-latest_first r.jobs,
        count_if-latest_first is_other r.jobs,
      ),
    )
