-- ===== src/Jobs/Queue.antt =====
-- The queue of registry.go: claimNext, removeFromQueue and positions.
use nfrx.Prelude.{
  Bool, List, Option, String, [], contains, false, if◌then◌else◌, none, not, some, str_eq, true, ℕ,
  ◌&&◌, ◌+◌, ◌==◌, ◌∷◌,
}
use nfrx.Prelude.Dict.{Dict, insert, lookup}
use nfrx.Jobs.Types.{Job, JobView, Registry, status_claimed, status_queued}
use nfrx.Jobs.Status.{set_job_status}
use nfrx.Jobs.Events.{publish, status_event, view}

unfoldable pub is_compatible_claim : Job → String → String → Bool
is_compatible_claim job worker_id worker_group =
    if not (str_eq job.worker_id "") && not (str_eq job.worker_id worker_id)
    then false
    else if not (str_eq job.worker_group "") && not (str_eq job.worker_group worker_group)
    then false
    else true

-- Who claims, and which types.
pub record Claimant : Type 0 where
  pub types : List String
  pub worker_id : String
  pub worker_group : String

-- len(types) > 0 && !contains(types, job.Type), negated
unfoldable pub accepts_type : List String → String → Bool
accepts_type [] type = true
accepts_type (t ∷ ts) type = contains (t ∷ ts) type

-- Whether the loop of `claimNext` stops at this queue entry.
unfoldable pub is_claimable : Dict Job → Claimant → String → Bool
unfolding accepts_type is_compatible_claim
is_claimable jobs c id = elim (lookup id jobs) [
  | none ↦ false
  | some job ↦ accepts_type c.types job.type && is_compatible_claim job c.worker_id c.worker_group
]

keep_before : String → Option (String × List String) → Option (String × List String)
keep_before id none = none
keep_before id (some (found, rest)) = some (found, id ∷ rest)

-- The entry at which the loop stops, and the queue without it.
unfoldable pub claim_scan : Dict Job → Claimant → List String → Option (String × List String)
unfolding keep_before
claim_scan jobs c [] = none
claim_scan jobs c (id ∷ queue) =
    let later = keep_before id (claim_scan jobs c queue) in
    if is_claimable jobs c id then some (id, queue) else later

claim_job : Claimant → ℕ → String → Job → List String → Registry → Registry × Option Job
claim_job c now id job rest r =
    let (set, stats) = set_job_status job status_claimed now r.stats in
    let claimed = record set {
      claimed_worker_id = c.worker_id;
      claimed_worker_group = c.worker_group;
    } in
    (
      publish job.id (status_event claimed)
          (record r { queue = rest; jobs = insert id claimed r.jobs; stats = stats }),
      some claimed,
    )

unfoldable pub claim_next : Claimant → ℕ → Registry → Registry × Option Job
unfolding claim_job
claim_next c now r = elim (claim_scan r.jobs c r.queue) [
  | none ↦ (r, none)
  | some (id, rest) ↦ elim (lookup id r.jobs) [
    | none ↦ (r, none)
    | some job ↦ claim_job c now id job rest r
  ]
]

-- removeFromQueue: the first entry only
unfoldable pub remove_first : String → List String → List String
remove_first job_id [] = []
remove_first job_id (id ∷ queue) =
    if str_eq id job_id then queue else id ∷ remove_first job_id queue

-- The 1-based place of an id, or 0.
unfoldable pub position : String → List String → ℕ
position job_id [] = 0
position job_id (id ∷ queue) =
    let p = position job_id queue in if str_eq id job_id then 1 else if p == 0 then 0 else p + 1

unfoldable pub snapshot : String → Registry → Option (JobView × ℕ)
snapshot job_id r = elim (lookup job_id r.jobs) [
  | none ↦ none
  | some job ↦
      some (view job, if str_eq job.status status_queued then position job_id r.queue else 0)
]
