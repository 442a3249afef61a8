-- ===== src/Jobs/Workers.antt =====
-- Worker activity in registry.go: who polls or streams, and when an entry is forgotten.
use Prim.Native.String.{◌++◌ as str_append}
use nfrx.Prelude.{
  Bool, List, Option, String, [], if◌then◌else◌, ltb, none, not, some, str_eq, true, ℕ, ◌&&◌, ◌+◌,
  ◌-◌, ◌==◌, ◌∷◌,
}
use nfrx.Prelude.Dict.{Dict, insert, lookup}
use nfrx.Prelude.Text.{trim_space}
use nfrx.Jobs.Types.{Registry, WorkerActivity, worker_retention}

unfoldable pub worker_key : String → String → String
worker_key worker_id worker_group =
    let id = trim_space worker_id in
    let group = trim_space worker_group in
    if str_eq id "" && str_eq group "" then "" else str_append id (str_append "::" group)

-- Whether `pruneWorkersLocked` keeps an entry.
unfoldable pub is_retained : ℕ → WorkerActivity → Bool
is_retained now w =
    if ltb 0 w.stream_count
    then true
    else not (not (w.last_seen_at == 0) && ltb worker_retention (now - w.last_seen_at))

-- now.Sub(t) may be negative in the code, and is then not above the limit, as 0 is not.
unfoldable pub prune_workers : ℕ → Dict WorkerActivity → Dict WorkerActivity
prune_workers now [] = []
prune_workers now ((k, w) ∷ ws) =
    let rest = prune_workers now ws in if is_retained now w then (k, w) ∷ rest else rest

-- The entry that `ensureWorkerLocked` returns, which is in the map afterwards.
unfoldable pub ensure_worker : String → String → Dict WorkerActivity → WorkerActivity
ensure_worker worker_id worker_group ws = elim (lookup (worker_key worker_id worker_group) ws) [
  | some w ↦ w
  | none ↦ record {
    key = worker_key worker_id worker_group;
    worker_id = worker_id;
    worker_group = worker_group;
    last_seen_at = 0;
    last_claim_at = 0;
    last_claim_mode = "";
    last_job_id = "";
    types = [];
    stream_count = 0;
  }
]

abbrev pub set_mode : String → WorkerActivity → WorkerActivity
set_mode mode w = if str_eq mode "" then w else record w { last_claim_mode = mode }

abbrev pub set_types : List String → WorkerActivity → WorkerActivity
set_types [] w = w
set_types (t ∷ ts) w = record w { types = t ∷ ts }

abbrev pub set_claim : String → ℕ → WorkerActivity → WorkerActivity
set_claim job_id now w =
    if str_eq job_id "" then w else record w { last_claim_at = now; last_job_id = job_id }

unfoldable pub record_worker_seen :
    String → String → String → List String → String → ℕ → Registry → Registry
unfolding ensure_worker
record_worker_seen worker_id worker_group mode types job_id now r =
    if str_eq (worker_key worker_id worker_group) ""
    then r
    else let pruned = prune_workers now r.workers in
      let w = record (ensure_worker worker_id worker_group pruned) { last_seen_at = now } in
      record r {
        workers =
            insert (worker_key worker_id worker_group)
              (set_claim job_id now (set_types types (set_mode mode w))) pruned;
      }

unfoldable pub add_worker_stream : String → String → List String → ℕ → Registry → Registry
unfolding ensure_worker
add_worker_stream worker_id worker_group types now r =
    if str_eq (worker_key worker_id worker_group) ""
    then r
    else let pruned = prune_workers now r.workers in
      let w = ensure_worker worker_id worker_group pruned in
      let seen = set_types types (record w { last_seen_at = now; last_claim_mode = "stream" }) in
      record r {
        workers =
            insert (worker_key worker_id worker_group)
              (record seen { stream_count = w.stream_count + 1 }) pruned;
      }

drop_stream : String → ℕ → Option WorkerActivity → Dict WorkerActivity → Dict WorkerActivity
drop_stream key now none ws = ws
drop_stream key now (some w) ws =
    if ltb 0 w.stream_count
    then insert key (record w { stream_count = w.stream_count - 1; last_seen_at = now }) ws
    else ws

unfoldable pub remove_worker_stream : String → String → ℕ → Registry → Registry
unfolding drop_stream
remove_worker_stream worker_id worker_group now r =
    let key = worker_key worker_id worker_group in
    if str_eq key ""
    then r
    else let pruned = prune_workers now r.workers in
      record r { workers = drop_stream key now (lookup key pruned) pruned }
