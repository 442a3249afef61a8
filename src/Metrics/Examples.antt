-- ===== src/Metrics/Examples.antt =====
-- The theorems on metrics.go at concrete inputs.

use mathlib.Core.List.{Permᴰ}
use nfrx.Prelude.{List, [], none, pos, refl, some, ◌%◌, ◌+◌, ◌^◌, ◌∷◌, ◌≡◌, ◌≤◌}
use nfrx.Prelude.Dict.{insert, lookup}
use nfrx.Metrics.Types.{MetricsRegistry, WorkerMetrics}
use nfrx.Metrics.Registry.{record_job_start, known_worker, new_metrics_registry, upsert_worker}
use nfrx.Metrics.Snapshot.{snapshot}
use nfrx.Metrics.Ledger.{jobs_accounted, Ledger, Reach, goes_on, opens, others, starts, upserts}
use nfrx.Metrics.Counts.{count_text}

abbrev fresh : MetricsRegistry
fresh = new_metrics_registry 0 "1.0" "" "" none

abbrev with_worker : MetricsRegistry
with_worker = upsert_worker "w" "name" "1.0" "" "" (pos 2) (pos 0) 3 fresh

abbrev busy : Ledger
busy = record { metrics = record_job_start "w" with_worker; outstanding = "w" ∷ []; ended = 0 }

abbrev busy_worker : WorkerMetrics
busy_worker = record (known_worker "w" 3 with_worker) { inflight = 1 }

busy_reached : Reach busy
busy_reached =
    goes_on {l = record { metrics = with_worker; outstanding = []; ended = 0 }}
      (goes_on (opens 0 "1.0" "" "" none)
        (others (upserts "w" "name" "1.0" "" "" (pos 2) (pos 0) 3)))
      (starts "w")

busy_found : lookup "w" busy.metrics.workers ≡ some busy_worker
unfolding lookup record_job_start upsert_worker insert
busy_found = refl

jobs_accounted_example :
    (busy.metrics.jobs_inflight ≡ 1)
    × ((busy.metrics.jobs_completed_total + busy.metrics.jobs_failed_total) % 2 ^ 64 ≡ 0 % 2 ^ 64)
    × (busy_worker.inflight ≤ count_text "w" ("w" ∷ []))
jobs_accounted_example = jobs_accounted busy "w" busy_worker busy_reached busy_found

abbrev as_is : List WorkerMetrics → List WorkerMetrics
as_is ws = ws

permuted : (ws : List WorkerMetrics) → Permᴰ ws ws
permuted [] = Permᴰ.nil
permuted (w ∷ ws) = Permᴰ.cons refl (permuted ws)

connected_example : (snapshot as_is 5 with_worker).workers_summary.connected ≡ 1
unfolding snapshot upsert_worker insert lookup
connected_example = refl
