-- ===== src/Metrics/Summary.antt =====
-- What Snapshot of metrics.go shows of the workers.
use mathlib.Core.List.{Permᴰ, append-nil, append_assoc}
use nfrx.Prelude.{
  ℕ, Bool, List, [], arith, count_if, if◌then◌else◌, map, refl, ◌++◌, ◌+◌, ◌==◌, ◌∙◌, ◌∷◌, ◌≡◌, sym,
}
use nfrx.Metrics.Types.{
  WorkerMetrics, MetricsRegistry, WorkerStatus, no_status, status_connected, status_draining,
  status_gone, status_idle, status_not_ready, status_working,
}
use nfrx.Metrics.Snapshot.{
  snapshot, values, WorkerSnapshot, WorkersSummary, count_status, no_workers, snapshot_worker,
  snapshot_workers,
}

status_number : WorkerStatus → ℕ
status_number no_status = 0
status_number status_connected = 1
status_number status_working = 2
status_number status_idle = 3
status_number status_not_ready = 4
status_number status_draining = 5
status_number status_gone = 6

-- How many workers have the status.
unfoldable pub with_status : WorkerStatus → List WorkerMetrics → ℕ
unfolding status_number
with_status told = count_if (λ w. status_number w.status == status_number told)

-- The summary `t` has what `s` has and the workers `ws`.
record IsTally (s t : WorkersSummary) (ws : List WorkerMetrics) : Type 0 where
  connected : t.connected ≡ s.connected + with_status status_connected ws
  working : t.working ≡ s.working + with_status status_working ws
  idle : t.idle ≡ s.idle + with_status status_idle ws
  not_ready : t.not_ready ≡ s.not_ready + with_status status_not_ready ws
  gone : t.gone ≡ s.gone

one_more :
    (told : WorkerStatus) (w : WorkerMetrics) (ws : List WorkerMetrics)
    → with_status told (w ∷ ws)
      ≡ (if status_number w.status == status_number told then 1 else 0) + with_status told ws
unfolding with_status status_number
one_more told w ws = ground arith

count_status-adds :
    (told : WorkerStatus) (s : WorkersSummary)
    → ((count_status told s).connected ≡ s.connected + (if status_number told == 1 then 1 else 0))
      × ((count_status told s).working ≡ s.working + (if status_number told == 2 then 1 else 0))
      × ((count_status told s).idle ≡ s.idle + (if status_number told == 3 then 1 else 0))
      × ((count_status told s).not_ready ≡ s.not_ready + (if status_number told == 4 then 1 else 0))
      × ((count_status told s).gone ≡ s.gone)
unfolding count_status status_number
count_status-adds no_status s = (omega arith, omega arith, omega arith, omega arith, refl)
count_status-adds status_connected s = (omega arith, omega arith, omega arith, omega arith, refl)
count_status-adds status_working s = (omega arith, omega arith, omega arith, omega arith, refl)
count_status-adds status_idle s = (omega arith, omega arith, omega arith, omega arith, refl)
count_status-adds status_not_ready s = (omega arith, omega arith, omega arith, omega arith, refl)
count_status-adds status_draining s = (omega arith, omega arith, omega arith, omega arith, refl)
count_status-adds status_gone s = (omega arith, omega arith, omega arith, omega arith, refl)

tallied :
    (ws : List WorkerMetrics) (s : WorkersSummary) (shown : List WorkerSnapshot)
    → IsTally s (snapshot_workers ws (s, shown)).0 ws
unfolding snapshot_workers with_status status_number
tallied [] s shown = record {
  connected = omega arith;
  working = omega arith;
  idle = omega arith;
  not_ready = omega arith;
  gone = refl;
}
tallied (w ∷ ws) s shown =
    let t = tallied ws (count_status w.status s) (shown ++ snapshot_worker w ∷ []) in
    let a = count_status-adds w.status s in
    record {
      connected = omega (arith, t.connected, a.0, one_more status_connected w ws);
      working = omega (arith, t.working, a.1, one_more status_working w ws);
      idle = omega (arith, t.idle, a.2, one_more status_idle w ws);
      not_ready = omega (arith, t.not_ready, a.3, one_more status_not_ready w ws);
      gone = t.gone ∙ a.4;
    }

snapshot_workers-map :
    (ws : List WorkerMetrics) (s : WorkersSummary) (shown : List WorkerSnapshot)
    → (snapshot_workers ws (s, shown)).1 ≡ shown ++ map snapshot_worker ws
unfolding snapshot_workers
snapshot_workers-map [] s shown = sym (append-nil shown)
snapshot_workers-map (w ∷ ws) s shown =
    snapshot_workers-map ws (count_status w.status s) (shown ++ snapshot_worker w ∷ [])
    ∙ append_assoc shown (snapshot_worker w ∷ []) (map snapshot_worker ws)

count_if-Permᴰ :
    {A : Type 0} (p : A → Bool) {xs ys : List A} → Permᴰ xs ys → count_if p xs ≡ count_if p ys
count_if-Permᴰ p Permᴰ.nil = refl
count_if-Permᴰ p (Permᴰ.cons {a} {b} e d) = rw (e, count_if-Permᴰ p d) refl
count_if-Permᴰ p (Permᴰ.swap {a} {b} {a'} {b'} e f) = rw (e, f) (ground arith)
count_if-Permᴰ p (Permᴰ.trans d e) = count_if-Permᴰ p d ∙ count_if-Permᴰ p e

-- When sort.Slice rearranges the workers, each of them is shown, with what is kept of it, in the
-- order of sort.Slice, and the summary counts those that are connected, working, idle and not ready.
-- Those that are gone are never counted.
pub snapshot-with_status :
    (sort : List WorkerMetrics → List WorkerMetrics) (now : ℕ) (m : MetricsRegistry)
    → ((ws : List WorkerMetrics) → Permᴰ (sort ws) ws)
    → ((snapshot sort now m).workers ≡ map snapshot_worker (sort (values m.workers)))
      × ((snapshot sort now m).workers_summary.connected
          ≡ with_status status_connected (values m.workers))
      × ((snapshot sort now m).workers_summary.working
          ≡ with_status status_working (values m.workers))
      × ((snapshot sort now m).workers_summary.idle ≡ with_status status_idle (values m.workers))
      × ((snapshot sort now m).workers_summary.not_ready
          ≡ with_status status_not_ready (values m.workers))
      × ((snapshot sort now m).workers_summary.gone ≡ 0)
unfolding snapshot with_status
snapshot-with_status sort now m rearranges =
    let t = tallied (sort (values m.workers)) no_workers [] in
    let same : (told : WorkerStatus)
        → with_status told (sort (values m.workers)) ≡ with_status told (values m.workers) =
      λ told.
        count_if-Permᴰ (λ w. status_number w.status == status_number told)
          (rearranges (values m.workers)) in
    (
      snapshot_workers-map (sort (values m.workers)) no_workers [],
      omega (arith, t.connected, same status_connected),
      omega (arith, t.working, same status_working),
      omega (arith, t.idle, same status_idle),
      omega (arith, t.not_ready, same status_not_ready),
      t.gone,
    )
