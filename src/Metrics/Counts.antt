-- ===== src/Metrics/Counts.antt =====
-- What the operations of metrics.go do to the counters of jobs.
use nfrx.Prelude.{
  ℕ, List, Option-cases, String, [], count_if, false, if◌then◌else◌, inl, inr, length, refl, some,
  str_eq, suc, ◌<◌, ◌∷◌, ◌≡◌, ◌≤◌, Bool-cases, arith, eq_iff, subst, sym, ◌%◌, ◌+◌, ◌^◌, ◌∙◌,
}
use nfrx.Prelude.Dict.{lookup, Dict, delete, insert, lookup-delete, lookup-insert}
use nfrx.Metrics.Types.{WorkerMetrics, MetricsRegistry}
use nfrx.Metrics.Registry.{modify_worker, add_uint64}

abbrev pub count_text : String → List String → ℕ
count_text id = count_if (λ other. str_eq other id)

-- The list without the first entry of the text.
abbrev pub remove_text : String → List String → List String
remove_text id [] = []
remove_text id (other ∷ rest) =
    let kept = remove_text id rest in if str_eq other id then rest else other ∷ kept

-- Every worker of the map counts at most so many jobs.
abbrev pub Bounded : (String → ℕ) → Dict WorkerMetrics → Type 0
Bounded n workers =
    (id : String) (w : WorkerMetrics) → lookup id workers ≡ some w → w.inflight ≤ n id

pub Bounded-insert :
    (id : String) (v : WorkerMetrics) (n k : String → ℕ) (workers : Dict WorkerMetrics)
    → v.inflight ≤ k id
    → ((other : String) → str_eq id other ≡ false → n other ≤ k other)
    → Bounded n workers
    → Bounded k (insert id v workers)
Bounded-insert id v n k workers at_id beside h other w found =
    let spelled = sym (lookup-insert id other v workers) ∙ found in
    elim (Bool-cases (str_eq id other)) [
      | inl same ↦
          let e : v ≡ w = grind (arith, same, spelled) in
          subst (λ x. w.inflight ≤ k x) ((eq_iff id other).0 same)
            (subst (λ x. x.inflight ≤ k id) e at_id)
      | inr unlike ↦
          let e : lookup other workers ≡ some w = grind (arith, unlike, spelled) in
          omega (arith, h other w e, beside other unlike)
    ]

pub Bounded-delete :
    (id : String) (n : String → ℕ) (workers : Dict WorkerMetrics)
    → Bounded n workers
    → Bounded n (delete id workers)
Bounded-delete id n workers h other w found =
    let spelled = sym (lookup-delete id other workers) ∙ found in
    elim (Bool-cases (str_eq id other)) [
      | inl same ↦ absurd (grind (arith, same, spelled))
      | inr unlike ↦ h other w (grind (arith, unlike, spelled))
    ]

pub Bounded-more :
    (n k : String → ℕ) (workers : Dict WorkerMetrics)
    → ((other : String) → n other ≤ k other)
    → Bounded n workers
    → Bounded k workers
Bounded-more n k workers more h other w found = omega (arith, h other w found, more other)

-- What a change to a worker does to the counts of jobs in flight.
pub modify_worker-Bounded :
    (f : WorkerMetrics → WorkerMetrics) (id : String) (n k : String → ℕ) (m : MetricsRegistry)
    → ((w : WorkerMetrics) → w.inflight ≤ n id → (f w).inflight ≤ k id)
    → ((other : String) → str_eq id other ≡ false → n other ≤ k other)
    → Bounded n m.workers
    → Bounded k (modify_worker f id m).workers
unfolding modify_worker
modify_worker-Bounded f id n k m at_id beside h = elim (Option-cases (lookup id m.workers)) [
  | inr (w, there) ↦
      rw (there, modify_worker)
        (Bounded-insert id (f w) n k m.workers (at_id w (h id w there)) beside h)
  | inl missing ↦
      rw (missing, modify_worker)
        (λ other w found. elim (Bool-cases (str_eq id other)) [
          | inl same ↦ absurd (grind (arith, (eq_iff id other).0 same, missing, found))
          | inr unlike ↦ omega (arith, h other w found, beside other unlike)
        ])
]

pub modify_worker_jobs :
    (f : WorkerMetrics → WorkerMetrics) (id : String) (m : MetricsRegistry)
    → ((modify_worker f id m).jobs_inflight ≡ m.jobs_inflight)
      × ((modify_worker f id m).jobs_completed_total ≡ m.jobs_completed_total)
      × ((modify_worker f id m).jobs_failed_total ≡ m.jobs_failed_total)
unfolding modify_worker
modify_worker_jobs f id m = elim (Option-cases (lookup id m.workers)) [
  | inl missing ↦ rw (missing, modify_worker) (refl, refl, refl)
  | inr (w, there) ↦ rw (there, modify_worker) (refl, refl, refl)
]

pub length-remove_text :
    (id : String) (texts : List String)
    → 0 < count_text id texts
    → length texts ≡ suc (length (remove_text id texts))
length-remove_text id [] h = omega arith
length-remove_text id (other ∷ rest) h = elim (Bool-cases (str_eq other id)) [
  | inl same ↦ rw same refl
  | inr unlike ↦ rw unlike (omega (arith, length-remove_text id rest (ground (arith, unlike, h))))
]

pub count_text-remove_text :
    (id other : String) (texts : List String)
    → count_text other texts
      ≤ count_text other (remove_text id texts) + (if str_eq id other then 1 else 0)
count_text-remove_text id other [] = omega arith
count_text-remove_text id other (t ∷ rest) =
    ground
      (arith, count_text-remove_text id other rest, eq_iff t id, eq_iff t other, eq_iff id other)

pub completed_more :
    (a b n : ℕ) → (a + b) % 2 ^ 64 ≡ n % 2 ^ 64 → (add_uint64 a 1 + b) % 2 ^ 64 ≡ suc n % 2 ^ 64
unfolding add_uint64
completed_more a b n h = omega arith

pub failed_more :
    (a b n : ℕ) → (a + b) % 2 ^ 64 ≡ n % 2 ^ 64 → (a + add_uint64 b 1) % 2 ^ 64 ≡ suc n % 2 ^ 64
unfolding add_uint64
failed_more a b n h = omega arith
