-- ===== src/Workers/Pick.antt =====
-- What PickWorker chooses, and when it chooses nothing.
use mathlib.Core.List.Memᴰ
use mathlib.Core.List.{Memᴰ}
use native.Mathlib.Decide.{dec_lt}
use nfrx.Prelude.{
  ℕ, Bool-cases, List, [], ap, arith, inl, inr, ltb, lt→ltb, refl, ◌∷◌, ◌≤◌, some, true, ◌≡◌, ◌⊎◌,
  leb, subst, ◌<◌, ◌∙◌, ◌≢◌, String, false,
}
use nfrx.Workers.{
  Worker, least_busy, best_workers, is_eligible, pick_least, has_capacity, pick_worker, consider,
  exact_match_score, has_label,
}
use nfrx.Workers.Scan.{not_lt→ltb, Keeps, best_workers-Keeps}

least_busy-Memᴰ :
    (busy : Worker → ℕ) (chosen : Worker) (ws : List Worker)
    → Memᴰ (least_busy busy chosen ws) (chosen ∷ ws)
unfolding least_busy
least_busy-Memᴰ busy chosen [] = Memᴰ.head refl
least_busy-Memᴰ busy chosen (w ∷ ws) = elim (Bool-cases (ltb (busy w) (busy chosen))) [
  | inl less ↦ rw less (Memᴰ.tail (least_busy-Memᴰ busy w ws))
  | inr more ↦ rw more (skip (least_busy-Memᴰ busy chosen ws))
]
  where
    skip : {u v w : Worker} {ws : List Worker} → Memᴰ u (v ∷ ws) → Memᴰ u (v ∷ w ∷ ws)
    skip (Memᴰ.head e) = Memᴰ.head e
    skip (Memᴰ.tail m) = Memᴰ.tail (Memᴰ.tail m)

least_busy_le :
    (busy : Worker → ℕ) (chosen : Worker) (ws : List Worker)
    → busy (least_busy busy chosen ws) ≤ busy chosen
unfolding least_busy
least_busy_le busy chosen [] = omega arith
least_busy_le busy chosen (w ∷ ws) = elim (dec_lt (busy w) (busy chosen)) [
  | yes less ↦
      rw (lt→ltb (busy w) (busy chosen) less) (omega (arith, less, least_busy_le busy w ws))
  | no more ↦ rw (not_lt→ltb (busy w) (busy chosen) more) (least_busy_le busy chosen ws)
]

least_busy_least :
    (busy : Worker → ℕ) (chosen : Worker) (ws : List Worker) (v : Worker)
    → Memᴰ v (chosen ∷ ws)
    → busy (least_busy busy chosen ws) ≤ busy v
unfolding least_busy
least_busy_least busy chosen ws v (Memᴰ.head e) =
    omega (arith, ap busy e, least_busy_le busy chosen ws)
least_busy_least busy chosen [] v (Memᴰ.tail m) = absurd (Memᴰ.not-nil m)
least_busy_least busy chosen (w ∷ ws) v (Memᴰ.tail m) = elim (dec_lt (busy w) (busy chosen)) [
  | yes less ↦ rw (lt→ltb (busy w) (busy chosen) less) (least_busy_least busy w ws v m)
  | no more ↦ rw (not_lt→ltb (busy w) (busy chosen) more) (elim (Memᴰ.cases_cons m) [
    | inl e ↦ omega (arith, ap busy e, more, least_busy_le busy chosen ws)
    | inr later ↦ least_busy_least busy chosen ws v (Memᴰ.tail later)
  ])
]

start-Keeps :
    (score : Worker → ℕ) (min_score : ℕ)
    → Keeps score min_score (λ v. ⊥) (record { kept = []; score = 0 })
start-Keeps score min_score = record {
  sound = λ v m. absurd (Memᴰ.not-nil m);
  complete = λ v none_seen ok. absurd none_seen;
}

scanned :
    (score : Worker → ℕ) (min_score : ℕ) (workers : List Worker)
    → Keeps score min_score
        (λ v. ⊥ ⊎ Memᴰ v workers)
        (best_workers score min_score (record { kept = []; score = 0 }) workers)
scanned score min_score workers =
    best_workers-Keeps score min_score workers (λ v. ⊥) (record { kept = []; score = 0 })
      (start-Keeps score min_score)

right_of {ℓ} : {A : Type ℓ} → ⊥ ⊎ A → A
right_of (inl impossible) = absurd impossible
right_of (inr a) = a

pick_least-chosen :
    (busy : Worker → ℕ) (kept : List Worker) (w : Worker)
    → pick_least busy kept ≡ some w
    → Memᴰ w kept × ((v : Worker) → Memᴰ v kept → busy w ≤ busy v)
unfolding pick_least
pick_least-chosen busy [] w e = cc
pick_least-chosen busy (x ∷ xs) w e =
    let same : least_busy busy x xs ≡ w = cc in
    (
      subst (λ u. Memᴰ u (x ∷ xs)) same (least_busy-Memᴰ busy x xs),
      λ v m. subst (λ u. busy u ≤ busy v) same (least_busy_least busy x xs v m),
    )

pick_least-some :
    (busy : Worker → ℕ) (kept : List Worker)
    → kept ≢ []
    → (w : Worker) × (pick_least busy kept ≡ some w)
unfolding pick_least
pick_least-some busy [] h = absurd (h refl)
pick_least-some busy (x ∷ xs) h = (least_busy busy x xs, refl)

module _ (score : Worker → ℕ) (min_score : ℕ) (busy : Worker → ℕ) (workers : List Worker) where
  -- A worker that PickWorker returns is registered, has a free place and reaches the minimum score.
  pub pick_worker_eligible :
      (w : Worker)
      → pick_worker score min_score busy workers ≡ some w
      → Memᴰ w workers × (has_capacity w ≡ true) × (leb min_score (score w) ≡ true)
  unfolding pick_worker is_eligible
  pick_worker_eligible w e =
      let c = pick_least-chosen busy _ w e in
      let s = (scanned score min_score workers).sound w c.0 in
      (right_of s.0, ground (arith, s.1), ground (arith, s.1))

  -- If some worker is registered with a free place and at least the minimum score, PickWorker
  -- returns a worker that is registered, has a free place and at least the minimum score, and that
  -- has a higher score than it, or the same score and is no busier.
  pub pick_worker_best :
      (v : Worker)
      → Memᴰ v workers
      → has_capacity v ≡ true
      → min_score ≤ score v
      → (w : Worker) × (pick_worker score min_score busy workers ≡ some w)
        × Memᴰ w workers
        × (has_capacity w ≡ true)
        × (min_score ≤ score w)
        × ((score v < score w) ⊎ ((score v ≡ score w) × (busy w ≤ busy v)))
  unfolding pick_worker is_eligible
  pick_worker_best v m free enough =
      let k = scanned score min_score workers in
      let c = k.complete v (inr m) (ground (arith, free, enough)) in
      let p = pick_least-some busy _ c.0 in
      let l = pick_least-chosen busy _ p.0 p.1 in
      let top = (k.sound p.0 l.0).2 in
      let fit = pick_worker_eligible p.0 p.1 in
      (
        p.0,
        p.1,
        fit.0,
        fit.1,
        ground (arith, fit.2),
        elim (dec_lt (score v) (score p.0)) [
          | yes less ↦ inl less
          | no most ↦
              let level : score v ≡ score p.0 = omega (arith, c.1, top, most) in
              inr (level, l.1 v (c.2 (level ∙ top)))
        ],
      )

-- Under the default scorer and the minimum score 0, a worker that lacks the wanted label is picked
-- when it is the only one and has a free place.
pub unmatched_picked :
    (task : String) (busy : Worker → ℕ) (v : Worker)
    → has_capacity v ≡ true
    → has_label task v ≡ false
    → pick_worker (exact_match_score task) 0 busy (v ∷ []) ≡ some v
unfolding pick_worker consider is_eligible exact_match_score
unmatched_picked task busy v free unfit = rw (free, unfit) refl
