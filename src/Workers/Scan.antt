-- ===== src/Workers/Scan.antt =====
-- The first loop of PickWorker: what it has kept after each worker.
use mathlib.Core.List.Memᴰ
use mathlib.Core.List.{Memᴰ}
use native.Mathlib.Decide.{dec_lt}
use nfrx.Prelude.{
  ℕ, List, [], ap, arith, inl, inr, subst, sym, true, ◌++◌, ◌<◌, ◌∙◌, ◌∷◌, ◌≡◌, ◌≢◌, ◌≤◌, ◌⊎◌,
  Bool-cases, refl, ==_iff, false, ltb, lt→ltb, ◌==◌,
}
use nfrx.Workers.{Worker, Best, is_eligible, consider, best_workers}

append_one {ℓ} : {A : Type ℓ} (xs : List A) (a : A) → xs ++ a ∷ [] ≢ []
append_one [] a = λ e. cc
append_one (x ∷ xs) a = λ e. cc

shift :
    {A : Type 0} {v w : Worker} {ws : List Worker} → (A ⊎ (v ≡ w)) ⊎ Memᴰ v ws → A ⊎ Memᴰ v (w ∷ ws)
shift (inl (inl before)) = inl before
shift (inl (inr same)) = inr (Memᴰ.head same)
shift (inr later) = inr (Memᴰ.tail later)

unshift :
    {A : Type 0} {v w : Worker} {ws : List Worker} → A ⊎ Memᴰ v (w ∷ ws) → (A ⊎ (v ≡ w)) ⊎ Memᴰ v ws
unshift (inl before) = inl (inl before)
unshift (inr (Memᴰ.head same)) = inl (inr same)
unshift (inr (Memᴰ.tail later)) = inr later

pub not_lt→ltb : (a b : ℕ) → ¬ (a < b) → ltb a b ≡ false
not_lt→ltb a b h = ground arith

ne→== : (a b : ℕ) → a ≢ b → (a == b) ≡ false
ne→== a b h = ground arith

module _ (score : Worker → ℕ) (min_score : ℕ) where
  -- `best` is right for the workers that were seen: it holds those of the highest score among the
  -- eligible ones.
  pub record Keeps (Seen : Worker → Type 0) (best : Best) : Type 0 where
    pub sound :
        (v : Worker)
        → Memᴰ v best.kept
        → Seen v × (is_eligible score min_score v ≡ true) × (score v ≡ best.score)
    pub complete :
        (v : Worker)
        → Seen v
        → is_eligible score min_score v ≡ true
        → (best.kept ≢ []) × (score v ≤ best.score) × (score v ≡ best.score → Memᴰ v best.kept)

  Also : (Worker → Type 0) → Worker → Worker → Type 0
  Also Seen w v = Seen v ⊎ (v ≡ w)

  module _ (Seen : Worker → Type 0) (best : Best) (w : Worker) where
    pass :
        Keeps Seen best
        → (is_eligible score min_score w ≡ true → (best.kept ≢ []) × (score w < best.score))
        → Keeps (Also Seen w) best
    unfolding Also
    pass k worse = record {
      sound = λ v m. let s = k.sound v m in (inl s.0, s.1, s.2);
      complete = λ v seen ok. elim seen [
        | inl before ↦ k.complete v before ok
        | inr same ↦
            let o = worse (subst (λ u. is_eligible score min_score u ≡ true) same ok) in
            let e = ap score same in
            (o.0, omega (arith, e, o.1), λ t. absurd (omega (arith, e, o.1, t)))
      ];
    }

    restart :
        is_eligible score min_score w ≡ true
        → ((v : Worker) → Seen v → is_eligible score min_score v ≡ true → score v < score w)
        → Keeps (Also Seen w) (record { kept = w ∷ []; score = score w })
    unfolding Also
    restart ok less = record {
      sound = λ v m.
          let e = Memᴰ.eq_of_singleton m in
          (inr e, subst (λ u. is_eligible score min_score u ≡ true) (sym e) ok, ap score e);
      complete = λ v seen also_ok. elim seen [
        | inl before ↦
            let l = less v before also_ok in
            (λ e. cc, omega (arith, l), λ t. absurd (omega (arith, l, t)))
        | inr same ↦ (λ e. cc, omega (arith, ap score same), λ t. Memᴰ.head same)
      ];
    }

    join :
        Keeps Seen best
        → is_eligible score min_score w ≡ true
        → score w ≡ best.score
        → Keeps (Also Seen w) (record best { kept = best.kept ++ w ∷ [] })
    unfolding Also
    join k ok level = record {
      sound = λ v m. elim (Memᴰ.append_cases best.kept m) [
        | inl before ↦ let s = k.sound v before in (inl s.0, s.1, s.2)
        | inr last ↦
            let e = Memᴰ.eq_of_singleton last in
            (
              inr e,
              subst (λ u. is_eligible score min_score u ≡ true) (sym e) ok,
              ap score e ∙ level,
            )
      ];
      complete = λ v seen also_ok. elim seen [
        | inl before ↦
            let c = k.complete v before also_ok in
            (append_one best.kept w, c.1, λ t. Memᴰ.append_left (w ∷ []) (c.2 t))
        | inr same ↦ (
          append_one best.kept w,
          omega (arith, ap score same, level),
          λ t. Memᴰ.append_right best.kept (Memᴰ.head same),
        )
      ];
    }

  step :
      (Seen : Worker → Type 0) (kept : List Worker) (s : ℕ) (w : Worker)
      → Keeps Seen (record { kept = kept; score = s })
      → Keeps (Also Seen w) (consider score min_score (record { kept = kept; score = s }) w)
  unfolding consider
  step Seen [] s w k = elim (Bool-cases (is_eligible score min_score w)) [
    | inr bad ↦ rw bad (pass Seen (record { kept = []; score = s }) w k (λ ok. cc))
    | inl ok ↦ rw ok (
        restart Seen (record { kept = []; score = s }) w ok
          (λ v seen fit. absurd ((k.complete v seen fit).0 refl)))
  ]
  step Seen (u ∷ us) s w k = elim (Bool-cases (is_eligible score min_score w)) [
    | inr bad ↦ rw bad (pass Seen (record { kept = u ∷ us; score = s }) w k (λ ok. cc))
    | inl ok ↦ elim (dec_lt s (score w)) [
      | yes more ↦
          rw (ok, lt→ltb s (score w) more)
            (restart Seen (record { kept = u ∷ us; score = s }) w ok
              (λ v seen fit. omega (arith, more, (k.complete v seen fit).1)))
      | no most ↦ elim (dec_lt (score w) s) [
        | no least ↦
            let level : score w ≡ s = omega (arith, most, least) in
            rw (ok, not_lt→ltb s (score w) most, (==_iff (score w) s).1 level)
              (join Seen (record { kept = u ∷ us; score = s }) w k ok level)
        | yes below ↦
            rw (ok, not_lt→ltb s (score w) most, ne→== (score w) s (λ e. omega (arith, e)))
              (pass Seen (record { kept = u ∷ us; score = s }) w k (λ fit. (λ e. cc, below)))
      ]
    ]
  ]

  pub best_workers-Keeps :
      (ws : List Worker) (Seen : Worker → Type 0) (best : Best)
      → Keeps Seen best
      → Keeps (λ v. Seen v ⊎ Memᴰ v ws) (best_workers score min_score best ws)
  unfolding best_workers Also
  best_workers-Keeps [] Seen best k = record {
    sound = λ v m. let s = k.sound v m in (inl s.0, s.1, s.2);
    complete = λ v seen ok. elim seen [
      | inl before ↦ k.complete v before ok
      | inr none_left ↦ absurd (Memᴰ.not-nil none_left)
    ];
  }
  best_workers-Keeps (w ∷ ws) Seen best k =
      let rest =
        best_workers-Keeps ws (Also Seen w) (consider score min_score best w)
          (step Seen (best.kept) (best.score) w k) in
      record {
        sound = λ v m. let s = rest.sound v m in (shift s.0, s.1, s.2);
        complete = λ v seen ok. rest.complete v (unshift seen) ok;
      }
