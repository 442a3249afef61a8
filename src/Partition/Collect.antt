-- ===== src/Partition/Collect.antt =====
-- The loop of partition.go that collects the results of several workers, in the order in which
-- they come out of the channel.
use mathlib.Core.List.{Permᴰ}
use nfrx.Prelude.{
  subst, Option, String, ◌==◌, ℕ, Bool, Bool-cases, List, [], arith, drop, false, get_elem?,
  if◌then◌else◌, inl, inr, leb, length, ltb, ltb→lt, map, none, refl, some, suc, sym, take, true,
  zero, ◌&&◌, ◌+◌, ◌<◌, ◌||◌, ◌∙◌, ◌∷◌, ◌≡◌, ◌≤◌, ap,
}
use nfrx.Partition.{
  failed, make_chunk, refused, begin_task, Task, Proxied, plan, WorkerRef, Finished, after_chunk,
  copy_at, finished, replied,
}
use nfrx.Partition.Tiles.{plan-Tiles, Tiles}
use nfrx.Partition.Assembly.{take-nil, copy_at-suc, take-nil, copy_at-suc, length-copy_at}

-- What a goroutine puts into the channel: where its chunk starts, and the answer to it.
pub record Piece {ℓ} (A : Type ℓ) : Type ℓ where
  pub start : ℕ
  pub answer : Proxied (List A)

-- The first answer that failed is the answer to the request; an Append that fails is not modelled.
unfoldable pub collect {ℓ} : {A : Type ℓ} → List (Piece A) → List A → Finished A
unfolding after_chunk copy_at
collect [] final = finished final
collect (p ∷ ps) final = after_chunk (λ body. collect ps (copy_at p.start body final)) p.answer

unfoldable pub refused_or {ℓ} : {B : Type ℓ} → Option (ℕ × String) → Proxied B → Proxied B
refused_or (some (status, message)) reply = refused status message
refused_or none reply = reply

-- What the goroutine of a task sends in the end: a task with an empty chunk fails before it asks a
-- worker; `reply` has what the workers make of the others.
unfoldable pub task_result {ℓ} : {A : Type ℓ} → ℕ → (Task → Proxied (List A)) → Task → Piece A
unfolding begin_task refused_or
task_result size reply t = record {
  start = t.start;
  answer = refused_or (begin_task size t) (reply t);
}

-- A worker's answer to a task that is its part of `answer`.
abbrev pub part_of {ℓ} : {A : Type ℓ} → List A → Task → Proxied (List A)
part_of answer t = replied (take t.count (drop t.start answer))

-- Some task has an empty chunk.
abbrev pub any_empty : ℕ → List Task → Bool
any_empty size [] = false
any_empty size (t ∷ ts) = make_chunk size t.start t.count == 0 || any_empty size ts

any_empty-perm :
    (size : ℕ) (ts us : List Task) → Permᴰ ts us → any_empty size ts ≡ any_empty size us
any_empty-perm size ts us Permᴰ.nil = refl
any_empty-perm size ts us (Permᴰ.cons {l₁ = ts'} {l₂ = us'} e p) =
    rw (e, any_empty-perm size ts' us' p) refl
any_empty-perm size ts us (Permᴰ.swap {b = b} {a' = a'} e e') = rw (e, e') (ground arith)
any_empty-perm size ts us (Permᴰ.trans {l₂ = mid} p q) =
    any_empty-perm size ts mid p ∙ any_empty-perm size mid us q

-- Some task has the input `i`.
unfoldable covered : ℕ → List Task → Bool
covered i [] = false
covered i (t ∷ ts) = (leb t.start i && ltb i (t.start + t.count)) || covered i ts

covered-perm : (i : ℕ) (ts us : List Task) → Permᴰ ts us → covered i ts ≡ covered i us
unfolding covered
covered-perm i ts us Permᴰ.nil = refl
covered-perm i ts us (Permᴰ.cons {l₁ = ts'} {l₂ = us'} e p) = rw (e, covered-perm i ts' us' p) refl
covered-perm i ts us (Permᴰ.swap {b = b} {a' = a'} e e') = rw (e, e') (ground arith)
covered-perm i ts us (Permᴰ.trans {l₂ = mid} p q) =
    covered-perm i ts mid p ∙ covered-perm i mid us q

covered-Tiles :
    (i from to : ℕ) (ts : List Task) → Tiles from ts to → from ≤ i → i < to → covered i ts ≡ true
unfolding covered
covered-Tiles i from to [] h low high = absurd (omega arith)
covered-Tiles i from to (t ∷ ts) h low high = elim (Bool-cases (ltb i (from + t.count))) [
  | inl here ↦ ground (arith, h.0)
  | inr later ↦ ground (arith, covered-Tiles i (from + t.count) to ts h.1)
]

module _ {ℓ} {A : Type ℓ} where
  assemble : List A → List Task → List A → List A
  assemble answer [] dst = dst
  assemble answer (t ∷ ts) dst =
      assemble answer ts (copy_at t.start (take t.count (drop t.start answer)) dst)

  abbrev as_sent : Task → Proxied (List A) → Piece A
  as_sent t answer = record { start = t.start; answer = answer }

  task_result-refused :
      (size : ℕ) (reply : Task → Proxied (List A)) (t : Task)
      → (make_chunk size t.start t.count == 0) ≡ true
      → task_result size reply t ≡ as_sent t (refused 400 "empty")
  unfolding task_result begin_task refused_or
  task_result-refused size reply t h =
      ap (λ b. as_sent t (refused_or (if b then some (400, "empty") else none) (reply t))) h

  task_result-replied :
      (size : ℕ) (reply : Task → Proxied (List A)) (t : Task)
      → (make_chunk size t.start t.count == 0) ≡ false
      → task_result size reply t ≡ as_sent t (reply t)
  unfolding task_result begin_task refused_or
  task_result-replied size reply t h =
      ap (λ b. as_sent t (refused_or (if b then some (400, "empty") else none) (reply t))) h

  collect-assemble :
      (size : ℕ) (answer : List A) (ts : List Task) (dst : List A)
      → collect (map (task_result size (part_of answer)) ts) dst
        ≡ (if any_empty size ts then failed 400 "empty" else finished (assemble answer ts dst))
  unfolding collect assemble after_chunk
  collect-assemble size answer [] dst = refl
  collect-assemble size answer (t ∷ ts) dst =
      let rest = map (task_result size (part_of answer)) ts in
      elim (Bool-cases (make_chunk size t.start t.count == 0)) [
        | inl empty ↦ rw empty (
            ap (λ piece. collect (piece ∷ rest) dst)
              (task_result-refused size (part_of answer) t empty))
        | inr some_work ↦ rw some_work (
            ap (λ piece. collect (piece ∷ rest) dst)
              (task_result-replied size (part_of answer) t some_work)
            ∙ collect-assemble size answer ts
                (copy_at t.start (take t.count (drop t.start answer)) dst))
      ]

  -- What stands at `i` once the part from `s` on, of `n` items, is copied in.
  get_elem?-copy_at :
      (s n : ℕ) (answer dst : List A) (i : ℕ)
      → length answer ≡ length dst
      → get_elem? (copy_at s (take n (drop s answer)) dst) i
        ≡ (if leb s i && ltb i (s + n) then get_elem? answer i else get_elem? dst i)
  unfolding copy_at
  get_elem?-copy_at zero zero answer dst i h = ground arith
  get_elem?-copy_at zero (suc n) [] [] i h = ground arith
  get_elem?-copy_at zero (suc n) [] (y ∷ dst) i h = absurd (omega arith)
  get_elem?-copy_at zero (suc n) (x ∷ answer) [] i h = absurd (omega arith)
  get_elem?-copy_at zero (suc n) (x ∷ answer) (y ∷ dst) zero h = ground arith
  get_elem?-copy_at zero (suc n) (x ∷ answer) (y ∷ dst) (suc i) h =
      rw (get_elem?-copy_at zero n answer dst i (omega arith)) (ground arith)
  get_elem?-copy_at (suc s) n [] [] i h = rw (take-nil n) (ground arith)
  get_elem?-copy_at (suc s) n [] (y ∷ dst) i h = absurd (omega arith)
  get_elem?-copy_at (suc s) n (x ∷ answer) [] i h = absurd (omega arith)
  get_elem?-copy_at (suc s) n (x ∷ answer) (y ∷ dst) zero h =
      rw (copy_at-suc s (take n (drop s answer)) y dst) (ground arith)
  get_elem?-copy_at (suc s) n (x ∷ answer) (y ∷ dst) (suc i) h =
      rw
        (
          copy_at-suc s (take n (drop s answer)) y dst,
          get_elem?-copy_at s n answer dst i (omega arith),
        )
        (ground arith)

  get_elem?-assemble :
      (answer : List A) (ts : List Task) (dst : List A) (i : ℕ)
      → length answer ≡ length dst
      → get_elem? (assemble answer ts dst) i
        ≡ (if covered i ts then get_elem? answer i else get_elem? dst i)
  unfolding assemble covered
  get_elem?-assemble answer [] dst i h = refl
  get_elem?-assemble answer (t ∷ ts) dst i h =
      let part = take t.count (drop t.start answer) in
      ground (
        arith,
        get_elem?-assemble answer ts (copy_at t.start part dst) i
            (h ∙ sym (length-copy_at t.start part dst)),
        get_elem?-copy_at t.start t.count answer dst i h,
      )

  get_elem?-none : (xs : List A) (i : ℕ) → length xs ≤ i → get_elem? xs i ≡ none
  get_elem?-none [] i h = refl
  get_elem?-none (x ∷ xs) zero h = absurd (omega arith)
  get_elem?-none (x ∷ xs) (suc i) h = get_elem?-none xs i (omega arith)

  same_items : (xs ys : List A) → ((i : ℕ) → get_elem? xs i ≡ get_elem? ys i) → xs ≡ ys
  same_items [] [] h = refl
  same_items [] (y ∷ ys) h = let clash : none ≡ some y = h 0 in absurd cc
  same_items (x ∷ xs) [] h = let clash : some x ≡ none = h 0 in absurd cc
  same_items (x ∷ xs) (y ∷ ys) h =
      let head : some x ≡ some y = h 0 in
      let front : x ≡ y = cc in rw (front, same_items xs ys (λ i. h (suc i))) refl

-- In whatever order the results of the tasks of a request come in, if the workers answer each task
-- that has work with its part of `answer` and the result has a place for each entry of it, the loop
-- puts together `answer` when no task of the plan has an empty chunk, and fails with the status 400
-- and the message "empty" when one has.
pub collect_any_order {ℓ} :
    {A : Type ℓ} (w : WorkerRef) (ws : List WorkerRef) (answer dst : List A) (arrived : List Task)
    → length answer ≡ length dst
    → Permᴰ arrived (plan (length answer) (w ∷ ws))
    → collect (map (task_result (length answer) (part_of answer)) arrived) dst ≡ (
        if any_empty (length answer) (plan (length answer) (w ∷ ws))
        then failed 400 "empty"
        else finished answer)
collect_any_order w ws answer dst arrived h p =
    rw (← any_empty-perm (length answer) arrived (plan (length answer) (w ∷ ws)) p) (
      subst
        (λ final.
          collect (map (task_result (length answer) (part_of answer)) arrived) dst
          ≡ (if any_empty (length answer) arrived then failed 400 "empty" else finished final))
        (same_items _ answer item) (collect-assemble (length answer) answer arrived dst))
  where
    item : (i : ℕ) → get_elem? (assemble answer arrived dst) i ≡ get_elem? answer i
    item i = elim (Bool-cases (ltb i (length answer))) [
      | inl inside ↦
          let full =
            covered-Tiles i 0 (length answer) (plan (length answer) (w ∷ ws))
              (plan-Tiles (length answer) w ws) (omega arith) (ltb→lt i _ inside) in
          ground (
            arith,
            full,
            covered-perm i arrived (plan (length answer) (w ∷ ws)) p,
            get_elem?-assemble answer arrived dst i h,
          )
      | inr outside ↦ ground (
        arith,
        get_elem?-assemble answer arrived dst i h,
        get_elem?-none answer i (ground arith),
        get_elem?-none dst i (ground arith),
      )
    ]
