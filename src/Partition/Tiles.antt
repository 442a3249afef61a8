-- ===== src/Partition/Tiles.antt =====
-- The cut of a request among several workers in partition.go.
use nfrx.Prelude.{ℕ, List, [], arith, map, refl, subst, ◌+◌, ◌-◌, ◌∷◌, ◌≡◌, ◌≤◌}
use nfrx.Partition.{cut, Task, WorkerRef, plan, portion, sum, weight}

-- The tasks follow one another from `from` to `to` without a gap or an overlap.
abbrev pub Tiles : ℕ → List Task → ℕ → Type 0
Tiles from [] to = from ≡ to
Tiles from (t ∷ ts) to = (t.start ≡ from) × Tiles (from + t.count) ts to

portion-le : (remaining w rem_w : ℕ) → portion remaining w rem_w ≤ remaining
unfolding portion
portion-le remaining w rem_w = ground arith

cut-Tiles :
    (remaining rem_w offset w : ℕ) (ws : List ℕ)
    → Tiles offset (cut remaining rem_w offset (w ∷ ws)) (offset + remaining)
unfolding cut
cut-Tiles remaining rem_w offset w [] = (refl, refl)
cut-Tiles remaining rem_w offset w (v ∷ ws) =
    let p = portion remaining w rem_w in
    let e : offset + p + (remaining - p) ≡ offset + remaining =
      omega (arith, portion-le remaining w rem_w) in
    (
      refl,
      subst (Tiles (offset + p) (cut (remaining - p) (rem_w - w) (offset + p) (v ∷ ws))) e
          (cut-Tiles (remaining - p) (rem_w - w) (offset + p) v ws),
    )

-- For at least one worker, whatever their weights, the tasks cover the inputs from the first to
-- the last, each once and in order.
pub plan-Tiles :
    (size : ℕ) (w : WorkerRef) (ws : List WorkerRef) → Tiles 0 (plan size (w ∷ ws)) size
unfolding plan
plan-Tiles size w ws =
    subst (Tiles 0 (plan size (w ∷ ws))) (omega arith)
      (cut-Tiles size (sum (map (weight size) (w ∷ ws))) 0 (weight size w) (map (weight size) ws))
