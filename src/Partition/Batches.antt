-- ===== src/Partition/Batches.antt =====
-- The loop of the single worker in partition.go.
use nfrx.Prelude.{
  ℕ, List, arith, negsuc, pos, suc, zero, ℤ, ◌+◌, ◌-◌, ◌<◌, ◌≢◌, ◌≤◌, drop, length, take, ◌++◌, ◌∙◌,
  ◌≡◌, ap, sym,
}
use native.Mathlib.Decide.{dec_lt}
use mathlib.Core.List.{append-nil}
use nfrx.Partition.Assembly.{copy_at-take, take-all, drop-all}
use nfrx.Partition.{
  Proxied, batch_size, make_chunk, out_of_fuel, run_batches, Finished, copy_at, finished, refused,
  replied, after_chunk,
}

-- While inputs remain, a chunk is not empty and does not pass their end.
chunk_bounds :
    (preferred : ℤ) (size start : ℕ)
    → start < size
    → (0 < make_chunk size start (batch_size preferred (size - start)))
      × (start + make_chunk size start (batch_size preferred (size - start)) ≤ size)
unfolding make_chunk batch_size
chunk_bounds (pos zero) size start h = ground arith
chunk_bounds (pos (suc n)) size start h = ground arith
chunk_bounds (negsuc n) size start h = ground arith

after_chunk-ne-out_of_fuel {ℓ} :
    {A : Type ℓ} (next : List A → Finished A) (r : Proxied (List A))
    → ((body : List A) → next body ≢ out_of_fuel)
    → after_chunk next r ≢ out_of_fuel
unfolding after_chunk
after_chunk-ne-out_of_fuel next (replied body) h = h body
after_chunk-ne-out_of_fuel next (refused status message) h = λ e. cc

-- A round at a place before the end: a chunk that is not empty is sent.
round {ℓ} :
    {A : Type ℓ} (send : ℕ → ℕ → Proxied (List A)) (preferred : ℤ) (size fuel start : ℕ)
    (final : List A)
    → start < size
    → let n = make_chunk size start (batch_size preferred (size - start)) in
      run_batches send preferred size (suc fuel) start final
      ≡ after_chunk
          (λ body. run_batches send preferred size fuel (start + n) (copy_at start body final))
          (send start n)
unfolding run_batches
round send preferred size fuel start final h = ground (arith, chunk_bounds preferred size start h)

stop {ℓ} :
    {A : Type ℓ} (send : ℕ → ℕ → Proxied (List A)) (preferred : ℤ) (size fuel start : ℕ)
    (final : List A)
    → size ≤ start
    → run_batches send preferred size (suc fuel) start final ≡ finished final
unfolding run_batches
stop send preferred size fuel start final h = ground arith

-- With fuel above the number of inputs left the loop ends, whatever the worker answers.
pub run_batches_ends {ℓ} :
    {A : Type ℓ} (send : ℕ → ℕ → Proxied (List A)) (preferred : ℤ) (size fuel start : ℕ)
    (final : List A)
    → size - start < fuel
    → run_batches send preferred size fuel start final ≢ out_of_fuel
run_batches_ends send preferred size zero start final h = elim h [ ]
run_batches_ends send preferred size (suc fuel) start final h = elim (dec_lt start size) [
  | no past ↦ rw (stop send preferred size fuel start final (omega arith)) (λ e. cc)
  | yes before ↦ rw (round send preferred size fuel start final before) (
      after_chunk-ne-out_of_fuel _ _ (λ body.
        run_batches_ends send preferred size fuel _ (copy_at start body final)
          (omega (arith, chunk_bounds preferred size start before))))
]

-- Whatever batch size the worker prefers, if it answers each chunk with the entries of `answer` at
-- the places of the chunk, the loop ends within one round for each input and one more, and what
-- is put together is `answer`.
pub run_batches_assembles {ℓ} :
    {A : Type ℓ} (send : ℕ → ℕ → Proxied (List A)) (preferred : ℤ) (fuel start : ℕ)
    (answer blank : List A)
    → ((at n : ℕ) → send at n ≡ replied (take n (drop at answer)))
    → length blank ≡ length answer
    → start ≤ length answer
    → length answer - start < fuel
    → run_batches send preferred (length answer) fuel start (take start answer ++ drop start blank)
      ≡ finished answer
unfolding after_chunk
run_batches_assembles send preferred zero start answer blank right size s h = elim h [ ]
run_batches_assembles send preferred (suc fuel) start answer blank right size s h =
    elim (dec_lt start (length answer)) [
      | no past ↦
          stop send preferred (length answer) fuel start _ (omega arith)
          ∙ ap finished (
              rw (take-all start answer (omega arith), drop-all start blank (omega arith))
                (append-nil answer))
      | yes before ↦
          let n = make_chunk (length answer) start (batch_size preferred (length answer - start)) in
          rw
            (
              round send preferred (length answer) fuel start
                  (take start answer ++ drop start blank) before,
              right start n,
            )
            (rw (copy_at-take start n answer blank (sym size)) (
              run_batches_assembles send preferred fuel (start + n) answer blank right size
                (chunk_bounds preferred (length answer) start before).1
                (omega (arith, chunk_bounds preferred (length answer) start before))))
    ]
