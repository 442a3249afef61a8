-- ===== src/Partition/Starved.antt =====
-- When a worker of partition.go gets no input at all, and what that does to the request.
use native.Mathlib.Nat.{add-mul-div_left, div-eq_of_lt}
use nfrx.Prelude.{ℕ, String, [], arith, pos, refl, some, ◌+◌, ◌∷◌, ◌≡◌, ◌*◌, ◌/◌, suc}
use nfrx.Partition.{WorkerRef, begin_task, plan}

abbrev pub unit_worker : String → WorkerRef
unit_worker id = record {
  id = id;
  in_flight = 0;
  preferred_batch_size = pos 1;
  desired_chunk_size = pos 1;
}

third : (n : ℕ) → 3 * suc (n + 3) / (suc (n + 3) + 2) ≡ 2
third n =
    let e : 3 * suc (n + 3) ≡ n + (suc (n + 3) + 2) * 2 = omega arith in
    rw
      (
        e,
        add-mul-div_left n 2 {y = suc (n + 3) + 2} (omega arith),
        div-eq_of_lt {n = n} {m = suc (n + 3) + 2} (omega arith),
      )
      (omega arith)

-- Three inputs for three workers, of which the first wishes for at least four and the others for
-- one: the first two tasks take all inputs, the third is empty, and the empty chunk makes its
-- worker answer 400 for the whole request.
pub third_worker_starved :
    (w : WorkerRef) (n : ℕ)
    → w.desired_chunk_size ≡ pos (suc (n + 3))
    → let tasks = plan 3 (w ∷ unit_worker "b" ∷ unit_worker "c" ∷ []) in
      (tasks
        ≡ record { start = 0; count = 2 }
          ∷ record { start = 2; count = 1 }
          ∷ record { start = 3; count = 0 }
          ∷ [])
      × (begin_task 3 (record { start = 3; count = 0 }) ≡ some (400, "empty"))
unfolding plan begin_task
third_worker_starved w n h = (rw (h, plan) (ground (arith, third n)), refl)
