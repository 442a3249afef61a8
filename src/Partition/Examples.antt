-- ===== src/Partition/Examples.antt =====
-- Requests cut among workers of partition.go, and the theorems at them.
use mathlib.Core.List.{Permᴰ}
use nfrx.Prelude.Text.{append}
use nfrx.Partition.Once.{
  proxy_once, Arrival, Returned, Succeeds, chunk_of, chunks_of, end_with, headers_with, idle_timer,
  proxy_once-Succeeds, returned,
}
use nfrx.Partition.Collect.{collect, collect_any_order, task_result, part_of, any_empty}
use nfrx.Prelude.{
  ℕ, List, [], arith, drop, pos, refl, some, take, ◌∷◌, ◌≡◌, false, map, none, true, if◌then◌else◌,
}
use nfrx.Partition.{
  make_chunk, failed, Proxied, WorkerRef, choose_workers, finished, goes_before, plan, replied,
  run_batches, Task,
}
use nfrx.Partition.Starved.{unit_worker}
use nfrx.Partition.Batches.{run_batches_assembles}

abbrev large : WorkerRef
large = record {
  id = "a";
  in_flight = 0;
  preferred_batch_size = pos 100;
  desired_chunk_size = pos 100;
}

abbrev crowd : List WorkerRef
crowd = unit_worker "b" ∷ large ∷ unit_worker "c" ∷ []

chosen : choose_workers (pos 8) 3 crowd ≡ large ∷ unit_worker "b" ∷ unit_worker "c" ∷ []
unfolding choose_workers goes_before
chosen = refl

abbrev answer : List ℕ
answer = 7 ∷ 8 ∷ 9 ∷ []

abbrev honest : ℕ → ℕ → Proxied (List ℕ)
honest at n = replied (take n (drop at answer))

run_batches_assembles_example : run_batches honest (pos 2) 3 4 0 (0 ∷ 0 ∷ 0 ∷ []) ≡ finished answer
run_batches_assembles_example =
    run_batches_assembles honest (pos 2) 4 0 answer (0 ∷ 0 ∷ 0 ∷ []) (λ at n. refl) refl
      (omega arith) (omega arith)

-- Two tasks that are answered in another order than they were cut.
abbrev swapped_tasks : List Task
swapped_tasks = record { start = 2; count = 1 } ∷ record { start = 0; count = 2 } ∷ []

cut_large :
    plan 3 (large ∷ unit_worker "b" ∷ [])
    ≡ record { start = 0; count = 2 } ∷ record { start = 2; count = 1 } ∷ []
unfolding plan
cut_large = refl

swapped : Permᴰ swapped_tasks (plan 3 (large ∷ unit_worker "b" ∷ []))
swapped = rw cut_large (Permᴰ.swap refl refl)

collect_any_order_example :
    collect (map (task_result 3 (part_of answer)) swapped_tasks) (0 ∷ 0 ∷ 0 ∷ []) ≡ (
      if any_empty 3 (plan 3 (large ∷ unit_worker "b" ∷ []))
      then failed 400 "empty"
      else finished answer)
collect_any_order_example =
    collect_any_order large (unit_worker "b" ∷ []) answer (0 ∷ 0 ∷ 0 ∷ []) swapped_tasks refl
      swapped

all_work : any_empty 3 (plan 3 (large ∷ unit_worker "b" ∷ [])) ≡ false
unfolding plan make_chunk
all_work = refl

-- With a third worker the last task has nothing to do.
one_idle : any_empty 3 (plan 3 (large ∷ unit_worker "b" ∷ unit_worker "c" ∷ [])) ≡ true
unfolding plan make_chunk
one_idle = refl

abbrev two_parts : List Arrival
two_parts =
    idle_timer (pos 3) ∷ headers_with 200 ∷ chunk_of "[1," ∷ chunk_of "2]" ∷ end_with none ∷ []

abbrev whole : Returned
whole = record {
  body = "[1,2]";
  code = 200;
  ok = true;
  err_msg = "";
  recorded = some (true, 2);
  cancels = 0;
}

whole_returned : proxy_once true (pos 5) 2 two_parts ≡ returned whole
unfolding proxy_once append
whole_returned = refl

proxy_once-Succeeds_example : Succeeds 2 (chunks_of two_parts) whole
proxy_once-Succeeds_example = proxy_once-Succeeds true (pos 5) 2 two_parts whole whole_returned refl

-- A worker that has been silent for longer than the timeout.
silent :
    proxy_once true (pos 5) 2 (idle_timer (pos 6) ∷ two_parts)
    ≡ returned (record {
      body = "";
      code = 504;
      ok = false;
      err_msg = "timeout";
      recorded = some (false, 0);
      cancels = 1;
    })
unfolding proxy_once
silent = refl
