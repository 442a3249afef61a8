-- ===== src/Workers/Examples.antt =====
-- Workers, the scheduler and the registry at them.
use mathlib.Core.List.{Memᴰ}
use nfrx.Prelude.{
  ℕ, List, String, [], arith, pos, refl, some, ◌<◌, ◌∷◌, ◌≡◌, ◌≤◌, ◌⊎◌, contains, occurrences, true,
}
use nfrx.Workers.{Worker, alias_score, has_capacity, pick_worker, consider, has_label, is_eligible}
use nfrx.Alias.{alias_key}
use nfrx.Prelude.Dict.{Dict, lookup, insert}
use nfrx.Workers.Registry.{
  Store, register, add_job, modify, new_store, remove, remove_job, find_job, panicked, send_on,
  take_out,
}
use nfrx.Workers.LateSends.{late_send_panics}
use nfrx.Workers.Steps.{
  Reach, adds_job, after, closed_once, registers, removes, removes_job, start, takes_out,
}
use nfrx.Workers.Pick.{pick_worker_best}

abbrev worker : String → ℕ → String → Worker
worker id in_flight label = record {
  id = id;
  labels = label ∷ [];
  max_concurrency = pos 4;
  preferred_batch_size = pos 0;
  in_flight = in_flight;
  last_heartbeat = 0;
  send = 0;
  jobs = [];
}

abbrev crew : List Worker
crew =
    worker "a" 1 "llama:8b-q8"
    ∷ worker "b" 3 "llama:8b-q4"
    ∷ worker "c" 2 "llama:8b-q4"
    ∷ worker "d" 4 "llama:8b-q4"
    ∷ worker "e" 0 "qwen:1b"
    ∷ []

abbrev task : String
task = "llama:8b-q4"

picked : pick_worker (alias_score task) 1 (λ w. w.in_flight) crew ≡ some (worker "c" 2 task)
unfolding pick_worker alias_score consider is_eligible has_capacity has_label contains alias_key
picked = refl

pick_worker_best_example :
    (w : Worker) × (pick_worker (alias_score task) 1 (λ w. w.in_flight) crew ≡ some w)
    × Memᴰ w crew
    × (has_capacity w ≡ true)
    × (1 ≤ alias_score task w)
    × ((50 < alias_score task w) ⊎ ((50 ≡ alias_score task w) × (w.in_flight ≤ 1)))
unfolding pick_worker alias_score consider is_eligible has_capacity has_label contains alias_key
pick_worker_best_example =
    pick_worker_best (alias_score task) 1 (λ w. w.in_flight) crew (worker "a" 1 "llama:8b-q8")
      (Memᴰ.head refl) refl (omega arith)

abbrev one_worker : Store
one_worker = register "a" (task ∷ []) (pos 2) (pos 0) 5 new_store

abbrev one_job : Store
one_job = add_job 0 "job" one_worker

one_worker-Reach : Reach one_worker
one_worker-Reach = after start (registers "a" (task ∷ []) (pos 2) (pos 0) 5)

one_job-Reach : Reach one_job
one_job-Reach = after one_worker-Reach (adds_job 0 "job")

closed_once_example : occurrences 1 (remove "a" (remove_job 0 "job" one_job)).closed ≤ 1
closed_once_example =
    closed_once (remove "a" (remove_job 0 "job" one_job)) 1
      (after (after one_job-Reach (removes_job 0 "job")) (removes "a"))

abbrev made : ℕ → Dict ℕ → Worker
made now jobs = record {
  id = "a";
  labels = task ∷ [];
  max_concurrency = pos 2;
  preferred_batch_size = pos 0;
  in_flight = 0;
  last_heartbeat = now;
  send = 0;
  jobs = jobs;
}

abbrev last_taken : Store
last_taken = take_out 0 "last" (add_job 0 "job" (add_job 0 "last" one_worker))

last_taken-Reach : Reach last_taken
last_taken-Reach =
    after (after (after one_worker-Reach (adds_job 0 "last")) (adds_job 0 "job"))
      (takes_out 0 "last")

late_send_panics_example :
    (find_job 0 "job" one_job ≡ some 1)
    × (send_on 1 (remove_job 0 "job" one_job) ≡ panicked)
    × (send_on 0 (remove "a" one_job) ≡ panicked)
unfolding register lookup insert add_job modify
late_send_panics_example =
    late_send_panics one_job "a" "job" 0 1 (made 5 (("job", 1) ∷ [])) refl refl refl
