-- ===== src/Partition/Pool/Examples.antt =====
-- A request of partition.go whose three tasks share three workers, and the theorems at it.
use nfrx.Prelude.{
  All, List, String, [], arith, false, none, refl, some, true, ◌*◌, ◌∷◌, ◌≡◌, ◌≢◌, ◌≤◌, ◌⊎◌,
  contains,
}
use nfrx.Partition.{Task, make_chunk}
use nfrx.Partition.Pool.{turn, Turned, Pool, Shared, blocked, ended, new_pool, scans, sends_to}
use nfrx.Partition.Pool.Turns.{total, Step, Steps, here, later, takes_turn}
use nfrx.Partition.Pool.Owners.{holds, Keeps}
use nfrx.Partition.Pool.Bounded.{turns_bounded, Steps-Exclusive}
use nfrx.Partition.Pool.Progress.{never_stuck, Ended}
use nfrx.Partition.Pool.Stranded.{never_gives_up}

abbrev first_task : Task
first_task = record { start = 0; count = 2 }

abbrev second_task : Task
second_task = record { start = 2; count = 1 }

abbrev no_task : Task
no_task = record { start = 3; count = 0 }

abbrev two : List String
two = "a" ∷ "b" ∷ []

abbrev two_tasks : List Task
two_tasks = first_task ∷ second_task ∷ []

abbrev begun : Pool
begun = record {
  runners =
      record { task = first_task; attempted = []; phase = sends_to "a" }
      ∷ record { task = second_task; attempted = []; phase = sends_to "b" }
      ∷ [];
  shared = record { used = two; token = false };
}

-- "a" refuses the first task.
abbrev refused_once : Turned
refused_once = record {
  attempted = "a" ∷ [];
  phase = scans;
  shared = record { used = "b" ∷ []; token = true };
}

abbrev after_refusal : Pool
after_refusal = record {
  runners =
      record { task = first_task; attempted = "a" ∷ []; phase = scans }
      ∷ record { task = second_task; attempted = []; phase = sends_to "b" }
      ∷ [];
  shared = record { used = "b" ∷ []; token = true };
}

refuses : turn 3 two false first_task [] begun.shared (sends_to "a") ≡ some refused_once
unfolding turn contains
refuses = refl

one_turn : Steps 3 two (new_pool two two_tasks) 1 after_refusal
unfolding new_pool
one_turn = later here (takes_turn [] _ _ false refused_once refl refuses refl)

turns_bounded_example : 1 ≤ 2 * (2 * 4)
unfolding contains
turns_bounded_example =
    turns_bounded 3 two two_tasks 1 after_refusal refl (refl, (refl, tt)) one_turn

Steps-Exclusive_example :
    ((w : String) → total (holds w) after_refusal.runners ≤ 1)
    × All (Keeps 3 2) after_refusal.runners
unfolding contains
Steps-Exclusive_example =
    Steps-Exclusive 3 two two_tasks 1 after_refusal refl (refl, (refl, tt)) one_turn

-- The item of `cond` is taken by the runner that put it, which then waits for "b".
waits_for_b :
    turn 3 two true first_task ("a" ∷ []) (record { used = "b" ∷ []; token = false }) scans
    ≡ some (record {
      attempted = "a" ∷ [];
      phase = blocked;
      shared = record { used = "b" ∷ []; token = false };
    })
unfolding turn contains
waits_for_b = refl

never_stuck_example : All Ended after_refusal.runners ⊎ ((r : Pool) × Step 3 two after_refusal r)
unfolding make_chunk contains
never_stuck_example =
    never_stuck 3 two two_tasks 1 after_refusal refl (refl, (refl, tt))
      (omega arith, (omega arith, tt)) one_turn

abbrev three : List String
three = "a" ∷ "b" ∷ "c" ∷ []

abbrev stranding : Pool
stranding = record {
  runners =
      record { task = first_task; attempted = "a" ∷ []; phase = scans }
      ∷ record { task = second_task; attempted = []; phase = sends_to "b" }
      ∷ record { task = no_task; attempted = []; phase = sends_to "c" }
      ∷ [];
  shared = record { used = "b" ∷ "c" ∷ []; token = true };
}

refuses_first :
    turn 3 three false first_task [] (record { used = three; token = false }) (sends_to "a")
    ≡ some (record { attempted = "a" ∷ []; phase = scans; shared = stranding.shared })
unfolding turn contains
refuses_first = refl

stranding_turn :
    Steps 3 three (new_pool three (first_task ∷ second_task ∷ no_task ∷ [])) 1 stranding
unfolding new_pool
stranding_turn = later here (takes_turn [] _ _ false _ refl refuses_first refl)

never_gives_up_example : All (λ x. x.phase ≢ ended false) stranding.runners
unfolding make_chunk contains
never_gives_up_example =
    never_gives_up 3 two "c" two_tasks no_task 1 stranding refl (refl, (refl, tt)) refl refl
      stranding_turn

-- Both other workers have refused both tasks: each waits for "c", and nobody can wake it.
abbrev stranded : Shared
stranded = record { used = "c" ∷ []; token = false }

for_ever_first : turn 3 three true first_task ("b" ∷ "a" ∷ []) stranded blocked ≡ none
unfolding turn contains
for_ever_first = refl

for_ever_scan :
    turn 3 three true second_task ("a" ∷ "b" ∷ []) stranded scans
    ≡ some (record { attempted = "a" ∷ "b" ∷ []; phase = blocked; shared = stranded })
unfolding turn contains
for_ever_scan = refl
