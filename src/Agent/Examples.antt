-- ===== src/Agent/Examples.antt =====
-- The theorems on the worker agent at concrete inputs.
use nfrx.Prelude.{
  List, [], arith, pos, refl, true, ◌++◌, ◌∷◌, ◌≡◌, false, ◌≤◌, length, none, replicate, some, ◌*◌,
}
use nfrx.Agent.State.{Agent, new_agent}
use nfrx.Agent.Probe.{Config, ProbeResult}
use nfrx.Agent.Reconnect.{delay, monitor, Attempt, run_with_reconnect, second}
use nfrx.Agent.Backoff.{delays, waits_bounded}
use nfrx.Agent.Draining.{
  is_announced, is_checked, job_ends, play, request_comes, Event, comes_to_end, drain_ends, is_lost,
  job_begins, update_taken,
}
use nfrx.Agent.Concurrency.{Call, connects, is_read, loses, undrains}

abbrev two_places : Config
two_places = record { client_id = "w"; client_name = "name"; max_concurrency = pos 2 }

abbrev one_job : Agent
one_job = record new_agent {
  connected_to_server = true;
  current_jobs = 1;
  max_concurrency = pos 2;
  state = "connected_busy";
  listening = true;
}

abbrev told_to_drain : Agent
told_to_drain = record one_job { draining = true }

-- The started request is counted between the end of the other job and its check.
abbrev drain_events : List Event
drain_events =
    is_announced
    ∷ is_checked
    ∷ request_comes
    ∷ job_ends
    ∷ job_begins
    ∷ is_checked
    ∷ update_taken
    ∷ job_ends
    ∷ is_checked
    ∷ is_lost "lost"
    ∷ []

both_waited_for : comes_to_end drain_events 1 1 true ≡ true
both_waited_for = refl

not_yet : comes_to_end (job_ends ∷ job_begins ∷ is_checked ∷ []) 1 1 true ≡ false
not_yet = refl

lost_before : comes_to_end (is_lost "lost" ∷ job_ends ∷ is_checked ∷ []) 1 0 true ≡ false
lost_before = refl

-- The request was let pass before the flag was set, and its goroutine has not counted it yet: the
-- first check cancels the run.
cut_off :
    (play two_places
      (is_announced ∷ is_checked ∷ job_begins ∷ [])
      (record { agent = record told_to_drain { current_jobs = 0 }; started = 1 })).agent.canceled
    ≡ true
cut_off =
    drain_ends two_places (record told_to_drain { current_jobs = 0 }) 1
      (is_announced ∷ is_checked ∷ job_begins ∷ []) refl refl refl

abbrev calls : List Call
calls = is_read ∷ undrains ∷ is_read ∷ loses "lost" ∷ connects ∷ []

abbrev found : ProbeResult
found = record { ready = true; models = "llama" ∷ []; max_concurrency = pos 2; agent_config = [] }

abbrev shut_down : Agent
shut_down = record one_job { draining = true; max_concurrency = pos 0; state = "draining" }

abbrev two_attempts : List Attempt
two_attempts =
    record { error = some "lost"; is_done = false } ∷ record { error = none; is_done = false } ∷ []

waits_bounded_example :
    (second ≤ delay 1)
    × (delay 1 ≤ delay 4)
    × (delay 4 ≤ 30 * second)
    × ((run_with_reconnect true two_attempts 0).0
        ≡ delays 0 (length (run_with_reconnect true two_attempts 0).0))
    × (monitor 20 (false ∷ true ∷ replicate 4 false) 0
        ≡ monitor 20 (false ∷ []) 0 ++ 20 ∷ delays 0 4)
waits_bounded_example = waits_bounded 20 1 4 0 true two_attempts (false ∷ []) (omega arith)

attempts_example : (run_with_reconnect true two_attempts 0).0 ≡ second ∷ []
unfolding run_with_reconnect
attempts_example = refl
