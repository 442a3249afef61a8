-- ===== src/Agent/Drain.antt =====
-- How draining starts, stops and ends: drain/state.go, the callbacks of run.go, and what a connection
-- and the end of a job do.
use nfrx.Prelude.{ℕ, suc, ◌-◌, String, [], false, if◌then◌else◌, ltb, pos, true, ◌&&◌, ◌==◌, ◌∷◌}
use nfrx.Agent.State.{
  Agent, StatusUpdate, inc_jobs, send_status_update, set_connected_to_server, set_last_error,
  set_state, set_worker_info,
}
use nfrx.Agent.Probe.{Config}

-- checkDrain, if it is registered
unfoldable pub check_drain : Agent → Agent
check_drain a =
    if a.listening && a.draining && a.current_jobs == 0
    then record a { state = "terminating"; listening = false; canceled = true }
    else a

unfoldable pub draining_update : StatusUpdate
draining_update = record {
  max_concurrency = pos 0;
  models = [];
  status = "draining";
  agent_config = [];
}

unfoldable pub status_after : Agent → String
status_after a =
    if a.connected_to_server
    then (if ltb 0 a.current_jobs then "connected_busy" else "connected_idle")
    else "disconnected"

-- What that function does before its check of the end, while draining.
unfoldable pub announce_drain : Config → Agent → Agent
unfolding set_state set_worker_info send_status_update draining_update
announce_drain cfg a =
    send_status_update draining_update
      (set_worker_info cfg.client_id cfg.client_name (pos 0) (set_state "draining" a))

-- The function that Run passes to dr.OnCheck.
unfoldable pub on_check : Config → Agent → Agent
unfolding set_state send_status_update check_drain announce_drain status_after
on_check cfg a =
    if a.draining
    then check_drain (announce_drain cfg a)
    else send_status_update
        (record {
          max_concurrency = a.max_concurrency;
          models = [];
          status = "idle";
          agent_config = [];
        })
        (set_state (status_after a) a)

-- drain.Start and drain.Stop
unfoldable pub drain_start : Config → Agent → Agent
unfolding on_check
drain_start cfg a = on_check cfg (record a { draining = true })

unfoldable pub drain_stop : Config → Agent → Agent
unfolding on_check
drain_stop cfg a = on_check cfg (record a { draining = false })

-- StartDrain
unfoldable pub start_drain : Config → Agent → Agent
unfolding drain_start check_drain set_state
start_drain cfg a = check_drain (drain_start cfg (set_state "draining" a))

-- connectAndServe up to the loop, once the dial and the registration have succeeded.
unfoldable pub connect : Agent → Agent
unfolding set_connected_to_server set_state set_last_error check_drain
connect a =
    check_drain
      (record (set_last_error "" (set_state "connected_idle" (set_connected_to_server true a))) {
        listening = true;
      })

-- The end of the loop by a read that fails.
unfoldable pub disconnect : String → Agent → Agent
unfolding set_connected_to_server set_last_error set_state
disconnect e a =
    let off = record (set_connected_to_server false a) { listening = false } in
    if off.draining then off else set_state "error" (set_last_error e off)

-- The agent, and how many requests the loop has let pass whose goroutines have not counted them yet.
pub record Serving : Type 0 where
  pub agent : Agent
  pub started : ℕ

-- What the loop does with a request: refused while draining, and handed to a new goroutine otherwise.
unfoldable pub accept_request : Serving → Serving
accept_request s = if s.agent.draining then s else record s { started = suc s.started }

-- IncJobs at the start of such a goroutine, which may come late.
unfoldable pub begin_job : Serving → Serving
unfolding inc_jobs
begin_job s =
    if s.started == 0 then s else record s { agent = inc_jobs s.agent; started = s.started - 1 }

-- What the timer of /control/drain runs, with the function that StartStatusServer wraps.
unfoldable pub drain_expires : Agent → Agent
drain_expires a =
    if a.draining then record a { state = "terminating"; listening = false; canceled = true } else a

-- statusUpdates is read by the connection.
unfoldable pub take_update : Agent → Agent
take_update a = elim (a.updates) [ [] ↦ a | update ∷ rest ↦ record a { updates = rest } ]
