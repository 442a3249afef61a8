-- ===== src/Agent/Probe.antt =====
-- probeBackend of workerproxy/run.go, and what Run does without a probe.
use nfrx.Prelude.{
  Bool, List, Option, String, [], false, if◌then◌else◌, none, not, pos, some, str_eq, true, ℤ, ◌&&◌,
  ◌==◌, ◌||◌, ◌∷◌,
}
use nfrx.Agent.State.{
  Agent, StatusUpdate, merge_agent_config, send_status_update, set_connected_to_backend,
  set_connected_to_server, set_labels, set_last_error, set_state, set_worker_info,
}
use nfrx.Prelude.Dict.{Dict}
use nfrx.Prelude.Int.{leb_ℤ, ltb_ℤ}

-- The part of Config that is read here.
pub record Config : Type 0 where
  pub client_id : String
  pub client_name : String
  pub max_concurrency : ℤ

-- ProbeResult
pub record ProbeResult : Type 0 where
  pub ready : Bool
  pub models : List String
  pub max_concurrency : ℤ
  pub agent_config : Dict String

unfoldable pub not_ready_update : StatusUpdate
not_ready_update = record {
  max_concurrency = pos 0;
  models = [];
  status = "not_ready";
  agent_config = [];
}

-- The branch of a probe that fails; `none` is a backend that answers that it is not ready.
unfoldable pub on_probe_failed : Config → Option String → Agent → Agent
unfolding set_connected_to_backend set_worker_info set_labels set_state set_last_error
    send_status_update not_ready_update
on_probe_failed cfg error a =
    let down = set_state "not_ready" (
      set_labels [] (
        set_worker_info cfg.client_id cfg.client_name (pos 0)
          (set_connected_to_backend false a))) in
    send_status_update not_ready_update
      (elim error [ some e ↦ set_last_error e down | none ↦ down ])

unfoldable pub same_texts : List String → List String → Bool
same_texts [] [] = true
same_texts (x ∷ xs) (y ∷ ys) = str_eq x y && same_texts xs ys
same_texts xs ys = false

unfoldable pub equal_ℤ : ℤ → ℤ → Bool
equal_ℤ a b = leb_ℤ a b && leb_ℤ b a

-- The concurrency that is advertised: that of the probe if it gives one.
unfoldable pub advertised : Config → ProbeResult → ℤ
advertised cfg res =
    if ltb_ℤ (pos 0) res.max_concurrency then res.max_concurrency else cfg.max_concurrency

unfoldable pub idle_if_free : Agent → Agent
unfolding set_state
idle_if_free a =
    if a.connected_to_server && not a.draining && a.current_jobs == 0
    then set_state "connected_idle" a
    else a

-- Connectivity, models, concurrency or the configuration differ from `before`.
unfoldable pub has_changed : Agent → Bool → Agent → Bool
unfolding same_texts equal_ℤ
has_changed before config_changed a =
    not before.connected_to_backend
    || not (same_texts a.labels before.labels)
    || not (equal_ℤ before.max_concurrency a.max_concurrency)
    || config_changed

-- What a probe that is ready makes of the state, before anything is sent.
unfoldable pub made_ready : Config → ProbeResult → Agent → Agent
unfolding merge_agent_config set_connected_to_backend set_worker_info set_labels idle_if_free
    set_last_error advertised
made_ready cfg res a = set_last_error "" (
    idle_if_free (
      set_labels res.models (
        set_worker_info cfg.client_id cfg.client_name (advertised cfg res)
          (set_connected_to_backend true (merge_agent_config res.agent_config a).0))))

unfoldable pub ready_update : ProbeResult → Agent → StatusUpdate
ready_update res a = record {
  max_concurrency = a.max_concurrency;
  models = a.labels;
  status = "idle";
  agent_config = res.agent_config;
}

unfoldable pub on_probe_ready : Config → ProbeResult → Agent → Agent
unfolding made_ready has_changed ready_update send_status_update merge_agent_config
on_probe_ready cfg res a =
    let now = made_ready cfg res a in
    if has_changed a (merge_agent_config res.agent_config a).1 now
    then send_status_update (ready_update res now) now
    else now

pub data Probed : Type 0 where
  failed : String → Probed
  answers : ProbeResult → Probed

-- probeBackend with a probe
unfoldable pub probe_backend : Config → Probed → Agent → Agent
unfolding on_probe_failed on_probe_ready
probe_backend cfg (failed e) a = on_probe_failed cfg (some e) a
probe_backend cfg (answers res) a =
    if res.ready then on_probe_ready cfg res a else on_probe_failed cfg none a

-- What Run does when no probe is configured.
unfoldable pub without_probe : Config → Agent → Agent
unfolding set_connected_to_backend set_worker_info set_labels set_last_error
without_probe cfg a = set_last_error "" (
    set_labels [] (
      set_worker_info cfg.client_id cfg.client_name cfg.max_concurrency
        (set_connected_to_backend true a)))

-- The first assignments of Run
unfoldable pub start_run : Config → Agent → Agent
unfolding set_worker_info set_state set_connected_to_server set_connected_to_backend
start_run cfg a = set_connected_to_backend false (
    set_connected_to_server false
      (set_state "not_ready" (set_worker_info cfg.client_id cfg.client_name (pos 0) a)))
