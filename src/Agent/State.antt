-- ===== src/Agent/State.antt =====
-- The state of workerproxy/state.go, and the flag of drain/state.go.
use nfrx.Prelude.{
  ℕ, Bool, List, String, [], false, if◌then◌else◌, length, ltb, none, not, pos, some, str_eq, suc,
  true, ℤ, ◌&&◌, ◌++◌, ◌-◌, ◌==◌, ◌∷◌,
}
use nfrx.Prelude.Dict.{Dict, lookup, insert}

-- ctrl.StatusUpdateMessage
pub record StatusUpdate : Type 0 where
  pub max_concurrency : ℤ
  pub models : List String
  pub status : String
  pub agent_config : Dict String

-- `draining` is the flag of the package drain; the copy in state.go is never read. `updates` is what
-- the channel statusUpdates holds, `listening` tells whether the check of a live connection is
-- registered, `canceled` whether that check or the timer of a drain has canceled the run. LastHeartbeat is left out.
pub record Agent : Type 0 where
  pub state : String
  pub connected_to_server : Bool
  pub connected_to_backend : Bool
  pub current_jobs : ℕ
  pub max_concurrency : ℤ
  pub last_error : String
  pub worker_id : String
  pub worker_name : String
  pub version : String
  pub agent_config : Dict String
  pub labels : List String
  pub draining : Bool
  pub updates : List StatusUpdate
  pub listening : Bool
  pub canceled : Bool

abbrev pub new_agent : Agent
new_agent = record {
  state = "disconnected";
  connected_to_server = false;
  connected_to_backend = false;
  current_jobs = 0;
  max_concurrency = pos 0;
  last_error = "";
  worker_id = "";
  worker_name = "";
  version = "";
  agent_config = [];
  labels = [];
  draining = false;
  updates = [];
  listening = false;
  canceled = false;
}

unfoldable pub set_build_info : String → Agent → Agent
set_build_info version a = record a { version = version }

-- SetAgentConfig; a map without entries and nil are not told apart.
unfoldable pub set_agent_config : Dict String → Agent → Agent
set_agent_config config a = record a { agent_config = config }

-- cur, ok := m[k]; ok && cur == v
unfoldable pub has_entry : String → String → Dict String → Bool
has_entry k v dict = elim (lookup k dict) [ some cur ↦ str_eq cur v | none ↦ false ]

-- The loop of MergeAgentConfig: the map afterwards, and `changed`.
unfoldable pub merge_entries : Dict String → Dict String × Bool → Dict String × Bool
unfolding has_entry
merge_entries [] (dict, changed) = (dict, changed)
merge_entries ((k, v) ∷ rest) (dict, changed) =
    merge_entries rest (if has_entry k v dict then (dict, changed) else (insert k v dict, true))

unfoldable pub merge_agent_config : Dict String → Agent → Agent × Bool
unfolding merge_entries
merge_agent_config config a =
    let merged = merge_entries config (a.agent_config, false) in
    (record a { agent_config = merged.0 }, merged.1)

unfoldable pub set_worker_info : String → String → ℤ → Agent → Agent
set_worker_info id name max_concurrency a = record a {
  worker_id = id;
  worker_name = name;
  max_concurrency = max_concurrency;
}

unfoldable pub set_labels : List String → Agent → Agent
set_labels labels a = record a { labels = labels }

unfoldable pub set_state : String → Agent → Agent
set_state state a = record a { state = state }

unfoldable pub set_connected_to_server : Bool → Agent → Agent
set_connected_to_server v a = record a { connected_to_server = v }

unfoldable pub set_connected_to_backend : Bool → Agent → Agent
set_connected_to_backend v a = record a { connected_to_backend = v }

unfoldable pub set_last_error : String → Agent → Agent
set_last_error e a = record a { last_error = e }

unfoldable pub inc_jobs : Agent → Agent
inc_jobs a = record a {
  current_jobs = suc a.current_jobs;
  state = if a.connected_to_server && not a.draining then "connected_busy" else a.state;
}

unfoldable pub dec_jobs : Agent → Agent
dec_jobs a =
    let rest = if ltb 0 a.current_jobs then a.current_jobs - 1 else a.current_jobs in
    record a {
      current_jobs = rest;
      state =
          if rest == 0 && a.connected_to_server && not a.draining
          then "connected_idle"
          else a.state;
    }

-- sendStatusUpdate: the channel has room for 16, and what does not fit is dropped.
unfoldable pub send_status_update : StatusUpdate → Agent → Agent
send_status_update update a =
    if ltb (length a.updates) 16 then record a { updates = a.updates ++ update ∷ [] } else a
