-- ===== src/Agent/Reopened.antt =====
-- A probe of the backend while the worker agent drains.
use nfrx.Prelude.{
  ℕ, Bool, Bool-cases, [], ap, arith, inl, inr, length, ltb, not, pos, refl, subst, suc, sym, true,
  ◌&&◌, ◌++◌, ◌<◌, ◌==◌, ◌∙◌, ◌∷◌, ◌≡◌,
}
use nfrx.Agent.State.{
  Agent, StatusUpdate, merge_agent_config, send_status_update, set_connected_to_backend, set_labels,
  set_last_error, set_state, set_worker_info,
}
use nfrx.Agent.Probe.{
  Config, ProbeResult, advertised, answers, equal_ℤ, has_changed, idle_if_free, made_ready,
  on_probe_ready, probe_backend, ready_update,
}

idle_if_free_kept :
    (a : Agent)
    → ((idle_if_free a).max_concurrency ≡ a.max_concurrency)
      × ((idle_if_free a).draining ≡ a.draining)
      × ((idle_if_free a).updates ≡ a.updates)
unfolding idle_if_free set_state
idle_if_free_kept a =
    elim (Bool-cases (a.connected_to_server && not a.draining && a.current_jobs == 0)) [
      | inl free ↦ rw (free, idle_if_free) (refl, refl, refl)
      | inr busy ↦ rw (busy, idle_if_free) (refl, refl, refl)
    ]

made_ready_kept :
    (cfg : Config) (res : ProbeResult) (a : Agent)
    → ((made_ready cfg res a).max_concurrency ≡ advertised cfg res)
      × ((made_ready cfg res a).draining ≡ a.draining)
      × ((made_ready cfg res a).updates ≡ a.updates)
unfolding made_ready set_last_error set_labels set_worker_info set_connected_to_backend
    merge_agent_config
made_ready_kept cfg res a = idle_if_free_kept _

advertised_free :
    (cfg : Config) (res : ProbeResult) (n : ℕ)
    → res.max_concurrency ≡ pos (suc n)
    → advertised cfg res ≡ pos (suc n)
unfolding advertised
advertised_free cfg res n free = rw (free, advertised) (ground arith)

has_changed_free :
    (before now : Agent) (config_changed : Bool) (n : ℕ)
    → before.max_concurrency ≡ pos 0
    → now.max_concurrency ≡ pos (suc n)
    → has_changed before config_changed now ≡ true
unfolding has_changed equal_ℤ
has_changed_free before now config_changed n shut free = rw (shut, free, has_changed) (ground arith)

send_status_update_room :
    (u : StatusUpdate) (a : Agent)
    → length a.updates < 16
    → send_status_update u a ≡ record a { updates = a.updates ++ u ∷ [] }
unfolding send_status_update
send_status_update_room u a room =
    let e : ltb (length a.updates) 16 ≡ true = ground (arith, room) in
    rw (e, send_status_update) refl

-- When the backend is probed while the agent drains, and the probe is ready and gives a positive
-- concurrency, then an update that advertises it is sent, with the status idle.
pub drain_reopened :
    (cfg : Config) (res : ProbeResult) (a : Agent) (n : ℕ)
    → res.ready ≡ true
    → res.max_concurrency ≡ pos (suc n)
    → a.draining ≡ true
    → a.max_concurrency ≡ pos 0
    → length a.updates < 16
    → ((probe_backend cfg (answers res) a).draining ≡ true)
      × ((u : StatusUpdate) × ((probe_backend cfg (answers res) a).updates ≡ a.updates ++ u ∷ [])
          × (u.max_concurrency ≡ pos (suc n))
          × (u.status ≡ "idle"))
unfolding probe_backend on_probe_ready ready_update
drain_reopened cfg res a n ready free draining shut room =
    let kept = made_ready_kept cfg res a in
    let free_now = kept.0 ∙ advertised_free cfg res n free in
    let changed =
      has_changed_free a (made_ready cfg res a) (merge_agent_config res.agent_config a).1 n shut
        free_now in
    let sent =
      send_status_update_room (ready_update res (made_ready cfg res a)) (made_ready cfg res a)
        (subst (λ us. length us < 16) (sym kept.2) room) in
    rw (ready, probe_backend, changed, on_probe_ready, sent)
      (
        kept.1 ∙ draining,
        (
          ready_update res (made_ready cfg res a),
          ap (λ us. us ++ ready_update res (made_ready cfg res a) ∷ []) kept.2,
          free_now,
          refl,
        ),
      )
