-- ===== src/Agent/Concurrency.antt =====
-- What draining does to the concurrency that the worker agent advertises.
use nfrx.Prelude.{
  All, Bool-cases, List, String, [], inl, inr, length, ltb, pos, refl, subst, sym, true, ◌&&◌, ◌++◌,
  ◌==◌, ◌∷◌, ◌≡◌,
}
use nfrx.Agent.State.{
  Agent, StatusUpdate, dec_jobs, inc_jobs, send_status_update, set_connected_to_server,
  set_last_error, set_state, set_worker_info,
}
use nfrx.Agent.Probe.{Config}
use nfrx.Agent.Drain.{
  announce_drain, drain_start, check_drain, connect, disconnect, drain_stop, draining_update,
  on_check, start_drain, take_update, drain_expires,
}

-- What the agent does without a probe once Run has begun.
pub data Call : Type 0 where
  drains : Call
  undrains : Call
  connects : Call
  loses : String → Call
  job_begins : Call
  job_ends : Call
  is_checked : Call
  times_out : Call
  is_read : Call

abbrev on_call : Config → Call → Agent → Agent
on_call cfg drains = start_drain cfg
on_call cfg undrains = drain_stop cfg
on_call cfg connects = connect
on_call cfg (loses e) = disconnect e
on_call cfg job_begins = inc_jobs
on_call cfg job_ends = dec_jobs
on_call cfg is_checked = check_drain
on_call cfg times_out = drain_expires
on_call cfg is_read = take_update

abbrev pub history : Config → List Call → Agent → Agent
history cfg [] a = a
history cfg (c ∷ cs) a = history cfg cs (on_call cfg c a)

-- The agent advertises nothing, and so does every message that waits to be sent.
record IsShut (a : Agent) : Type 0 where
  none_free : a.max_concurrency ≡ pos 0
  none_told : All (λ u. u.max_concurrency ≡ pos 0) a.updates

check_drain-IsShut : (a : Agent) → IsShut a → IsShut (check_drain a)
unfolding check_drain
check_drain-IsShut a k = elim (Bool-cases (a.listening && a.draining && a.current_jobs == 0)) [
  | inl last ↦ rw (last, check_drain) (record { none_free = k.none_free; none_told = k.none_told })
  | inr more ↦ rw (more, check_drain) k
]

All-snoc :
    {A : Type 0} (P : A → Type 0) (xs : List A) (x : A) → All P xs → P x → All P (xs ++ x ∷ [])
All-snoc P [] x all last = (last, tt)
All-snoc P (y ∷ ys) x all last = (all.0, All-snoc P ys x all.1 last)

send_status_update-IsShut :
    (u : StatusUpdate) (a : Agent)
    → u.max_concurrency ≡ pos 0
    → IsShut a
    → IsShut (send_status_update u a)
unfolding send_status_update
send_status_update-IsShut u a zero_told k = elim (Bool-cases (ltb (length a.updates) 16)) [
  | inl room ↦
      rw (room, send_status_update)
        (record {
          none_free = k.none_free;
          none_told = All-snoc (λ v. v.max_concurrency ≡ pos 0) a.updates u k.none_told zero_told;
        })
  | inr full ↦ rw (full, send_status_update) k
]

-- Only the updates that wait are needed: draining sets the concurrency itself.
drain_start-IsShut :
    (cfg : Config) (a : Agent)
    → All (λ u. u.max_concurrency ≡ pos 0) a.updates
    → IsShut (drain_start cfg a)
unfolding drain_start on_check announce_drain set_worker_info set_state draining_update
drain_start-IsShut cfg a none_told = check_drain-IsShut _ (
    send_status_update-IsShut draining_update _ refl
      (record { none_free = refl; none_told = none_told }))

disconnect-IsShut : (e : String) (a : Agent) → IsShut a → IsShut (disconnect e a)
unfolding disconnect set_connected_to_server set_last_error set_state
disconnect-IsShut e a k = elim (Bool-cases a.draining) [
  | inl quiet ↦ rw (quiet, disconnect) (record { none_free = k.none_free; none_told = k.none_told })
  | inr lost ↦ rw (lost, disconnect) (record { none_free = k.none_free; none_told = k.none_told })
]

inc_jobs-IsShut : (a : Agent) → IsShut a → IsShut (inc_jobs a)
unfolding inc_jobs
inc_jobs-IsShut a k = record { none_free = k.none_free; none_told = k.none_told }

drain_expires-IsShut : (a : Agent) → IsShut a → IsShut (drain_expires a)
unfolding drain_expires
drain_expires-IsShut a k = elim (Bool-cases a.draining) [
  | inl due ↦ rw (due, drain_expires) (record { none_free = k.none_free; none_told = k.none_told })
  | inr undrained ↦
      rw (undrained, drain_expires) (record { none_free = k.none_free; none_told = k.none_told })
]

take_update-IsShut : (a : Agent) → IsShut a → IsShut (take_update a)
unfolding take_update
take_update-IsShut a k = updates_case a.updates k.none_told
  where
    updates_case :
        (us : List StatusUpdate)
        → All (λ u. u.max_concurrency ≡ pos 0) us
        → IsShut (elim us as (λ _. Agent) [ [] ↦ a | update ∷ rest ↦ record a { updates = rest } ])
    updates_case [] all = k
    updates_case (update ∷ rest) all = record { none_free = k.none_free; none_told = all.1 }

on_call-IsShut : (cfg : Config) (c : Call) (a : Agent) → IsShut a → IsShut (on_call cfg c a)
unfolding start_drain drain_stop on_check connect dec_jobs set_state set_connected_to_server
    set_last_error
on_call-IsShut cfg drains a k =
    check_drain-IsShut _ (drain_start-IsShut cfg (record a { state = "draining" }) k.none_told)
on_call-IsShut cfg undrains a k =
    send_status_update-IsShut _ _ k.none_free
      (record { none_free = k.none_free; none_told = k.none_told })
on_call-IsShut cfg connects a k =
    check_drain-IsShut
      (record (set_last_error "" (set_state "connected_idle" (set_connected_to_server true a))) {
        listening = true;
      })
      (record { none_free = k.none_free; none_told = k.none_told })
on_call-IsShut cfg (loses e) a k = disconnect-IsShut e a k
on_call-IsShut cfg job_begins a k = inc_jobs-IsShut a k
on_call-IsShut cfg times_out a k = drain_expires-IsShut a k
on_call-IsShut cfg job_ends a k = record { none_free = k.none_free; none_told = k.none_told }
on_call-IsShut cfg is_checked a k = check_drain-IsShut a k
on_call-IsShut cfg is_read a k = take_update-IsShut a k

history-IsShut : (cfg : Config) (cs : List Call) (a : Agent) → IsShut a → IsShut (history cfg cs a)
history-IsShut cfg [] a k = k
history-IsShut cfg (c ∷ cs) a k = history-IsShut cfg cs (on_call cfg c a) (on_call-IsShut cfg c a k)

-- An agent without a probe that was told to drain once, when no update was waiting, advertises the
-- concurrency 0 ever after, also in its updates: draining that stops, and connections that are made
-- anew, do not bring back what was configured.
pub undrained_shut :
    (cfg : Config) (cs : List Call) (a : Agent)
    → a.updates ≡ []
    → ((history cfg cs (drain_start cfg a)).max_concurrency ≡ pos 0)
      × All (λ u. u.max_concurrency ≡ pos 0) (history cfg cs (drain_start cfg a)).updates
undrained_shut cfg cs a empty =
    let k =
      history-IsShut cfg cs (drain_start cfg a)
        (drain_start-IsShut cfg a (subst (All (λ u. u.max_concurrency ≡ pos 0)) (sym empty) tt)) in
    (k.none_free, k.none_told)
