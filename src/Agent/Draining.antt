-- ===== src/Agent/Draining.antt =====
-- How a drain of the worker agent ends.
use nfrx.Prelude.{
  ℕ, Bool, List, String, [], false, not, refl, suc, true, ◌==◌, ◌∷◌, ◌≡◌, Bool-cases, arith, inl,
  inr, length, ltb, zero, ◌&&◌, ◌||◌, ◌-◌, ap, if◌then◌else◌, ◌∙◌,
}
use nfrx.Agent.State.{
  Agent, StatusUpdate, dec_jobs, send_status_update, set_state, set_worker_info,
  set_connected_to_server, inc_jobs,
}
use nfrx.Agent.Drain.{
  announce_drain, check_drain, take_update, draining_update, Serving, accept_request, begin_job,
  drain_expires, disconnect,
}
use nfrx.Agent.Probe.{Config}

-- What happens once the drain flag is set, up to a new connection: the callback of the drain goes up
-- to its check, the loop reads a request, a goroutine that was started counts its job, a job is
-- counted off, checkDrain runs (at the end of the callback, and behind each job that was counted
-- off), an update is sent, the connection is lost, and the timer of the drain runs out.
pub data Event : Type 0 where
  is_announced : Event
  request_comes : Event
  job_begins : Event
  job_ends : Event
  is_checked : Event
  update_taken : Event
  is_lost : String → Event
  expires : Event

abbrev on_drain_event : Config → Event → Serving → Serving
on_drain_event cfg is_announced s = record s { agent = announce_drain cfg s.agent }
on_drain_event cfg request_comes s = accept_request s
on_drain_event cfg job_begins s = begin_job s
on_drain_event cfg job_ends s = record s { agent = dec_jobs s.agent }
on_drain_event cfg is_checked s = record s { agent = check_drain s.agent }
on_drain_event cfg update_taken s = record s { agent = take_update s.agent }
on_drain_event cfg (is_lost e) s = record s { agent = disconnect e s.agent }
on_drain_event cfg expires s = record s { agent = drain_expires s.agent }

abbrev pub play : Config → List Event → Serving → Serving
play cfg [] s = s
play cfg (e ∷ es) s = play cfg es (on_drain_event cfg e s)

-- From `n` counted jobs and `k` goroutines that have not counted theirs: the timer runs out, or a
-- check on the live connection finds no counted job.
abbrev pub comes_to_end : List Event → ℕ → ℕ → Bool → Bool
comes_to_end [] n k live = false
comes_to_end (is_announced ∷ es) n k live = comes_to_end es n k live
comes_to_end (request_comes ∷ es) n k live = comes_to_end es n k live
comes_to_end (job_begins ∷ es) n zero live = comes_to_end es n zero live
comes_to_end (job_begins ∷ es) n (suc k) live = comes_to_end es (suc n) k live
comes_to_end (job_ends ∷ es) n k live = comes_to_end es (n - 1) k live
comes_to_end (is_checked ∷ es) n k live = live && n == 0 || comes_to_end es n k live
comes_to_end (update_taken ∷ es) n k live = comes_to_end es n k live
comes_to_end (is_lost e ∷ es) n k live = comes_to_end es n k false
comes_to_end (expires ∷ es) n k live = true

-- The agent drains with `n` counted jobs; `live` tells whether it listens, `over` whether the run has
-- been canceled.
record IsDraining (n : ℕ) (live over : Bool) (a : Agent) : Type 0 where
  drains : a.draining ≡ true
  left : a.current_jobs ≡ n
  listens : a.listening ≡ live
  told : a.canceled ≡ over

check_drain-IsDraining :
    (n : ℕ) (live over : Bool) (a : Agent)
    → IsDraining n live over a
    → IsDraining n (live && not (n == 0)) (over || live && n == 0) (check_drain a)
unfolding check_drain
check_drain-IsDraining n live over a k =
    elim (Bool-cases (a.listening && a.draining && a.current_jobs == 0)) [
      | inl last ↦
          rw (last, check_drain)
            (record {
              drains = k.drains;
              left = k.left;
              listens = ground (arith, last, k.left, k.listens);
              told = ground (arith, last, k.left, k.listens);
            })
      | inr more ↦
          rw (more, check_drain)
            (record {
              drains = k.drains;
              left = k.left;
              listens = ground (arith, more, k.left, k.drains, k.listens);
              told = ground (arith, more, k.left, k.drains, k.listens, k.told);
            })
    ]

dec_jobs-IsDraining :
    (n : ℕ) (live over : Bool) (a : Agent)
    → IsDraining n live over a
    → IsDraining (n - 1) live over (dec_jobs a)
unfolding dec_jobs
dec_jobs-IsDraining n live over a k = record {
  drains = k.drains;
  left = ground (arith, k.left);
  listens = k.listens;
  told = k.told;
}

take_update-IsDraining :
    (n : ℕ) (live over : Bool) (a : Agent)
    → IsDraining n live over a
    → IsDraining n live over (take_update a)
unfolding take_update
take_update-IsDraining n live over a k = updates_case a.updates
  where
    updates_case :
        (us : List StatusUpdate)
        → IsDraining n live over
            (elim us as (λ _. Agent) [ [] ↦ a | update ∷ rest ↦ record a { updates = rest } ])
    updates_case [] = k
    updates_case (update ∷ rest) = record {
      drains = k.drains;
      left = k.left;
      listens = k.listens;
      told = k.told;
    }

disconnect-IsDraining :
    (e : String) (n : ℕ) (live over : Bool) (a : Agent)
    → IsDraining n live over a
    → IsDraining n false over (disconnect e a)
unfolding disconnect set_connected_to_server
disconnect-IsDraining e n live over a k =
    rw (k.drains, disconnect)
      (record { drains = refl; left = k.left; listens = refl; told = k.told })

drain_expires-IsDraining :
    (n : ℕ) (live over : Bool) (a : Agent)
    → IsDraining n live over a
    → IsDraining n false true (drain_expires a)
unfolding drain_expires
drain_expires-IsDraining n live over a k =
    rw (k.drains, drain_expires)
      (record { drains = refl; left = k.left; listens = refl; told = refl })

inc_jobs-IsDraining :
    (n : ℕ) (live over : Bool) (a : Agent)
    → IsDraining n live over a
    → IsDraining (suc n) live over (inc_jobs a)
unfolding inc_jobs
inc_jobs-IsDraining n live over a k = record {
  drains = k.drains;
  left = ap suc k.left;
  listens = k.listens;
  told = k.told;
}

send_status_update-IsDraining :
    (n : ℕ) (live over : Bool) (u : StatusUpdate) (a : Agent)
    → IsDraining n live over a
    → IsDraining n live over (send_status_update u a)
unfolding send_status_update
send_status_update-IsDraining n live over u a k = elim (Bool-cases (ltb (length a.updates) 16)) [
  | inl room ↦
      rw (room, send_status_update)
        (record { drains = k.drains; left = k.left; listens = k.listens; told = k.told })
  | inr full ↦ rw (full, send_status_update) k
]

announce_drain-IsDraining :
    (cfg : Config) (n : ℕ) (live over : Bool) (a : Agent)
    → IsDraining n live over a
    → IsDraining n live over (announce_drain cfg a)
unfolding announce_drain set_worker_info set_state
announce_drain-IsDraining cfg n live over a k =
    send_status_update-IsDraining n live over draining_update _
      (record { drains = k.drains; left = k.left; listens = k.listens; told = k.told })

accept_request-draining : (s : Serving) → s.agent.draining ≡ true → accept_request s ≡ s
unfolding accept_request
accept_request-draining s h = ap (λ b. if b then s else record s { started = suc s.started }) h

begin_job-none : (s : Serving) → s.started ≡ 0 → begin_job s ≡ s
unfolding begin_job
begin_job-none s h =
    ap (λ m. if m == 0 then s else record s { agent = inc_jobs s.agent; started = s.started - 1 }) h

begin_job-one :
    (s : Serving) (k : ℕ)
    → s.started ≡ suc k
    → begin_job s ≡ record { agent = inc_jobs s.agent; started = k }
unfolding begin_job
begin_job-one s k h =
    let some_started : (s.started == 0) ≡ false = ground (arith, h) in
    let fewer : s.started - 1 ≡ k = omega (arith, h) in
    ap (λ b. if b then s else record s { agent = inc_jobs s.agent; started = s.started - 1 })
      some_started
    ∙ ap (λ m. record { agent = inc_jobs s.agent; started = m }) fewer

settled :
    (over live z : Bool) (c : Bool → Bool)
    → (over || live && z || c (live && not z)) ≡ (over || (live && z || c live))
settled true live z c = refl
settled false false z c = refl
settled false true true c = refl
settled false true false c = refl

or_true : (b : Bool) → true ≡ (b || true)
or_true true = refl
or_true false = refl

played :
    (cfg : Config) (events : List Event) (n k : ℕ) (live over : Bool) (s : Serving)
    → IsDraining n live over s.agent
    → s.started ≡ k
    → (play cfg events s).agent.canceled ≡ (over || comes_to_end events n k live)
played cfg [] n k live over s i h = ground (arith, i.told)
played cfg (is_announced ∷ es) n k live over s i h =
    played cfg es n k live over (record s { agent = announce_drain cfg s.agent })
      (announce_drain-IsDraining cfg n live over s.agent i) h
played cfg (request_comes ∷ es) n k live over s i h =
    ap (λ t. (play cfg es t).agent.canceled) (accept_request-draining s i.drains)
    ∙ played cfg es n k live over s i h
played cfg (job_begins ∷ es) n zero live over s i h =
    ap (λ t. (play cfg es t).agent.canceled) (begin_job-none s h)
    ∙ played cfg es n zero live over s i h
played cfg (job_begins ∷ es) n (suc k) live over s i h =
    ap (λ t. (play cfg es t).agent.canceled) (begin_job-one s k h)
    ∙ played cfg es (suc n) k live over (record { agent = inc_jobs s.agent; started = k })
        (inc_jobs-IsDraining n live over s.agent i) refl
played cfg (job_ends ∷ es) n k live over s i h =
    played cfg es (n - 1) k live over (record s { agent = dec_jobs s.agent })
      (dec_jobs-IsDraining n live over s.agent i) h
played cfg (is_checked ∷ es) n k live over s i h =
    let z = n == 0 in
    played cfg es n k (live && not z) (over || live && z) (record s { agent = check_drain s.agent })
      (check_drain-IsDraining n live over s.agent i) h
    ∙ settled over live z (comes_to_end es n k)
played cfg (update_taken ∷ es) n k live over s i h =
    played cfg es n k live over (record s { agent = take_update s.agent })
      (take_update-IsDraining n live over s.agent i) h
played cfg (is_lost e ∷ es) n k live over s i h =
    played cfg es n k false over (record s { agent = disconnect e s.agent })
      (disconnect-IsDraining e n live over s.agent i) h
played cfg (expires ∷ es) n k live over s i h =
    played cfg es n k false true (record s { agent = drain_expires s.agent })
      (drain_expires-IsDraining n live over s.agent i) h
    ∙ or_true over

pub drain_ends :
    (cfg : Config) (a : Agent) (started : ℕ) (events : List Event)
    → a.draining ≡ true
    → a.listening ≡ true
    → a.canceled ≡ false
    → (play cfg events (record { agent = a; started = started })).agent.canceled
      ≡ comes_to_end events a.current_jobs started true
drain_ends cfg a started events drains listens told =
    played cfg events a.current_jobs started true false (record { agent = a; started = started })
      (record { drains = drains; left = refl; listens = listens; told = told }) refl
