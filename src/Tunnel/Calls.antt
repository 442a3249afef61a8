-- ===== src/Tunnel/Calls.antt =====
-- The calls of a relay in every order in which they begin and end.
use nfrx.Prelude.{
  ℕ, Bool-cases, String, [], ap, arith, inl, inr, length, none, refl, some, subst, suc, ◌∙◌, ◌≡◌,
  false, negsuc, pos, sym, true, zero, ℤ, ◌&&◌, ◌+ℤ◌, ◌-ℤ◌, ◌≤◌, ◌⊎◌, Bool, if◌then◌else◌,
}
use nfrx.Prelude.Dict.{lookup, insert, delete}
use nfrx.Tunnel.Sessions.{IsMap, length-insert, length-delete}
use nfrx.Tunnel.{
  Relay, Config, begin_call, SessionInfo, end_call, count_of, register_session, unregister_session,
}
use nfrx.Prelude.Int.{leb_ℤ, ltb_ℤ, pos_part}

-- A call begins under a session id that is not in use, as uuid.NewString gives, and ends once: each
-- handler has its own id.
pub data Step (cfg : Config) : Relay → Relay → Type 0 where
  begins :
      {rl new : Relay} (sid label : String) (now : ℕ)
      → lookup sid rl.sessions ≡ none
      → begin_call cfg sid label now rl ≡ some new
      → Step cfg rl new
  ends :
      {rl : Relay} (sid : String) (session : SessionInfo)
      → lookup sid rl.sessions ≡ some session
      → Step cfg rl (end_call sid session.method rl)
  registers : {rl : Relay} (sid : String) (ch : ℕ) → Step cfg rl (register_session sid ch rl)
  unregisters : {rl : Relay} (sid : String) → Step cfg rl (unregister_session sid rl)

pub data Reach (cfg : Config) (first : Relay) : Relay → Type 0 where
  here : Reach cfg first first
  then_step : {rl new : Relay} → Reach cfg first rl → Step cfg rl new → Reach cfg first new

record Inv (cfg : Config) (rl : Relay) : Type 0 where
  keys : IsMap rl.sessions
  counted : rl.inflight ≡ pos (length rl.sessions)
  limited :
      (leb_ℤ cfg.max_concurrency_per_client (pos 0) ≡ true)
      ⊎ (length rl.sessions ≤ pos_part cfg.max_concurrency_per_client)

-- The bound after a call that the check let through.
limit_kept :
    (limit : ℤ) (n : ℕ)
    → ((ltb_ℤ (pos 0) limit && leb_ℤ limit (pos n)) ≡ false)
    → (leb_ℤ limit (pos 0) ≡ true) ⊎ (suc n ≤ pos_part limit)
limit_kept (pos zero) n h = inl refl
limit_kept (pos (suc m)) n h = inr (ground (arith, h))
limit_kept (negsuc m) n h = inl (ground arith)

limit_lowered :
    (limit : ℤ) (n : ℕ)
    → (leb_ℤ limit (pos 0) ≡ true) ⊎ (suc n ≤ pos_part limit)
    → (leb_ℤ limit (pos 0) ≡ true) ⊎ (n ≤ pos_part limit)
limit_lowered limit n (inl unlimited) = inl unlimited
limit_lowered limit n (inr bound) = inr (omega (arith, bound))

add_one : (n : ℕ) → pos n +ℤ pos 1 ≡ pos (suc n)
unfolding ◌+ℤ◌
add_one n = ground arith

take_one : (n : ℕ) → pos (suc n) -ℤ pos 1 ≡ pos n
unfolding ◌-ℤ◌
take_one n = ground arith

-- The test of the concurrency check.
abbrev is_full : Config → Relay → Bool
is_full cfg rl =
    ltb_ℤ (pos 0) cfg.max_concurrency_per_client && leb_ℤ cfg.max_concurrency_per_client rl.inflight

abbrev entered_call : String → String → ℕ → Relay → Relay
entered_call sid label now rl = record rl {
  inflight = rl.inflight +ℤ pos 1;
  methods = insert label (count_of label rl.methods +ℤ pos 1) rl.methods;
  sessions = insert sid (record { method = label; start = now }) rl.sessions;
}

begin_call-is_full :
    (cfg : Config) (sid label : String) (now : ℕ) (rl : Relay)
    → begin_call cfg sid label now rl
      ≡ (if is_full cfg rl then none else some (entered_call sid label now rl))
unfolding begin_call
begin_call-is_full cfg sid label now rl = refl

entered_call-Inv :
    (cfg : Config) (rl : Relay) (sid label : String) (now : ℕ)
    → lookup sid rl.sessions ≡ none
    → is_full cfg rl ≡ false
    → Inv cfg rl
    → Inv cfg (entered_call sid label now rl)
entered_call-Inv cfg rl sid label now missing room k =
    let entered =
      length-insert sid (record { method = label; start = now }) rl.sessions missing k.keys in
    let limit = cfg.max_concurrency_per_client in
    record {
      keys = entered.1;
      counted =
          ap (λ i. i +ℤ pos 1) k.counted ∙ add_one (length rl.sessions) ∙ ap pos (sym entered.0);
      limited =
          subst (λ n. (leb_ℤ limit (pos 0) ≡ true) ⊎ (n ≤ pos_part limit)) (sym entered.0)
            (limit_kept limit (length rl.sessions)
              (subst (λ i. (ltb_ℤ (pos 0) limit && leb_ℤ limit i) ≡ false) k.counted room));
    }

begin_call-Inv :
    (cfg : Config) (rl new : Relay) (sid label : String) (now : ℕ)
    → lookup sid rl.sessions ≡ none
    → begin_call cfg sid label now rl ≡ some new
    → Inv cfg rl
    → Inv cfg new
begin_call-Inv cfg rl new sid label now missing started k = elim (Bool-cases (is_full cfg rl)) [
  | inl full ↦
      let e : begin_call cfg sid label now rl ≡ none =
        begin_call-is_full cfg sid label now rl ∙ rw full refl in
      absurd (cc (e, started))
  | inr room ↦
      let e : begin_call cfg sid label now rl ≡ some (entered_call sid label now rl) =
        begin_call-is_full cfg sid label now rl ∙ rw room refl in
      let same : entered_call sid label now rl ≡ new = cc (e, started) in
      subst (Inv cfg) same (entered_call-Inv cfg rl sid label now missing room k)
]

end_call-Inv :
    (cfg : Config) (rl : Relay) (sid : String) (session : SessionInfo)
    → lookup sid rl.sessions ≡ some session
    → Inv cfg rl
    → Inv cfg (end_call sid session.method rl)
unfolding end_call
end_call-Inv cfg rl sid session found k =
    let left = length-delete sid session rl.sessions found k.keys in
    record {
      keys = left.1;
      counted =
          ap (λ i. i -ℤ pos 1) (k.counted ∙ ap pos (sym left.0))
          ∙ take_one (length (delete sid rl.sessions));
      limited = limit_lowered cfg.max_concurrency_per_client (length (delete sid rl.sessions)) (
          subst
            (λ n.
              (leb_ℤ cfg.max_concurrency_per_client (pos 0) ≡ true)
              ⊎ (n ≤ pos_part cfg.max_concurrency_per_client))
            (sym left.0) k.limited);
    }

register_session-Inv :
    (cfg : Config) (sid : String) (ch : ℕ) (rl : Relay)
    → Inv cfg rl
    → Inv cfg (register_session sid ch rl)
unfolding register_session
register_session-Inv cfg sid ch rl k = record {
  keys = k.keys;
  counted = k.counted;
  limited = k.limited;
}

unregister_session-Inv :
    (cfg : Config) (sid : String) (rl : Relay) → Inv cfg rl → Inv cfg (unregister_session sid rl)
unfolding unregister_session
unregister_session-Inv cfg sid rl k = record {
  keys = k.keys;
  counted = k.counted;
  limited = k.limited;
}

Reach-counted : (cfg : Config) (first rl : Relay) → Reach cfg first rl → Inv cfg first → Inv cfg rl
Reach-counted cfg first rl here k = k
Reach-counted cfg first rl (then_step {rl = before} r (begins sid label now missing started)) k =
    begin_call-Inv cfg before rl sid label now missing started (Reach-counted cfg first before r k)
Reach-counted cfg first rl (then_step {rl = before} r (ends sid session found)) k =
    end_call-Inv cfg before sid session found (Reach-counted cfg first before r k)
Reach-counted cfg first rl (then_step {rl = before} r (registers sid ch)) k =
    register_session-Inv cfg sid ch before (Reach-counted cfg first before r k)
Reach-counted cfg first rl (then_step {rl = before} r (unregisters sid)) k =
    unregister_session-Inv cfg sid before (Reach-counted cfg first before r k)

-- From a relay that has just connected, in every order of calls that begin and end: the count in
-- flight is the number of open sessions, and with a positive limit it is never above the limit.
pub inflight-sessions :
    (cfg : Config) (first rl : Relay)
    → first.inflight ≡ pos 0
    → first.sessions ≡ []
    → Reach cfg first rl
    → (rl.inflight ≡ pos (length rl.sessions))
      × ((leb_ℤ cfg.max_concurrency_per_client (pos 0) ≡ true)
          ⊎ (length rl.sessions ≤ pos_part cfg.max_concurrency_per_client))
inflight-sessions cfg first rl idle none_open r =
    let start_length : length first.sessions ≡ 0 = ap length none_open in
    let k = Reach-counted cfg first rl r (record {
      keys = subst IsMap (sym none_open) tt;
      counted = idle ∙ ap pos (sym start_length);
      limited = inr (omega (arith, start_length));
    }) in
    (k.counted, k.limited)
