-- ===== src/Tunnel/Examples.antt =====
-- A relay with calls, and the theorems at it.
use nfrx.Tunnel.Handler.{
  serve, Script, error_answer, no_payload, passed, state_of, valid, validated,
}
use nfrx.Tunnel.Served.{validated-Settled, Settled}
use nfrx.Prelude.{[], none, pos, refl, some, true, ◌+ℤ◌, ◌∷◌, ◌≡◌, ◌≤◌, ◌⊎◌, false}
use nfrx.Prelude.Int.{leb_ℤ}
use nfrx.Prelude.Dict.{lookup, insert}
use nfrx.Tunnel.{Relay, Config, begin_call, count_of}
use nfrx.Tunnel.Calls.{inflight-sessions, begins, here, then_step}

abbrev limits : Config
limits = record { heartbeat = 0; dead_after = 0; max_concurrency_per_client = pos 1 }

abbrev fresh : Relay
fresh = record {
  pending = [];
  inflight = pos 0;
  last_seen = 5;
  name = "files";
  id = "r";
  sessions = [];
  methods = [];
}

abbrev busy : Relay
busy = record fresh {
  inflight = pos 1;
  methods = ("tools/list", pos 1) ∷ [];
  sessions = ("s", record { method = "tools/list"; start = 6 }) ∷ [];
}

begun : begin_call limits "s" "tools/list" 6 fresh ≡ some busy
unfolding begin_call insert lookup count_of ◌+ℤ◌
begun = refl

second_refused : begin_call limits "t" "tools/list" 7 busy ≡ none
unfolding begin_call
second_refused = refl

inflight-sessions_example : (busy.inflight ≡ pos 1) × ((leb_ℤ (pos 1) (pos 0) ≡ true) ⊎ (1 ≤ 1))
unfolding lookup
inflight-sessions_example =
    inflight-sessions limits fresh busy refl refl
      (then_step here (begins {rl = fresh} "s" "tools/list" 6 refl begun))

-- A relay that opens a session and does not answer in time.
abbrev silent : Script
silent = record {
  opening = passed;
  opened = passed;
  sent = true;
  response = no_payload "TIMEOUT" 504;
}

silent_served : serve silent passed ≡ record {
  answer = error_answer 504 "TIMEOUT";
  started = true;
  completed = ("TIMEOUT", false) ∷ [];
  closes = "timeout" ∷ [];
}
unfolding serve
silent_served = refl

validated-Settled_example :
    let h = validated limits silent (valid "tools/list") "t" 3 7 fresh in
    Settled h.served × (h.relay.inflight ≡ pos 0) × (h.relay.sessions ≡ []) × (h.relay.pending ≡ [])
unfolding lookup
validated-Settled_example = validated-Settled limits silent "tools/list" "t" 3 7 fresh refl refl

busy_listed :
    (state_of 3_000_006 (("r", busy) ∷ [])).1
    ≡ record { id = "s"; client_id = "r"; method = "tools/list"; started_at = 6; duration_ms = 3 }
      ∷ []
unfolding state_of
busy_listed = refl
