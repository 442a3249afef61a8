-- ===== src/Tunnel/Served.antt =====
-- What HTTPHandler of tunnel/registry.go records of a call, and what it leaves of the relay.
use nfrx.Prelude.{
  ℕ, ℤ, Bool-cases, String, [], arith, if◌then◌else◌, inl, inr, length, negsuc, none, pos, refl,
  str_eq, str_eq_refl, ◌&&◌, ◌+ℤ◌, ◌-ℤ◌, ◌∷◌, ◌≡◌,
}
use nfrx.Prelude.Int.{ltb_ℤ, leb_ℤ}
use nfrx.Prelude.Dict.{lookup, insert, delete, Dict}
use nfrx.Tunnel.{begin_call, Relay, Config, end_call, register_session, unregister_session}
use nfrx.Tunnel.Handler.{
  serve, Hook, Response, Script, Served, finish_call, in_session, is_answer, no_payload, passed,
  payload, refused, send_call, valid, validated, wait_open,
}

-- One completion, a success exactly for an answer; a session that was started is closed once, and no
-- other is.
abbrev pub Settled : Served → Type 0
Settled v =
    ((code : String) × (v.completed ≡ (code, is_answer v.answer) ∷ []))
    × (length v.closes ≡ (if v.started then 1 else 0))

serve-Settled : (s : Script) → Settled (serve s s.opening)
unfolding serve wait_open send_call finish_call
serve-Settled s = first s.opening
  where
    last : (r : Response) → Settled (finish_call r)
    last (no_payload code status) = ((code, refl), refl)
    last (payload body) = elim (Bool-cases (str_eq body "")) [
      | inl empty ↦ rw (finish_call, empty) (("", refl), refl)
      | inr full ↦ rw (finish_call, full) (("", refl), refl)
    ]

    sends : Settled (send_call s)
    sends = elim (Bool-cases s.sent) [
      | inl went ↦ rw (send_call, went) (last s.response)
      | inr lost ↦ rw (send_call, lost) (("PROVIDER_UNAVAILABLE", refl), refl)
    ]

    opens : (h : Hook) → Settled (wait_open s h)
    opens passed = sends
    opens (refused code status) = ((code, refl), refl)

    first : (h : Hook) → Settled (serve s h)
    first passed = opens s.opened
    first (refused code status) = ((code, refl), refl)

back : (i : ℤ) → i +ℤ pos 1 -ℤ pos 1 ≡ i
unfolding ◌+ℤ◌ ◌-ℤ◌
back (pos n) = ground arith
back (negsuc n) = ground arith

delete-insert {ℓ} :
    {V : Type ℓ} (key : String) (v : V) (dict : Dict V)
    → lookup key dict ≡ none
    → delete key (insert key v dict) ≡ dict
unfolding lookup insert delete
delete-insert key v [] h = rw (delete, str_eq_refl key) refl
delete-insert key v ((k, w) ∷ rest) h = elim (Bool-cases (str_eq k key)) [
  | inl same ↦ absurd (ground (arith, h, same))
  | inr other ↦
      let absent : lookup key rest ≡ none = ground (arith, h, other) in
      rw (insert, other, delete, other, delete-insert key v rest absent) refl
]

-- A request of a known kind, for a session id that is new, is completed once, and leaves the relay
-- with the calls, sessions and channels that it had, whatever the adapter says.
pub validated-Settled :
    (cfg : Config) (s : Script) (label sid : String) (ch now : ℕ) (rl : Relay)
    → lookup sid rl.sessions ≡ none
    → lookup sid rl.pending ≡ none
    → let h = validated cfg s (valid label) sid ch now rl in
      Settled h.served
      × (h.relay.inflight ≡ rl.inflight)
      × (h.relay.sessions ≡ rl.sessions)
      × (h.relay.pending ≡ rl.pending)
unfolding validated in_session begin_call end_call register_session unregister_session
validated-Settled cfg s label sid ch now rl fresh unheard =
    elim (Bool-cases (
      ltb_ℤ (pos 0) cfg.max_concurrency_per_client
      && leb_ℤ cfg.max_concurrency_per_client rl.inflight)) [
        | inl full ↦
            rw (in_session, begin_call, full) ((("LIMIT_EXCEEDED", refl), refl), refl, refl, refl)
        | inr room ↦
            rw (in_session, begin_call, room)
              (
                serve-Settled s,
                back rl.inflight,
                delete-insert sid (record { method = label; start = now }) rl.sessions fresh,
                delete-insert sid ch rl.pending unheard,
              )
      ]
