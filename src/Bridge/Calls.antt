-- ===== src/Bridge/Calls.antt =====
-- The channels of the calls that wait in a session of bridge.go, in every order of its sections.
use nfrx.Prelude.{
  ℕ, Bool, Option-cases, String, arith, if◌then◌else◌, inl, inr, ltb, occurrences,
  occurrences-append, one_if, refl, suc, true, ℤ, ◌+◌, ◌<◌, ◌==◌, ◌≡◌, ◌≤◌, Bool-cases, false,
  length, pos,
}
use nfrx.Prelude.Dict.{lookup, insert}
use nfrx.Workers.Registry.{done, values}
use nfrx.Workers.Held.{occurrences-delete, occurrences-insert}
use nfrx.Bridge.{
  alloc, Session, after_register, close_pending, deliver, forward_begin, forward_end, new_session,
  take_response, unregister_call, register_call,
}
use nfrx.Prelude.Int.{leb_ℤ}

pub data Step (format : ℕ → String) : Session → Session → Type 0 where
  begins :
      {s : Session} (room : Bool) (json_id : String)
      → Step format s (forward_begin format room json_id s).0
  ends : {s : Session} (id : String) → Step format s (forward_end id s)
  takes : {s : Session} (id : String) → Step format s (take_response id s)
  closes : {s : Session} → Step format s (close_pending s)

pub data Reach (format : ℕ → String) : Session → Type 0 where
  opens : (max_inflight : ℤ) → Reach format (new_session max_inflight)
  goes_on : {s t : Session} → Reach format s → Step format s t → Reach format t

-- A channel waits, is sent on or is closed, at most one of these and at most once; numbers that were
-- not given out are none of them.
abbrev uses : ℕ → Session → ℕ
uses c s = occurrences c (values s.pending) + occurrences c s.sending + occurrences c s.closed

abbrev Once : Session → Type 0
Once s = (c : ℕ) → uses c s ≤ (if ltb c s.fresh then 1 else 0)

unregister_call-uses :
    (id : String) (s : Session) (c : ℕ) → uses c (unregister_call id s) ≤ uses c s
unfolding unregister_call
unregister_call-uses id s c = elim (Option-cases (lookup id s.pending)) [
  | inl absent ↦ rw (absent, unregister_call) (omega arith)
  | inr (ch, there) ↦
      rw (there, unregister_call) (omega (arith, occurrences-delete c ch id s.pending there))
]

unregister_fresh : (id : String) (s : Session) → (unregister_call id s).fresh ≡ s.fresh
unfolding unregister_call
unregister_fresh id s = elim (Option-cases (lookup id s.pending)) [
  | inl absent ↦ rw (absent, unregister_call) refl
  | inr (ch, there) ↦ rw (there, unregister_call) refl
]

unregister_call-Once : (id : String) (s : Session) → Once s → Once (unregister_call id s)
unregister_call-Once id s k c =
    rw (unregister_fresh id s) (omega (arith, k c, unregister_call-uses id s c))

fresh_more : (c n : ℕ) → one_if c n + (if ltb c n then 1 else 0) ≤ (if ltb c (suc n) then 1 else 0)
fresh_more c n = ground arith

register_call-Once :
    (room : Bool) (id : String) (s : Session)
    → ((c : ℕ) → uses c s ≤ (if ltb c s.fresh then 1 else 0))
    → Once (after_register room id (register_call id s.fresh (record s { fresh = suc s.fresh }))).0
unfolding register_call after_register
register_call-Once room id s k = elim (Bool-cases (leb_ℤ s.max_inflight (pos (length s.pending)))) [
  | inl full ↦ rw (full, register_call) (λ c. omega (arith, k c, fresh_more c s.fresh))
  | inr free ↦ rw (free, register_call) (sent room)
]
  where
    waits : Session
    waits = record s { pending = insert id s.fresh s.pending; fresh = suc s.fresh }

    waits-Once : Once waits
    waits-Once c =
        omega (arith, k c, fresh_more c s.fresh, occurrences-insert c s.fresh id s.pending)

    sent : (b : Bool) → Once (after_register b id (waits, true)).0
    sent true = waits-Once
    sent false = unregister_call-Once id waits waits-Once

forward_begin-Once :
    (format : ℕ → String) (room : Bool) (json_id : String) (s : Session)
    → Once s
    → Once (forward_begin format room json_id s).0
unfolding forward_begin alloc
forward_begin-Once format room json_id s k =
    register_call-Once room (alloc format json_id s.id_map).1
      (record s { id_map = (alloc format json_id s.id_map).0 }) k

take_response-Once : (id : String) (s : Session) → Once s → Once (take_response id s)
unfolding take_response
take_response-Once id s k = elim (Option-cases (lookup id s.pending)) [
  | inl absent ↦ rw (absent, take_response) k
  | inr (ch, there) ↦
      rw (there, take_response)
        (λ c. omega (arith, k c, occurrences-delete c ch id s.pending there))
]

step-Once : (format : ℕ → String) {s t : Session} → Step format s t → Once s → Once t
unfolding forward_end close_pending
step-Once format (begins {s} room json_id) k = forward_begin-Once format room json_id s k
step-Once format (ends {s} id) k = unregister_call-Once id s k
step-Once format (takes {s} id) k = take_response-Once id s k
step-Once format (closes {s}) k =
    λ c. omega (arith, k c, occurrences-append c (values s.pending) s.closed)

Reach-Once : (format : ℕ → String) {s : Session} → Reach format s → Once s
Reach-Once format (opens max_inflight) = λ c. omega arith
Reach-Once format (goes_on r st) = step-Once format st (Reach-Once format r)

-- In every order of the sections no channel of a call is closed twice, and the channel of a response
-- that the reader has taken is open when it sends on it: the send does not panic.
pub response_delivered :
    (format : ℕ → String) (s : Session) (ch c : ℕ)
    → Reach format s
    → 0 < occurrences ch s.sending
    → (deliver ch s ≡ done s) × (occurrences c s.closed ≤ 1)
unfolding deliver
response_delivered format s ch c r taken =
    let k = Reach-Once format r in
    let open_still : (occurrences ch s.closed == 0) ≡ true = ground (arith, k ch, taken) in
    (rw (open_still, deliver) refl, ground (arith, k c))
