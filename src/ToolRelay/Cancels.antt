-- ===== src/ToolRelay/Cancels.antt =====
-- Which call a close frame cancels, in every order of the sections of relay.go.
use nfrx.Prelude.{
  ℕ, occurrences, Bool, Bool-cases, List, Option, String, arith, eq_iff, false, inl, inr, none,
  refl, some, str_eq, true, ◌<◌, ◌∷◌, ◌≡◌, ◌≤◌, Option-cases, ltb, not, str_cases, subst, ◌&&◌,
  ◌||◌,
}
use nfrx.Prelude.Dict.{lookup, delete, insert, lookup-delete, lookup-insert}
use nfrx.ToolRelay.{
  RelayClient, on_frame, Call, Frame, answer_rpc, begin_rpc, finish_rpc, new_relay_client, without,
  on_close, on_open, send,
}
use nfrx.ToolRelay.Active.{
  active_of, active_of-finished, active_of-without, sid_count, sid_count-none, sid_count-without,
}

-- The sections, where the server gives a session with an active call no second one.
pub data Step : RelayClient → RelayClient → Type 0 where
  gets : {r : RelayClient} (f : Frame) → Step r (on_frame f r)
  begins :
      {r : RelayClient} (readable : Bool) (c : Call)
      → active_of c.sid r.active ≡ none
      → Step r (begin_rpc readable c r)
  answers :
      {r : RelayClient} (out_of_time : Bool) (response : String) (c : Call)
      → Step r (answer_rpc out_of_time response c r)
  finishes :
      {r : RelayClient} (c : Call)
      → active_of c.sid r.active ≡ some c.number
      → Step r (finish_rpc c r)

pub data Reach (token : String) : RelayClient → Type 0 where
  connects : Reach token (new_relay_client token)
  goes_on : {r s : RelayClient} → Reach token r → Step r s → Reach token s

-- A session without an active call has no entry; the entry of an active call is its own, and one
-- without an entry is canceled.
unfoldable Agrees : List ℕ → Option ℕ → Option ℕ → Type 0
Agrees canceled none none = Unit {0}
Agrees canceled none (some m) = true ≡ false
Agrees canceled (some n) none = 0 < occurrences n canceled
Agrees canceled (some n) (some m) = n ≡ m

abbrev Inv : RelayClient → Type 0
Inv r =
    (sid : String)
    → (sid_count sid r.active ≤ 1)
      × Agrees r.canceled (active_of sid r.active) (lookup sid r.cancels)

Agrees-more :
    (n : ℕ) (canceled : List ℕ) (a b : Option ℕ) → Agrees canceled a b → Agrees (n ∷ canceled) a b
unfolding Agrees
Agrees-more n canceled none none h = tt
Agrees-more n canceled none (some m) h = h
Agrees-more n canceled (some k) none h = omega (arith, h)
Agrees-more n canceled (some k) (some m) h = h

Agrees-closed :
    (n : ℕ) (canceled : List ℕ) (a : Option ℕ)
    → Agrees canceled a (some n)
    → Agrees (n ∷ canceled) a none
unfolding Agrees
Agrees-closed n canceled none h = absurd cc
Agrees-closed n canceled (some k) h = ground (arith, h)

close-Inv : (sid : String) (r : RelayClient) → Inv r → Inv (on_close sid r)
unfolding on_close
close-Inv sid r i other = elim (Option-cases (lookup sid r.cancels)) [
  | inl absent ↦ rw (on_close, absent) (i other)
  | inr (n, there) ↦
      let kept = lookup-delete sid other r.cancels in
      elim (str_cases sid other) [
        | inl (same, e) ↦
            let entry : lookup other r.cancels ≡ some n = rw (← same) there in
            let own : Agrees r.canceled (active_of other r.active) (some n) =
              subst (Agrees r.canceled (active_of other r.active)) entry (i other).1 in
            rw (on_close, there, kept, e) ((i other).0, Agrees-closed n r.canceled _ own)
        | inr apart ↦
            rw (on_close, there, kept, apart)
              ((i other).0, Agrees-more n r.canceled _ _ (i other).1)
      ]
]

finish-Inv :
    (c : Call) (r : RelayClient)
    → active_of c.sid r.active ≡ some c.number
    → Inv r
    → Inv (finish_rpc c r)
unfolding finish_rpc
finish-Inv c r e i sid =
    let kept = lookup-delete c.sid sid r.cancels in
    let few : sid_count sid (without c r.active) ≤ 1 =
      omega (arith, (i sid).0, sid_count-without sid c r.active) in
    elim (str_cases c.sid sid) [
      | inl (same, eq) ↦
          let gone : active_of sid (without c r.active) ≡ none =
            rw (← same) (active_of-finished c r.active (i c.sid).0 e) in
          rw (kept, eq, gone) (few, unfold Agrees in tt)
      | inr apart ↦
          rw (kept, apart, active_of-without sid c r.active apart)
            (few, Agrees-more c.number r.canceled _ _ (i sid).1)
    ]

begin-Inv :
    (readable : Bool) (c : Call) (r : RelayClient)
    → active_of c.sid r.active ≡ none
    → Inv r
    → Inv (begin_rpc readable c r)
unfolding begin_rpc active_of sid_count
begin-Inv false c r e i sid = i sid
begin-Inv true c r e i sid =
    let kept = lookup-insert c.sid sid c.number r.cancels in
    elim (str_cases c.sid sid) [
      | inl (same, eq) ↦
          let free : sid_count sid r.active ≡ 0 = rw (← same) (sid_count-none c.sid r.active e) in
          rw (kept, eq, free) (omega arith, unfold Agrees in refl)
      | inr apart ↦ rw (kept, apart) (i sid)
    ]

on_open-Inv : (f : Frame) (r : RelayClient) → Inv r → Inv (on_open f r)
unfolding on_open send
on_open-Inv f r i = elim (Bool-cases (not (str_eq r.token "") && not (str_eq f.auth r.token))) [
  | inl refused ↦ rw refused i
  | inr granted ↦ rw granted i
]

on_frame-Inv : (f : Frame) (r : RelayClient) → Inv r → Inv (on_frame f r)
unfolding on_frame
on_frame-Inv f r i = elim (Bool-cases (str_eq f.kind "open")) [
  | inl opens ↦ rw (on_frame, opens) (on_open-Inv f r i)
  | inr no_open ↦ elim (Bool-cases (str_eq f.kind "rpc")) [
    | inl rpc ↦ rw (on_frame, no_open, rpc) i
    | inr no_rpc ↦ elim (Bool-cases (str_eq f.kind "close")) [
      | inl close ↦ rw (on_frame, no_open, no_rpc, close) (close-Inv f.sid r i)
      | inr no_close ↦ elim (Bool-cases (str_eq f.kind "ping")) [
        | inl ping ↦ rw (on_frame, no_open, no_rpc, no_close, ping) i
        | inr no_ping ↦ rw (on_frame, no_open, no_rpc, no_close, no_ping) i
      ]
    ]
  ]
]

answer-Inv :
    (out_of_time : Bool) (response : String) (c : Call) (r : RelayClient)
    → Inv r
    → Inv (answer_rpc out_of_time response c r)
unfolding answer_rpc
answer-Inv out_of_time response c r i =
    elim (Bool-cases (out_of_time || ltb 0 (occurrences c.number r.canceled))) [
      | inl silent ↦ rw (answer_rpc, silent) i
      | inr heard ↦ rw (answer_rpc, heard) i
    ]

Step-Inv : (r s : RelayClient) → Step r s → Inv r → Inv s
Step-Inv r s (gets f) i = on_frame-Inv f r i
Step-Inv r s (begins readable c e) i = begin-Inv readable c r e i
Step-Inv r s (answers out_of_time response c) i = answer-Inv out_of_time response c r i
Step-Inv r s (finishes c e) i = finish-Inv c r e i

Reach-Inv : (token : String) (r : RelayClient) → Reach token r → Inv r
unfolding lookup active_of sid_count Agrees
Reach-Inv token r connects = λ sid. (omega arith, tt)
Reach-Inv token r (goes_on {r = before} reach st) =
    Step-Inv before r st (Reach-Inv token before reach)

-- Whatever has happened, as long as the server gives a session no second call while it has one,
-- a close frame cancels the active call of its session, and a session without an active call has no
-- entry in `cancels`.
pub close_cancels :
    (token sid : String) (r : RelayClient)
    → Reach token r
    → ((n : ℕ) → active_of sid r.active ≡ some n → 0 < occurrences n (on_close sid r).canceled)
      × (active_of sid r.active ≡ none → lookup sid r.cancels ≡ none)
unfolding on_close
close_cancels token sid r reach = (canceled, left)
  where
    known : Agrees r.canceled (active_of sid r.active) (lookup sid r.cancels)
    known = (Reach-Inv token r reach sid).1

    canceled :
        (n : ℕ) → active_of sid r.active ≡ some n → 0 < occurrences n (on_close sid r).canceled
    canceled n e = elim (Option-cases (lookup sid r.cancels)) [
      | inl absent ↦
          let own : Agrees r.canceled (some n) none = rw (← e, ← absent) known in
          rw (on_close, absent) (unfold Agrees in own)
      | inr (m, there) ↦
          let own : Agrees r.canceled (some n) (some m) = rw (← e, ← there) known in
          rw (on_close, there) (unfold Agrees in ground (arith, own))
    ]

    left : active_of sid r.active ≡ none → lookup sid r.cancels ≡ none
    left e = elim (Option-cases (lookup sid r.cancels)) [
      | inl absent ↦ absent
      | inr (m, there) ↦
          let clash : Agrees r.canceled none (some m) = rw (← e, ← there) known in
          absurd (unfold Agrees in cc)
    ]

-- Where a session has been given a second call, the end of the first takes the entry of the second
-- away, and a close frame then cancels nothing.
pub second_call_lost :
    (first second : Call) (r : RelayClient)
    → first.sid ≡ second.sid
    → let s = finish_rpc first (begin_rpc true second (begin_rpc true first r)) in
      on_close second.sid s ≡ s
unfolding finish_rpc begin_rpc on_close
second_call_lost first second r same =
    let dict = insert second.sid second.number (insert first.sid first.number r.cancels) in
    let gone : lookup second.sid (delete first.sid dict) ≡ none =
      ground (arith, lookup-delete first.sid second.sid dict, eq_iff first.sid second.sid) in
    rw (on_close, gone) refl
