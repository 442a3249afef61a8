-- ===== src/Transfer/Steps.antt =====
-- transfer.go: every order in which requests and timers can run their locked sections.
use nfrx.Prelude.{
  ℕ, String, ◌≡◌, true, false, ◌&&◌, Option, none, some, List, [], ◌∷◌, arith, str_eq, eq_iff,
  if◌then◌else◌, contains, Bool-cases, Option-cases, inl, inr, ◌≢◌,
}
use nfrx.Prelude.Dict.{lookup, insert, lookup-insert}
use nfrx.Transfer.{
  Registry, Channel, TransferError, Role, Endpoint, ok, is_some, create, take_channel, remove,
  close, close_channel, attach_channel, reader_role, writer_role, other_role,
}

-- A channel is ready exactly when both ends are attached, its timer is then gone, its `done` is
-- closed exactly when it is, and an open channel has no error.
pub record IsSound (ch : Channel) : Type 0 where
  pub ready_joined : ch.ready ≡ (is_some ch.reader && is_some ch.writer)
  pub timer_gone : ch.ready ≡ true → ch.timer ≡ none
  pub done_closed : ch.done ≡ ch.closed
  pub open_clean : ch.closed ≡ false → ch.err ≡ none

-- A registered id has a channel that is open; every channel in the heap is sound.
pub record Inv (r : Registry) : Type 0 where
  pub sound : (id : String) (ch : Channel) → lookup id r.heap ≡ some ch → IsSound ch
  pub open_registered :
      (id : String) (ch : Channel)
      → lookup id r.heap ≡ some ch
      → contains r.channels id ≡ true
      → ch.closed ≡ false
  pub stored : (id : String) → contains r.channels id ≡ true → lookup id r.heap ≢ none

-- The sections. A goroutine closes a channel only after it has unregistered it, and attaches to one
-- that it has looked up; ids are fresh.
pub data Step (r : Registry) : Registry → Type 0 where
  creates : (id : String) (now : ℕ) → lookup id r.heap ≡ none → Step r (create id now r).0
  takes : (id : String) → Step r (take_channel id r).0
  closes :
      (id : String) (e : Option TransferError)
      → contains r.channels id ≡ false
      → Step r (close_channel id e r)
  attaches :
      (id : String) (role : Role) (ep : Endpoint) (ch new : Channel)
      → lookup id r.heap ≡ some ch
      → attach_channel ch role ep ≡ ok new
      → Step r (record r { heap = insert id new r.heap })

pub data Reach (r : Registry) : Registry → Type 0 where
  here : Reach r r
  next : {s t : Registry} → Reach r s → Step s t → Reach r t

attach_channel-IsSound :
    (ch new : Channel) (role : Role) (ep : Endpoint)
    → IsSound ch
    → attach_channel ch role ep ≡ ok new
    → IsSound new × (new.closed ≡ false) × (ch.closed ≡ false)
unfolding attach_channel
attach_channel-IsSound ch new reader_role ep s h = ground arith
attach_channel-IsSound ch new writer_role ep s h = ground arith
attach_channel-IsSound ch new other_role ep s h = ground arith

close-IsSound : (e : Option TransferError) (ch : Channel) → IsSound ch → IsSound (close e ch)
unfolding close
close-IsSound e ch s = ground arith

pub contains-remove :
    (id j : String) (xs : List String)
    → contains (remove id xs) j ≡ (if str_eq id j then false else contains xs j)
unfolding contains remove
contains-remove id j [] = ground arith
contains-remove id j (x ∷ xs) =
    ground (arith, contains-remove id j xs, eq_iff x id, eq_iff x j, eq_iff id j)

create-Inv :
    (id : String) (now : ℕ) (r : Registry)
    → lookup id r.heap ≡ none
    → Inv r
    → Inv (create id now r).0
unfolding create contains
create-Inv id now r fresh v = record {
  sound = λ j ch. rw lookup-insert (ground (arith, v.sound j ch));
  open_registered = λ j ch. rw lookup-insert (ground (arith, v.open_registered j ch, eq_iff id j));
  stored = λ j. rw lookup-insert (ground (arith, v.stored j, eq_iff id j));
}

take_channel-Inv : (id : String) (r : Registry) → Inv r → Inv (take_channel id r).0
unfolding take_channel
take_channel-Inv id r v = elim (Bool-cases (contains r.channels id)) [
  | inl there ↦ rw there (record {
    sound = v.sound;
    open_registered = λ j ch. rw contains-remove (ground (arith, v.open_registered j ch));
    stored = λ j. rw contains-remove (ground (arith, v.stored j));
  })
  | inr gone ↦ rw gone v
]

-- Writing back a channel that keeps the facts about its id.
insert-Inv :
    (id : String) (new : Channel) (r : Registry)
    → IsSound new
    → (contains r.channels id ≡ true → new.closed ≡ false)
    → Inv r
    → Inv (record r { heap = insert id new r.heap })
insert-Inv id new r s o v = record {
  sound = λ j ch. rw lookup-insert (ground (arith, v.sound j ch));
  open_registered = λ j ch. rw lookup-insert (ground (arith, v.open_registered j ch, eq_iff id j));
  stored = λ j. rw lookup-insert (ground (arith, v.stored j, eq_iff id j));
}

close_channel-Inv :
    (id : String) (e : Option TransferError) (r : Registry)
    → contains r.channels id ≡ false
    → Inv r
    → Inv (close_channel id e r)
unfolding close_channel
close_channel-Inv id e r gone v = elim (Option-cases (lookup id r.heap)) [
  | inl none' ↦ rw (none', close_channel) v
  | inr (ch, found) ↦
      rw (found, close_channel)
        (insert-Inv id (close e ch) r (close-IsSound e ch (v.sound id ch found)) (λ there. cc) v)
]

pub Step-Inv : {r s : Registry} → Step r s → Inv r → Inv s
Step-Inv {r} (creates id now fresh) v = create-Inv id now r fresh v
Step-Inv {r} (takes id) v = take_channel-Inv id r v
Step-Inv {r} (closes id e gone) v = close_channel-Inv id e r gone v
Step-Inv {r} (attaches id role ep ch new found done) v =
    let kept = attach_channel-IsSound ch new role ep (v.sound id ch found) done in
    insert-Inv id new r kept.0 (λ there. kept.1) v

-- In every order of creations, timer expiries, closes and attachments, from a registry where it
-- holds: a channel is ready exactly when both roles are taken, a ready channel has no timer, `done`
-- is closed exactly when the channel is, an open channel has no error, and a registered id has an
-- open channel.
pub Reach-Inv : {r s : Registry} → Reach r s → Inv r → Inv s
Reach-Inv here v = v
Reach-Inv (next path step) v = Step-Inv step (Reach-Inv path v)
