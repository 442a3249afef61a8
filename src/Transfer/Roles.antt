-- ===== src/Transfer/Roles.antt =====
-- Attach in transfer.go: who may attach, and how the two ends meet.
use nfrx.Prelude.{Option, String, arith, if◌then◌else◌, none, some, str_eq, ◌&&◌, ◌≡◌, ◌≢◌, refl}
use nfrx.Prelude.Dict.{lookup, lookup-insert}
use nfrx.Transfer.{
  Channel, Endpoint, Registry, Role, TransferError, attach, attach_channel, closed_error,
  err_closed, err_not_found, err_role_taken, fail, is_some, ok, other_role, reader_role, registered,
  writer_role, join, store_attached,
}
use nfrx.Transfer.Steps.{Inv, IsSound}

-- The end that a role stands for; a value that is no role has none.
abbrev pub end_of : Role → Channel → Option Endpoint
end_of reader_role ch = ch.reader
end_of writer_role ch = ch.writer
end_of other_role ch = none

-- The four ways in which an attachment is refused, and the error that each gives.
abbrev pub refusal : Role → Option Channel → Option TransferError
refusal role none = some err_not_found
refusal other_role (some ch) = some (if ch.closed then closed_error ch.err else err_closed)
refusal reader_role (some ch) =
    if ch.closed
    then some (closed_error ch.err)
    else if is_some ch.reader
    then some err_role_taken
    else none
refusal writer_role (some ch) =
    if ch.closed
    then some (closed_error ch.err)
    else if is_some ch.writer
    then some err_role_taken
    else none

-- If the id is not registered, the channel is closed, the value is no role, or the role is taken,
-- `Attach` returns the error of that case and changes nothing.
pub attach_refused :
    (id : String) (role : Role) (ep : Endpoint) (r : Registry) (e : TransferError)
    → refusal role (registered id r) ≡ some e
    → attach id role ep r ≡ (r, fail e)
unfolding attach
attach_refused id reader_role ep r e h = ground arith
attach_refused id writer_role ep r e h = ground arith
attach_refused id other_role ep r e h = ground arith

-- What a granted attachment makes of the channel.
abbrev pub Granted : Role → Endpoint → Channel → Channel → Type 0
Granted role ep ch new =
    (end_of role new ≡ some ep)
    × ((other : Role) → other ≢ role → end_of other new ≡ end_of other ch)
    × (new.ready ≡ (is_some new.reader && is_some new.writer))

attach_channel-Granted :
    (ch : Channel) (role : Role) (ep : Endpoint)
    → IsSound ch
    → refusal role (some ch) ≡ none
    → (new : Channel) × (attach_channel ch role ep ≡ ok new) × Granted role ep ch new
unfolding attach_channel
attach_channel-Granted ch reader_role ep s h =
    (join (record ch { reader = some ep }), ground arith, (ground arith, others, ground arith))
  where
    others :
        (other : Role)
        → other ≢ reader_role
        → end_of other (join (record ch { reader = some ep })) ≡ end_of other ch
    others reader_role n = absurd (n refl)
    others writer_role n = ground arith
    others other_role n = refl
attach_channel-Granted ch writer_role ep s h =
    (join (record ch { writer = some ep }), ground arith, (ground arith, others, ground arith))
  where
    others :
        (other : Role)
        → other ≢ writer_role
        → end_of other (join (record ch { writer = some ep })) ≡ end_of other ch
    others reader_role n = ground arith
    others writer_role n = absurd (n refl)
    others other_role n = refl
attach_channel-Granted ch other_role ep s h = cc

registered-lookup :
    (id : String) (r : Registry) (ch : Channel)
    → registered id r ≡ some ch
    → lookup id r.heap ≡ some ch
unfolding registered
registered-lookup id r ch h = ground arith

-- On a registered channel, in a registry that keeps the invariant, an attachment with no reason to
-- refuse it returns the channel with the role's end set to the caller; the other end and every
-- other channel are as they were, and the channel is ready exactly when both ends are now there.
pub attach-Granted :
    (id : String) (role : Role) (ep : Endpoint) (r : Registry) (ch : Channel)
    → Inv r
    → registered id r ≡ some ch
    → refusal role (some ch) ≡ none
    → (new : Channel) × ((attach id role ep r).1 ≡ ok new)
      × Granted role ep ch new
      × ((j : String)
          → lookup j (attach id role ep r).0.heap
            ≡ (if str_eq id j then some new else lookup j r.heap))
unfolding attach
attach-Granted id role ep r ch v found granted =
    let (new, done, kept) =
      attach_channel-Granted ch role ep (v.sound id ch (registered-lookup id r ch found)) granted in
    (
      new,
      rw (found, attach) (rw (done, store_attached)),
      kept,
      λ j. rw (found, attach) (rw (done, store_attached) (lookup-insert id j new r.heap)),
    )
