-- ===== src/Transfer.antt =====
-- server/internal/transfer/transfer.go: one-shot channels that join one reader to one writer.
-- A `*channel` outlives its entry in the map `channels`, so channels live in a heap under their id
-- and `channels` holds the ids that are registered. Times are in nanoseconds, and each function is
-- one or more sections under a lock, which other requests may separate: `Take` and `close_channel`
-- are those sections of `expire` and `Close`.
use nfrx.Prelude.{
  ℤ, pos, negsuc, ℕ, zero, suc, ◌+◌, String, Bool, true, false, ◌&&◌, Option, none, some, List, [],
  ◌∷◌, str_eq, if◌then◌else◌, contains,
}
use nfrx.Prelude.Dict.{Dict, lookup, insert}
pub mod Steps
pub mod Roles
pub mod Expiry
mod Examples

pub data TransferError : Type 0 where
  err_not_found err_expired err_role_taken err_closed : TransferError
  -- a context's or a copy's error
  err_other : String → TransferError

-- `Role` is an int; `other_role` is any value but the two constants.
pub data Role : Type 0 where
  reader_role writer_role other_role : Role

-- Which request is attached; the pair of its writer and request is opaque.
abbrev pub Endpoint : Type 0
Endpoint = ℕ

-- `ready` and `done` say whether the Go channel is closed, `timer` when an armed timer is due.
pub record Channel : Type 0 where
  pub id : String
  pub expires_at : ℕ
  pub reader : Option Endpoint
  pub writer : Option Endpoint
  pub ready : Bool
  pub done : Bool
  pub timer : Option ℕ
  pub closed : Bool
  pub err : Option TransferError

pub record Registry : Type 0 where
  pub channels : List String
  pub heap : Dict Channel
  pub ttl : ℕ

pub data Result {ℓ} (A : Type ℓ) : Type ℓ where
  ok : A → Result A
  fail : TransferError → Result A

abbrev pub default_ttl : ℕ
default_ttl = 60_000_000_000

-- A duration is signed; one that is not positive is replaced.
unfoldable pub new_registry : ℤ → Registry
new_registry (pos zero) = record { channels = []; heap = []; ttl = default_ttl }
new_registry (pos (suc n)) = record { channels = []; heap = []; ttl = suc n }
new_registry (negsuc n) = record { channels = []; heap = []; ttl = default_ttl }

abbrev pub new_channel : String → ℕ → Channel
new_channel id expires = record {
  id = id;
  expires_at = expires;
  reader = none;
  writer = none;
  ready = false;
  done = false;
  timer = some expires;
  closed = false;
  err = none;
}

-- `id` is what uuid.NewString returns, `now` what time.Now does.
unfoldable pub create : String → ℕ → Registry → Registry × String × ℕ
create id now r =
    let expires = now + r.ttl in
    (
      record r { channels = id ∷ r.channels; heap = insert id (new_channel id expires) r.heap },
      id,
      expires,
    )

-- delete(r.channels, id)
unfoldable pub remove : String → List String → List String
remove id [] = []
remove id (x ∷ xs) = let rest = remove id xs in if str_eq x id then rest else x ∷ rest

-- The first section of `expire` and `Close`: unregister the channel; says whether it was there.
unfoldable pub take_channel : String → Registry → Registry × Bool
take_channel id r =
    if contains r.channels id
    then (record r { channels = remove id r.channels }, true)
    else (r, false)

-- (*channel).close. Only the call that sets `closed` goes on to close(ch.done).
unfoldable pub close : Option TransferError → Channel → Channel
close e ch = if ch.closed then ch else record ch { closed = true; err = e; done = true }

unfoldable pub close_channel : String → Option TransferError → Registry → Registry
unfolding close
close_channel id e r = elim (lookup id r.heap) [
  | none ↦ r
  | some ch ↦ record r { heap = insert id (close e ch) r.heap }
]

unfoldable pub close_taken : String → Option TransferError → Registry × Bool → Registry
unfolding close_channel
close_taken id e (r, true) = close_channel id e r
close_taken id e (r, false) = r

unfoldable pub expire : String → Registry → Registry
unfolding take_channel close_taken
expire id r = close_taken id (some err_expired) (take_channel id r)

-- Registry.Close
unfoldable pub close_transfer : String → Option TransferError → Registry → Registry
unfolding take_channel close_taken
close_transfer id e r = close_taken id e (take_channel id r)

abbrev pub is_some {ℓ} : {A : Type ℓ} → Option A → Bool
is_some none = false
is_some (some a) = true

-- The end of `Attach`: with both ends there the timer is stopped and `ready` closed, once.
unfoldable pub join : Channel → Channel
join ch =
    if is_some ch.reader && is_some ch.writer then record ch { timer = none; ready = true } else ch

abbrev pub closed_error : Option TransferError → TransferError
closed_error (some err_expired) = err_expired
closed_error _ = err_closed

unfoldable pub take_role : Channel → Role → Endpoint → Result Channel
unfolding join
take_role ch reader_role ep =
    if is_some ch.reader then fail err_role_taken else ok (join (record ch { reader = some ep }))
take_role ch writer_role ep =
    if is_some ch.writer then fail err_role_taken else ok (join (record ch { writer = some ep }))
take_role ch other_role ep = fail err_closed

-- The section of `Attach` under the channel's lock.
unfoldable pub attach_channel : Channel → Role → Endpoint → Result Channel
unfolding take_role
attach_channel ch role ep = if ch.closed then fail (closed_error ch.err) else take_role ch role ep

-- The channel that `Attach` finds under the registry's lock.
unfoldable pub registered : String → Registry → Option Channel
registered id r = if contains r.channels id then lookup id r.heap else none

unfoldable pub store_attached : String → Registry → Result Channel → Registry × Result Channel
store_attached id r (ok ch) = (record r { heap = insert id ch r.heap }, ok ch)
store_attached id r (fail e) = (r, fail e)

unfoldable pub attach : String → Role → Endpoint → Registry → Registry × Result Channel
unfolding registered attach_channel store_attached
attach id role ep r = elim (registered id r) [
  | none ↦ (r, fail err_not_found)
  | some ch ↦ store_attached id r (attach_channel ch role ep)
]

-- A status code and the value of "error" or "status".
abbrev pub Response : Type 0
Response = ℕ × String

unfoldable pub write_error : Option TransferError → Response
write_error none = (400, "invalid_transfer")
write_error (some err_not_found) = (404, "transfer_not_found")
write_error (some err_expired) = (410, "transfer_expired")
write_error (some err_role_taken) = (409, "transfer_in_use")
write_error (some err_closed) = (410, "transfer_closed")
write_error (some (err_other e)) = (502, "transfer_failed")

-- What ends the wait of a handler that has attached: the case that `select` takes.
pub data Wake : Type 0 where
  on_ready on_done : Wake
  on_cancel : TransferError → Wake

-- `copied` is what io.CopyBuffer returns.
unfoldable pub pipe : Option TransferError → Channel → Option TransferError
pipe copied ch = if is_some ch.reader && is_some ch.writer then copied else some err_closed

abbrev pub error_of : String → Registry → Option TransferError
error_of id r = elim (lookup id r.heap) [ none ↦ none | some ch ↦ ch.err ]

-- HandleReader, from its wake up; after `ready` it waits for `done` and writes nothing more.
unfoldable pub resume_reader : String → Wake → Registry → Registry × Option Response
unfolding write_error close_transfer
resume_reader id on_ready r = (r, none)
resume_reader id on_done r = (r, some (write_error (error_of id r)))
resume_reader id (on_cancel e) r = (close_transfer id (some e) r, none)

unfoldable pub piped : String → Option TransferError → Registry → Registry × Option Response
unfolding close_transfer
piped id (some e) r = (close_transfer id (some e) r, some (502, "transfer_failed"))
piped id none r = (close_transfer id none r, some (200, "ok"))

-- HandleWriter, from its wake up.
unfoldable pub resume_writer :
    String → Wake → Option TransferError → Registry → Registry × Option Response
unfolding write_error close_transfer pipe piped
resume_writer id on_ready copied r = elim (lookup id r.heap) [
  | none ↦ piped id (some err_closed) r
  | some ch ↦ piped id (pipe copied ch) r
]
resume_writer id on_done copied r = (r, some (write_error (error_of id r)))
resume_writer id (on_cancel e) copied r = (close_transfer id (some e) r, none)
