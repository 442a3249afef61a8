-- ===== src/Transfer/Expiry.antt =====
-- expire, Close and the handlers' answers in transfer.go: how a transfer ends.
use nfrx.Prelude.{
  Option, String, arith, if◌then◌else◌, none, refl, some, str_eq_refl, true, ◌&&◌, ◌≡◌, ap,
}
use nfrx.Prelude.Dict.{lookup-insert, lookup}
use nfrx.Transfer.{
  Channel, Endpoint, Registry, Role, TransferError, attach, close_transfer, err_expired,
  err_not_found, expire, fail, is_some, on_done, on_ready, registered, resume_reader, resume_writer,
  error_of, write_error,
}
use nfrx.Transfer.Steps.{Inv, contains-remove}

-- Closing a registered channel takes it out of the map and closes its `done` with that error.
close_transfer_closes :
    (id : String) (e : Option TransferError) (r : Registry) (ch : Channel)
    → Inv r
    → registered id r ≡ some ch
    → (registered id (close_transfer id e r) ≡ none)
      × (lookup id (close_transfer id e r).heap
          ≡ some (record ch { closed = true; err = e; done = true }))
unfolding close_transfer registered
close_transfer_closes id e r ch v found = ground (
  arith,
  v.open_registered id ch,
  contains-remove id id r.channels,
  lookup-insert id id (record ch { closed = true; err = e; done = true }) r.heap,
  str_eq_refl id,
)

expire-eq-close_transfer :
    (id : String) (r : Registry) → expire id r ≡ close_transfer id (some err_expired) r
unfolding expire close_transfer
expire-eq-close_transfer id r = refl

unregistered-attach :
    (id : String) (role : Role) (ep : Endpoint) (r : Registry)
    → registered id r ≡ none
    → attach id role ep r ≡ (r, fail err_not_found)
unfolding attach
unregistered-attach id role ep r h = rw (h, attach)

error_of-found :
    (id : String) (r : Registry) (ch : Channel)
    → lookup id r.heap ≡ some ch
    → error_of id r ≡ ch.err
error_of-found id r ch h = ground arith

-- When the timer of a registered channel fires, in a registry that keeps the invariant, every later
-- attachment is told that there is no such transfer, and a request that waits on the channel, on
-- either end, answers 410 with transfer_expired.
pub expire_ends :
    (id : String) (r : Registry) (ch : Channel) (copied : Option TransferError)
    → Inv r
    → registered id r ≡ some ch
    → ((role : Role) (ep : Endpoint) → (attach id role ep (expire id r)).1 ≡ fail err_not_found)
      × ((resume_reader id on_done (expire id r)).1 ≡ some (410, "transfer_expired"))
      × ((resume_writer id on_done copied (expire id r)).1 ≡ some (410, "transfer_expired"))
unfolding resume_reader resume_writer
expire_ends id r ch copied v found =
    let ended = close_transfer_closes id (some err_expired) r ch v found in
    rw (expire-eq-close_transfer id r) (
      (λ role ep. rw (unregistered-attach id role ep _ ended.0)),
      ap (λ o. some (write_error o))
          (error_of-found id (close_transfer id (some err_expired) r) _ ended.1),
      ap (λ o. some (write_error o))
          (error_of-found id (close_transfer id (some err_expired) r) _ ended.1),
    )

-- A writer that is woken on a registered channel with both ends copies the body and ends the
-- transfer: it answers 200 if the copy succeeds and 502 if not, and either way the channel is
-- unregistered, its `done` is closed for the reader, and it keeps the copy's error.
pub resume_writer_ends :
    (id : String) (r : Registry) (ch : Channel) (copied : Option TransferError)
    → Inv r
    → registered id r ≡ some ch
    → (is_some ch.reader && is_some ch.writer) ≡ true
    → ((resume_writer id on_ready copied r).1
        ≡ some (if is_some copied then (502, "transfer_failed") else (200, "ok")))
      × (registered id (resume_writer id on_ready copied r).0 ≡ none)
      × (lookup id (resume_writer id on_ready copied r).0.heap
          ≡ some (record ch { closed = true; err = copied; done = true }))
unfolding resume_writer registered
resume_writer_ends id r ch none v found both =
    let ended = close_transfer_closes id none r ch v found in ground (arith, ended)
resume_writer_ends id r ch (some e) v found both =
    let ended = close_transfer_closes id (some e) r ch v found in ground (arith, ended)
