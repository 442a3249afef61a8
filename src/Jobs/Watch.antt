-- ===== src/Jobs/Watch.antt =====
-- HandleJobEvents in registry.go: one client that watches a job over a stream of events. The
-- sections that it runs are snapshot (Queue), subscribe and unsubscribe (Events), and
-- onClientConnect and onClientDisconnect (Timers); here is what it does between them.
use nfrx.Prelude.{
  ℕ, ℤ, Bool, Bool-cases, List, Option, String, [], arith, false, if◌then◌else◌, inl, inr, none,
  pos, some, true, ◌&&◌, ◌++◌, ◌||◌, ◌∷◌, ◌≡◌, refl,
}
use nfrx.Prelude.Int.{leb_ℤ}
use nfrx.Jobs.Types.{Registry, Event, JobView, view_data}
use nfrx.Jobs.Events.{subscribe, should_close_after}
use nfrx.Jobs.Queue.{snapshot}
use nfrx.Jobs.Timers.{on_client_connect}

-- What was written, whether closeTimer runs, and whether the handler has returned.
pub record Watch : Type 0 where
  pub written : List Event
  pub closing : Bool
  pub over : Bool

-- The start: the view is taken before the client subscribes. A job that is not known is a 404.
unfoldable pub open_watch : String → ℕ → Registry → Option (Registry × JobView)
unfolding snapshot subscribe on_client_connect
open_watch id chan r = elim (snapshot id r) [
  | none ↦ none
  | some (seen, place) ↦ some (on_client_connect id (subscribe id chan r), seen)
]

unfoldable pub start_watch : JobView → Watch
start_watch seen = record {
  written = record { type = "status"; body = view_data seen } ∷ [];
  closing = false;
  over = false;
}

-- case ev := <-ch
unfoldable pub on_published : ℤ → Event → Watch → Watch
unfolding should_close_after
on_published delay ev w =
    let more = w.written ++ ev ∷ [] in
    if leb_ℤ (pos 0) delay && should_close_after ev
    then if leb_ℤ delay (pos 0)
      then record { written = more; closing = w.closing; over = true }
      else record { written = more; closing = true; over = w.over }
    else record { written = more; closing = w.closing; over = w.over }

-- case <-closeCh, which is nil until the timer is made, and case <-ctx.Done()
unfoldable pub on_close_timer : Watch → Watch
on_close_timer w = if w.closing then record w { over = true } else w

unfoldable pub on_gone : Watch → Watch
on_gone w = record w { over = true }

-- The events that the client's channel gives, until the handler returns.
unfoldable pub watch_events : ℤ → List Event → Watch → Watch
unfolding on_published
watch_events delay [] w = w
watch_events delay (ev ∷ evs) w =
    if w.over then w else watch_events delay evs (on_published delay ev w)

-- Some event ends the job.
unfoldable pub any_terminal : List Event → Bool
unfolding should_close_after
any_terminal [] = false
any_terminal (ev ∷ evs) = should_close_after ev || any_terminal evs

abbrev watching : List Event → Bool → Bool → Watch
watching written closing over = record { written = written; closing = closing; over = over }

returned_stays :
    (delay : ℤ) (evs : List Event) (written : List Event) (closing : Bool)
    → watch_events delay evs (watching written closing true) ≡ watching written closing true
unfolding watch_events
returned_stays delay [] written closing = refl
returned_stays delay (ev ∷ evs) written closing = refl

watch_events-closing :
    (delay : ℤ) (evs written : List Event) (closing : Bool)
    → let w = watch_events delay evs (watching written closing false) in
      (w.closing || w.over) ≡ (closing || (leb_ℤ (pos 0) delay && any_terminal evs))
unfolding watch_events any_terminal
watch_events-closing delay [] written closing = ground arith
watch_events-closing delay (ev ∷ evs) written closing =
    elim (Bool-cases (leb_ℤ (pos 0) delay && should_close_after ev)) [
      | inr stays ↦
          rw (on_published, stays)
            (ground (arith, stays, watch_events-closing delay evs (written ++ ev ∷ []) closing))
      | inl ends ↦ elim (Bool-cases (leb_ℤ delay (pos 0))) [
        | inl at_once ↦
            rw (on_published, ends, at_once, returned_stays delay evs (written ++ ev ∷ []) closing)
              (ground (arith, ends))
        | inr later ↦
            rw (on_published, ends, later)
              (ground (arith, ends, watch_events-closing delay evs (written ++ ev ∷ []) true))
      ]
    ]

-- A client that watches is let go, at once or when its timer fires, exactly if the delay is not
-- negative and an event that ends the job has come through its channel: the view that it was given
-- at the start does not count, even if it is that of a job that has ended.
pub watch_ends :
    (delay : ℤ) (evs : List Event) (seen : JobView)
    → let w = watch_events delay evs (start_watch seen) in
      ((w.closing || w.over) ≡ (leb_ℤ (pos 0) delay && any_terminal evs))
      × ((on_close_timer w).over ≡ (w.closing || w.over))
unfolding start_watch on_close_timer
watch_ends delay evs seen =
    let started : List Event = record { type = "status"; body = view_data seen } ∷ [] in
    (watch_events-closing delay evs started false, ground arith)
