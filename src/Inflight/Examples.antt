-- ===== src/Inflight/Examples.antt =====
-- A counter with one request, and the theorems at it.
use nfrx.Prelude.{arith, occurrences, refl, ◌≡◌}
use nfrx.Inflight.{
  inc, Counter, close_zero, dec, ensure_channel, lower, make_channel, raise, zero_counter,
}
use nfrx.Inflight.Zero.{Reach, after, decs, drained-closed, incs, start}

abbrev one_request : Counter
one_request = inc zero_counter

abbrev finished : Counter
finished = dec one_request

one_request-Reach : Reach one_request
one_request-Reach = after start incs

drained-closed_example : occurrences 1 finished.closed ≡ 1
unfolding inc dec raise lower ensure_channel make_channel close_zero
drained-closed_example = drained-closed finished 1 (after one_request-Reach decs) refl (omega arith)
