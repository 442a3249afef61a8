-- ===== src/Workers/LateSends.antt =====
-- Sends of ws.go and of the callers that come behind the lock, when the channel is closed in between.
use nfrx.Prelude.{ℕ, String, arith, false, occurrences, one_if, refl, some, ◌++◌, ◌+◌, ◌==◌, ◌≡◌}
use nfrx.Prelude.Dict.{lookup}
use nfrx.Workers.{Worker}
use nfrx.Workers.Registry.{
  values, at, Store, evict, find_job, panicked, remove, remove_job, send_on, shut_down, take_job,
}

-- A connection that has looked up the channel of a job for job_chunk, and sends on it when the
-- request has removed the job in between, panics; so does a request that has picked a worker and
-- sends to it when the worker is removed in between.
pub late_send_panics :
    (s : Store) (id job : String) (ref ch : ℕ) (w : Worker)
    → at s.heap ref ≡ some w
    → lookup job w.jobs ≡ some ch
    → lookup id s.workers ≡ some ref
    → (find_job ref job s ≡ some ch)
      × (send_on ch (remove_job ref job s) ≡ panicked)
      × (send_on w.send (remove id s) ≡ panicked)
unfolding find_job send_on remove_job take_job remove evict shut_down
late_send_panics s id job ref ch w there held found = (
  rw (there, find_job) held,
  rw (there, held, remove_job, take_job, hit ch (occurrences ch s.closed)) refl,
  rw
      (
        found,
        there,
        remove,
        evict,
        shut_down,
        hit w.send (occurrences w.send (values w.jobs ++ s.closed)),
      )
      refl,
)
  where
    hit : (c n : ℕ) → (one_if c c + n == 0) ≡ false
    hit c n = ground arith
