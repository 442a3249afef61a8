-- ===== src/Workers/JobChannels.antt =====
-- The channels of jobs: registry.go and ws.go add them, take them out and close them.
use nfrx.Prelude.{
  ℕ, List, Option-cases, String, [], arith, inl, inr, refl, some, ◌+◌, ◌∷◌, ◌≡◌, ◌≤◌, Bool-cases,
  occurrences, one_if, ==_iff, ◌<◌, ◌==◌,
}
use nfrx.Prelude.Dict.{lookup, insert, delete}
use nfrx.Workers.{Worker}
use nfrx.Workers.Registry.{
  modify, at, Store, add_job, remove_job, take_job, and_then, close_channel, done, finish, move_job,
  remove_number, send_on, take_out,
}
use nfrx.Workers.Counts.{jobs_held, length-modify, sends_held-modify}
use nfrx.Workers.Held.{
  jobs_held-modify, longer_heap, jobs_held-modify-none, occurrences-delete, occurrences-insert,
}
use nfrx.Workers.Closing.{Inv, below-suc}

pub add_job-Inv : (ref : ℕ) (job : String) (s : Store) → Inv s → Inv (add_job ref job s)
unfolding add_job
add_job-Inv ref job s k =
    let f : Worker → Worker = λ w. record w { jobs = insert job s.next w.jobs } in
    record {
      inside =
          longer_heap s.heap (modify f ref s.heap) s.workers
            (omega (arith, length-modify f ref s.heap)) k.inside;
      once = λ c. omega (
        arith,
        k.once c,
        below-suc c s.next,
        sends_held-modify c f ref s.heap s.workers (λ w. refl),
        more c,
      );
    }
  where
    more :
        (c : ℕ)
        → jobs_held c (modify (λ w. record w { jobs = insert job s.next w.jobs }) ref s.heap)
          ≤ jobs_held c s.heap + one_if c s.next
    more c =
        let f : Worker → Worker = λ w. record w { jobs = insert job s.next w.jobs } in
        elim (Option-cases (at s.heap ref)) [
          | inl none_there ↦ omega (arith, jobs_held-modify-none c f ref s.heap none_there)
          | inr (w, there) ↦ omega (
            arith,
            jobs_held-modify c f ref s.heap w there,
            occurrences-insert c s.next job w.jobs,
          )
        ]

pub take_job-Inv :
    (ref : ℕ) (job : String) (w : Worker) (s : Store)
    → at s.heap ref ≡ some w
    → Inv s
    → Inv (take_job ref job w s)
unfolding take_job
take_job-Inv ref job w s there k = elim (Option-cases (lookup job w.jobs)) [
  | inl missing ↦ rw (missing, take_job) k
  | inr (ch, found) ↦
      rw (found, take_job)
        (let f : Worker → Worker = λ u. record u { jobs = delete job u.jobs } in
          record {
            inside =
                longer_heap s.heap (modify f ref s.heap) s.workers
                  (omega (arith, length-modify f ref s.heap)) k.inside;
            once = λ c. omega (
              arith,
              k.once c,
              sends_held-modify c f ref s.heap s.workers (λ u. refl),
              jobs_held-modify c f ref s.heap w there,
              occurrences-delete c ch job w.jobs found,
            );
          })
]

pub remove_job-Inv : (ref : ℕ) (job : String) (s : Store) → Inv s → Inv (remove_job ref job s)
unfolding remove_job
remove_job-Inv ref job s k = elim (Option-cases (at s.heap ref)) [
  | inl none_there ↦ rw (none_there, remove_job) k
  | inr (w, there) ↦ rw (there, remove_job) (take_job-Inv ref job w s there k)
]

move_job-Inv :
    (ref : ℕ) (job : String) (w : Worker) (s : Store)
    → at s.heap ref ≡ some w
    → Inv s
    → Inv (move_job ref job w s)
unfolding move_job
move_job-Inv ref job w s there k = elim (Option-cases (lookup job w.jobs)) [
  | inl missing ↦ rw (missing, move_job) k
  | inr (ch, found) ↦
      rw (found, move_job)
        (let f : Worker → Worker = λ u. record u { jobs = delete job u.jobs } in
          record {
            inside =
                longer_heap s.heap (modify f ref s.heap) s.workers
                  (omega (arith, length-modify f ref s.heap)) k.inside;
            once = λ c. omega (
              arith,
              k.once c,
              sends_held-modify c f ref s.heap s.workers (λ u. refl),
              jobs_held-modify c f ref s.heap w there,
              occurrences-delete c ch job w.jobs found,
            );
          })
]

pub take_out-Inv : (ref : ℕ) (job : String) (s : Store) → Inv s → Inv (take_out ref job s)
unfolding take_out
take_out-Inv ref job s k = elim (Option-cases (at s.heap ref)) [
  | inl none_there ↦ rw (none_there, take_out) k
  | inr (w, there) ↦ rw (there, take_out) (move_job-Inv ref job w s there k)
]

occurrences-remove_number :
    (c d : ℕ) (ds : List ℕ)
    → 0 < occurrences c ds
    → occurrences d (remove_number c ds) + one_if d c ≡ occurrences d ds
unfolding remove_number
occurrences-remove_number c d [] h = absurd (omega (arith, h))
occurrences-remove_number c d (e ∷ ds) h = elim (Bool-cases (e == c)) [
  | inl same ↦ rw same (ground (arith, same))
  | inr other ↦
      rw other (ground (arith, other, occurrences-remove_number c d ds (ground (arith, other, h))))
]

-- The store after the send and the close of a channel that was taken out.
abbrev pub finished : ℕ → Store → Store
finished ch s = record s { finishing = remove_number ch s.finishing; closed = ch ∷ s.closed }

pub finished-Inv :
    (ch : ℕ) (s : Store) → 0 < occurrences ch s.finishing → Inv s → Inv (finished ch s)
finished-Inv ch s held k = record {
  inside = k.inside;
  once = λ c. omega (arith, k.once c, occurrences-remove_number ch c s.finishing held);
}

pub send_on-done : (ch : ℕ) (s : Store) → occurrences ch s.closed ≡ 0 → send_on ch s ≡ done s
unfolding send_on
send_on-done ch s e = rw ((==_iff (occurrences ch s.closed) 0).1 e) refl

close_channel-done :
    (ch : ℕ) (s : Store)
    → occurrences ch s.closed ≡ 0
    → close_channel ch s ≡ done (record s { closed = ch ∷ s.closed })
unfolding close_channel
close_channel-done ch s e = rw ((==_iff (occurrences ch s.closed) 0).1 e) refl

-- A channel that was taken out is open, so that neither the send nor the close panics.
pub finish-finished :
    (ch : ℕ) (s : Store)
    → 0 < occurrences ch s.finishing
    → Inv s
    → finish ch s ≡ done (finished ch s)
unfolding finish and_then
finish-finished ch s held k =
    let open_now : occurrences ch s.closed ≡ 0 = ground (arith, k.once ch, held) in
    rw (send_on-done ch s open_now)
      (close_channel-done ch (record s { finishing = remove_number ch s.finishing }) open_now)
