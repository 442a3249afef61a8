-- ===== src/Workers/Closing.antt =====
-- Who may close a channel of the worker registry: the operations of registry.go that end workers.
use nfrx.Prelude.{
  ℕ, List, Option-cases, String, [], ap, arith, if◌then◌else◌, inl, inr, length, length-append, ltb,
  refl, some, suc, ℤ, ◌++◌, ◌+◌, ◌∷◌, ◌≡◌, ◌≤◌, Bool-cases, occurrences, occurrences-append, one_if,
}
use nfrx.Prelude.Dict.{Dict, lookup, delete}
use nfrx.Workers.{Worker}
use nfrx.Workers.Registry.{
  modify, values, at, Store, evict, is_expired, modify_at, modify_id, new_store, prune_each,
  prune_one, register, remove, shut_down,
}
use nfrx.Workers.Counts.{
  jobs_held, PointsInto, at-append_last, length-modify, sends_held, sends_held-append,
  sends_held-delete, sends_held-delete_le, sends_held-insert, sends_held-modify, send_of,
}
use nfrx.Workers.Held.{
  jobs_held-modify, PointsInto-delete, PointsInto-insert, longer_heap, jobs_held-append,
  jobs_held_kept,
}

-- A channel is held at most once, or closed at most once, but not both; numbers that were not
-- given out are neither.
pub record Inv (s : Store) : Type 0 where
  pub inside : PointsInto s.heap s.workers
  pub once :
      (c : ℕ)
      → sends_held c s.heap s.workers
          + jobs_held c s.heap
          + occurrences c s.finishing
          + occurrences c s.closed
        ≤ (if ltb c s.next then 1 else 0)

pub below-suc :
    (c n : ℕ) → one_if c n + (if ltb c n then 1 else 0) ≤ (if ltb c (suc n) then 1 else 0)
below-suc c n = ground arith

pub new_store-Inv : Inv new_store
new_store-Inv = record { inside = tt; once = λ c. omega arith }

pub register-Inv :
    (id : String) (labels : List String) (max_concurrency preferred_batch_size : ℤ) (now : ℕ)
    (s : Store)
    → Inv s
    → Inv (register id labels max_concurrency preferred_batch_size now s)
unfolding register
register-Inv id labels max_concurrency preferred_batch_size now s k =
    let w : Worker = record {
      id = id;
      labels = labels;
      max_concurrency = max_concurrency;
      preferred_batch_size = preferred_batch_size;
      in_flight = 0;
      last_heartbeat = now;
      send = s.next;
      jobs = [];
    } in
    let grown = length-append s.heap (w ∷ []) in
    record {
      inside =
          PointsInto-insert (s.heap ++ w ∷ []) id (length s.heap) s.workers (omega (arith, grown))
            (longer_heap s.heap (s.heap ++ w ∷ []) s.workers (omega (arith, grown)) k.inside);
      once = λ c. omega (
        arith,
        k.once c,
        below-suc c s.next,
        sends_held-insert c (s.heap ++ w ∷ []) id (length s.heap) s.workers,
        sends_held-append c s.heap w s.workers k.inside,
        jobs_held-append c s.heap w,
        ap (send_of c) (at-append_last s.heap w),
      );
    }

pub modify_at-Inv :
    (f : Worker → Worker) (ref : ℕ) (s : Store)
    → ((w : Worker) → (f w).send ≡ w.send)
    → ((w : Worker) → (f w).jobs ≡ w.jobs)
    → Inv s
    → Inv (modify_at f ref s)
modify_at-Inv f ref s same_send same_jobs k = record {
  inside =
      longer_heap s.heap (modify f ref s.heap) s.workers (omega (arith, length-modify f ref s.heap))
        k.inside;
  once = λ c. omega (
    arith,
    k.once c,
    sends_held-modify c f ref s.heap s.workers same_send,
    jobs_held_kept c f ref s.heap same_jobs,
  );
}

pub modify_id-Inv :
    (f : Worker → Worker) (id : String) (s : Store)
    → ((w : Worker) → (f w).send ≡ w.send)
    → ((w : Worker) → (f w).jobs ≡ w.jobs)
    → Inv s
    → Inv (modify_id f id s)
unfolding modify_id
modify_id-Inv f id s same_send same_jobs k = elim (Option-cases (lookup id s.workers)) [
  | inl missing ↦ rw (missing, modify_id) k
  | inr (ref, found) ↦ rw (found, modify_id) (modify_at-Inv f ref s same_send same_jobs k)
]

pub evict-Inv :
    (id : String) (ref : ℕ) (s : Store)
    → lookup id s.workers ≡ some ref
    → Inv s
    → Inv (evict id ref s)
unfolding evict shut_down
evict-Inv id ref s h k = elim (Option-cases (at s.heap ref)) [
  | inl none_there ↦
      rw (none_there, evict)
        (record {
          inside = PointsInto-delete s.heap id s.workers k.inside;
          once = λ c. omega (arith, k.once c, sends_held-delete_le c s.heap id s.workers);
        })
  | inr (w, there) ↦
      rw (there, evict)
        (let f : Worker → Worker = λ u. record u { jobs = [] } in
          record {
            inside =
                longer_heap s.heap (modify f ref s.heap) (delete id s.workers)
                  (omega (arith, length-modify f ref s.heap))
                  (PointsInto-delete s.heap id s.workers k.inside);
            once = λ c. omega (
              arith,
              k.once c,
              sends_held-modify c f ref s.heap (delete id s.workers) (λ u. refl),
              sends_held-delete c s.heap id ref s.workers h,
              ap (send_of c) there,
              jobs_held-modify c f ref s.heap w there,
              occurrences-append c (values w.jobs) s.closed,
            );
          })
]

pub remove-Inv : (id : String) (s : Store) → Inv s → Inv (remove id s)
unfolding remove
remove-Inv id s k = elim (Option-cases (lookup id s.workers)) [
  | inl missing ↦ rw (missing, remove) k
  | inr (ref, found) ↦ rw (found, remove) (evict-Inv id ref s found k)
]

prune_one-Inv :
    (now : ℕ) (max_age : ℤ) (id : String) (ref : ℕ) (s : Store)
    → lookup id s.workers ≡ some ref
    → Inv s
    → Inv (prune_one now max_age id ref s)
unfolding prune_one
prune_one-Inv now max_age id ref s h k = elim (Option-cases (at s.heap ref)) [
  | inl none_there ↦ rw (none_there, prune_one) k
  | inr (w, there) ↦ elim (Bool-cases (is_expired now max_age w)) [
    | inl old ↦ rw (there, old, prune_one) (evict-Inv id ref s h k)
    | inr fresh ↦ rw (there, fresh, prune_one) k
  ]
]

pub prune_each-Inv :
    (now : ℕ) (max_age : ℤ) (range : Dict ℕ) (s : Store)
    → Inv s
    → Inv (prune_each now max_age range s)
unfolding prune_each
prune_each-Inv now max_age [] s k = k
prune_each-Inv now max_age ((id, old) ∷ rest) s k = elim (Option-cases (lookup id s.workers)) [
  | inl missing ↦ rw missing (prune_each-Inv now max_age rest s k)
  | inr (ref, found) ↦ rw found (
      prune_each-Inv now max_age rest (prune_one now max_age id ref s)
        (prune_one-Inv now max_age id ref s found k))
]
