-- ===== src/Workers/Steps.antt =====
-- Every order of the operations on the worker registry: those of registry.go and what ws.go does
-- to a worker, by any connection and request, at any time.
use nfrx.Prelude.{
  ℕ, Bool-cases, List, Option, String, [], ap, arith, if◌then◌else◌, inl, inr, ltb, refl, some, ℤ,
  ◌-◌, ◌≡◌, ◌≤◌, occurrences, subst, ◌<◌,
}
use nfrx.Prelude.Dict.{lookup}
use nfrx.Workers.{Worker}
use nfrx.Workers.Registry.{
  at, Store, add_job, dec_in_flight, inc_in_flight, new_store, prune_expired, register, remove,
  remove_job, status_update, update_heartbeat, update_labels, done, finish, send_on, take_out,
}
use nfrx.Workers.Counts.{send_of, sends_held-delete}
use nfrx.Workers.Held.{jobs_held-modify, occurrences-delete}
use nfrx.Workers.JobChannels.{
  add_job-Inv, remove_job-Inv, finish-finished, finished, finished-Inv, take_out-Inv, send_on-done,
}
use nfrx.Workers.Closing.{
  register-Inv, Inv, modify_at-Inv, modify_id-Inv, new_store-Inv, prune_each-Inv, remove-Inv,
}

pub data Step : Store → Store → Type 0 where
  registers :
      {s : Store} (id : String) (labels : List String) (max_concurrency batch : ℤ) (now : ℕ)
      → Step s (register id labels max_concurrency batch now s)
  removes : {s : Store} (id : String) → Step s (remove id s)
  prunes : {s : Store} (now : ℕ) (max_age : ℤ) → Step s (prune_expired now max_age s)
  beats : {s : Store} (id : String) (now : ℕ) → Step s (update_heartbeat id now s)
  labels_change :
      {s : Store} (id : String) (labels : List String) → Step s (update_labels id labels s)
  incs : {s : Store} (id : String) → Step s (inc_in_flight id s)
  decs : {s : Store} (id : String) → Step s (dec_in_flight id s)
  adds_job : {s : Store} (ref : ℕ) (job : String) → Step s (add_job ref job s)
  removes_job : {s : Store} (ref : ℕ) (job : String) → Step s (remove_job ref job s)
  takes_out : {s : Store} (ref : ℕ) (job : String) → Step s (take_out ref job s)
  finishes :
      {s t : Store} (ch : ℕ) → 0 < occurrences ch s.finishing → finish ch s ≡ done t → Step s t
  reports :
      {s : Store} (ref : ℕ) (max_concurrency batch : ℤ) (models : Option (List String))
      → Step s (status_update ref max_concurrency batch models s)

pub data Reach : Store → Type 0 where
  start : Reach new_store
  after : {s t : Store} → Reach s → Step s t → Reach t

dec_send :
    (w : Worker)
    → (if ltb 0 w.in_flight then record w { in_flight = w.in_flight - 1 } else w).send ≡ w.send
dec_send w = elim (Bool-cases (ltb 0 w.in_flight)) [
  | inl busy ↦ rw busy refl
  | inr idle ↦ rw idle refl
]

dec_jobs :
    (w : Worker)
    → (if ltb 0 w.in_flight then record w { in_flight = w.in_flight - 1 } else w).jobs ≡ w.jobs
dec_jobs w = elim (Bool-cases (ltb 0 w.in_flight)) [
  | inl busy ↦ rw busy refl
  | inr idle ↦ rw idle refl
]

step-Inv : {s t : Store} → Step s t → Inv s → Inv t
unfolding prune_expired update_heartbeat update_labels inc_in_flight dec_in_flight status_update
step-Inv (registers {s} id labels m b now) k = register-Inv id labels m b now s k
step-Inv (removes {s} id) k = remove-Inv id s k
step-Inv (prunes {s} now max_age) k = prune_each-Inv now max_age s.workers s k
step-Inv (beats {s} id now) k = modify_id-Inv _ id s (λ w. refl) (λ w. refl) k
step-Inv (labels_change {s} id labels) k = modify_id-Inv _ id s (λ w. refl) (λ w. refl) k
step-Inv (incs {s} id) k = modify_id-Inv _ id s (λ w. refl) (λ w. refl) k
step-Inv (decs {s} id) k = modify_id-Inv _ id s dec_send dec_jobs k
step-Inv (adds_job {s} ref job) k = add_job-Inv ref job s k
step-Inv (removes_job {s} ref job) k = remove_job-Inv ref job s k
step-Inv (takes_out {s} ref job) k = take_out-Inv ref job s k
step-Inv (finishes {s} {t} ch held e) k =
    let same : finished ch s ≡ t = cc (finish-finished ch s held k, e) in
    subst Inv same (finished-Inv ch s held k)
step-Inv (reports {s} ref m b models) k = modify_at-Inv _ ref s (λ w. refl) (λ w. refl) k

pub holds : {s : Store} → Reach s → Inv s
holds start = new_store-Inv
holds (after r st) = step-Inv st (holds r)

-- In every order of the operations no channel of a worker or of a job is closed twice, which would
-- be a panic.
pub closed_once : (s : Store) (c : ℕ) → Reach s → occurrences c s.closed ≤ 1
closed_once s c r = ground (arith, (holds r).once c)

pub open_send :
    (s : Store) (id : String) (ref : ℕ) (w : Worker)
    → Reach s
    → lookup id s.workers ≡ some ref
    → at s.heap ref ≡ some w
    → occurrences w.send s.closed ≡ 0
open_send s id ref w r found there = ground (
  arith,
  (holds r).once w.send,
  sends_held-delete w.send s.heap id ref s.workers found,
  ap (send_of w.send) there,
)

open_job :
    (s : Store) (ref : ℕ) (w : Worker) (job : String) (ch : ℕ)
    → Reach s
    → at s.heap ref ≡ some w
    → lookup job w.jobs ≡ some ch
    → occurrences ch s.closed ≡ 0
open_job s ref w job ch r there found =
    let b = jobs_held-modify ch (λ u. record u { jobs = [] }) ref s.heap w there in
    let c = occurrences-delete ch ch job w.jobs found in ground (arith, (holds r).once ch, b, c)

-- In every order of the operations: the channel of a registered worker is open, a channel that a
-- worker holds for a job is open, and one that a connection has taken out to send the last message
-- on is open, so that this send and the close behind it do not panic.
pub held-open :
    (s : Store) (id : String) (ref ref' ch last : ℕ) (w v : Worker) (job : String)
    → Reach s
    → lookup id s.workers ≡ some ref
    → at s.heap ref ≡ some w
    → at s.heap ref' ≡ some v
    → lookup job v.jobs ≡ some ch
    → 0 < occurrences last s.finishing
    → (send_on w.send s ≡ done s)
      × (send_on ch s ≡ done s)
      × ((t : Store) × (finish last s ≡ done t))
held-open s id ref ref' ch last w v job r found there there' held taken =
    let sent = open_send s id ref w r found there in
    let kept = open_job s ref' v job ch r there' held in
    (
      send_on-done w.send s sent,
      send_on-done ch s kept,
      (finished last s, finish-finished last s taken (holds r)),
    )
