-- ===== src/Workers/Stale.antt =====
-- A worker that registers again under its id before its first connection has ended.
use nfrx.Prelude.{
  ℕ, List, String, ap, arith, length, none, refl, some, str_eq_refl, suc, ℤ, ◌++◌, ◌∙◌, ◌∷◌, ◌≡◌,
  occurrences,
}
use nfrx.Prelude.Dict.{lookup, lookup-delete, lookup-insert}
use nfrx.Workers.{Worker}
use nfrx.Workers.Registry.{values, at, Store, evict, register, remove, shut_down}
use nfrx.Workers.Counts.{at-append_last}
use nfrx.Workers.Steps.{Reach, holds}

evict_found :
    (id : String) (ref : ℕ) (w : Worker) (s : Store)
    → lookup id s.workers ≡ some ref
    → at s.heap ref ≡ some w
    → (lookup id (remove id s).workers ≡ none)
      × ((remove id s).closed ≡ w.send ∷ values w.jobs ++ s.closed)
unfolding remove evict shut_down
evict_found id ref w s found there =
    rw (found, there, remove, evict)
      (lookup-delete id id s.workers ∙ rw (str_eq_refl id) refl, refl)

-- When the first connection of a worker ends after the worker has registered again under its id,
-- the new registration is taken out and its channel closed; the old channel stays open.
pub stale_remove :
    (id : String) (labels relabels : List String) (max_concurrency batch : ℤ) (now later : ℕ)
    (s : Store)
    → Reach s
    → let t = remove id (
        register id relabels max_concurrency batch later
          (register id labels max_concurrency batch now s)) in
      (lookup id t.workers ≡ none)
      × (t.closed ≡ suc s.next ∷ s.closed)
      × (occurrences s.next t.closed ≡ 0)
unfolding register
stale_remove id labels relabels max_concurrency batch now later s r =
    let first = register id labels max_concurrency batch now s in
    let second = register id relabels max_concurrency batch later first in
    let found : lookup id second.workers ≡ some (length first.heap) =
      lookup-insert id id (length first.heap) first.workers ∙ rw (str_eq_refl id) refl in
    let e = evict_found id (length first.heap) _ second found (at-append_last first.heap _) in
    (e.0, e.1, ap (occurrences s.next) e.1 ∙ ground (arith, (holds r).once s.next))
