-- ===== src/Workers.antt =====
-- The worker registry of sdk/base/worker/registry.go, what ws.go does to it, and the scheduler of
-- scheduler.go with the scorers of the modules.
use nfrx.Prelude.{
  ℕ, Bool, List, Option, String, [], false, if◌then◌else◌, leb, ltb, none, not, pos, some, str_eq,
  ℤ, ◌&&◌, ◌++◌, ◌==◌, ◌∷◌, contains, ◌||◌,
}
use nfrx.Prelude.Int.{ltb_ℤ}
use nfrx.Prelude.Dict.{Dict}
use nfrx.Alias.{alias_key}
pub mod Scan
pub mod Pick
pub mod Registry
pub mod Counts
pub mod Held
pub mod Closing
pub mod JobChannels
pub mod Steps
pub mod Stale
pub mod LateSends
mod Examples

-- The part of a worker that the registry and the scheduler read. A label is in the map exactly when
-- it is in the list; a channel is a number.
pub record Worker : Type 0 where
  pub id : String
  pub labels : List String
  pub max_concurrency : ℤ
  pub preferred_batch_size : ℤ
  pub in_flight : ℕ
  pub last_heartbeat : ℕ
  pub send : ℕ
  pub jobs : Dict ℕ

unfoldable pub has_label : String → Worker → Bool
has_label label w = contains w.labels label

-- w.InFlight < w.MaxConcurrency
unfoldable pub has_capacity : Worker → Bool
has_capacity w = ltb_ℤ (pos w.in_flight) w.max_concurrency

-- Scores are in hundredths.
abbrev pub Score : Type 0
Score = ℕ

unfoldable pub exact_match_score : String → Worker → Score
exact_match_score task w = if has_label task w then 100 else 0

unfoldable pub always_eligible_score : String → Worker → Score
always_eligible_score task w = 100

-- Does some label have the alias `key`?
unfoldable pub has_alias : String → List String → Bool
has_alias key [] = false
has_alias key (m ∷ ms) =
    let rest = has_alias key ms in
    elim (alias_key m) [ some k ↦ str_eq k key || rest | none ↦ rest ]

-- The scorer of the language models; that of speech is the same.
unfoldable pub alias_score : String → Worker → Score
unfolding has_alias
alias_score task w =
    if has_label task w
    then 100
    else elim (alias_key task) [ some key ↦ if has_alias key w.labels then 50 else 0 | none ↦ 0 ]

-- The workers that the first loop of PickWorker has kept, and their score.
pub record Best : Type 0 where
  pub kept : List Worker
  pub score : Score

unfoldable pub is_eligible : (Worker → Score) → Score → Worker → Bool
is_eligible score min_score w = has_capacity w && leb min_score (score w)

-- One round of the first loop.
unfoldable pub consider : (Worker → Score) → Score → Best → Worker → Best
consider score min_score best w =
    let fresh : Best = record { kept = w ∷ []; score = score w } in
    if not (is_eligible score min_score w) then best else elim (best.kept) [
      | [] ↦ fresh
      | v ∷ vs ↦
          if ltb best.score (score w)
          then fresh
          else if score w == best.score
          then record best { kept = best.kept ++ w ∷ [] }
          else best
    ]

unfoldable pub best_workers : (Worker → Score) → Score → Best → List Worker → Best
best_workers score min_score best [] = best
best_workers score min_score best (w ∷ ws) =
    best_workers score min_score (consider score min_score best w) ws

-- The second loop reads how busy the workers are once more: `busy`.
unfoldable pub least_busy : (Worker → ℕ) → Worker → List Worker → Worker
least_busy busy chosen [] = chosen
least_busy busy chosen (w ∷ ws) =
    least_busy busy (if ltb (busy w) (busy chosen) then w else chosen) ws

unfoldable pub pick_least : (Worker → ℕ) → List Worker → Option Worker
unfolding least_busy
pick_least busy [] = none
pick_least busy (w ∷ ws) = some (least_busy busy w ws)

-- ScoreThenLeastBusyScheduler.PickWorker; no worker is the error "no worker".
unfoldable pub pick_worker : (Worker → Score) → Score → (Worker → ℕ) → List Worker → Option Worker
unfolding best_workers pick_least
pick_worker score min_score busy workers =
    pick_least busy ((best_workers score min_score (record { kept = []; score = 0 }) workers).kept)
