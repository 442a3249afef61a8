-- ===== src/Completions.antt =====
-- CompletionQueue of modules/llm/ext/openai/queue.go: the queue in which requests wait for a worker.
-- The reports to the metrics registry are left out.
use nfrx.Prelude.{
  ℕ, Bool, List, String, [], false, if◌then◌else◌, length, not, pos, str_eq, suc, true, ℤ, ◌++◌,
  ◌==◌, ◌∷◌,
}
use nfrx.Prelude.Int.{leb_ℤ}
pub mod Order
mod Examples

pub record QueuedRequest : Type 0 where
  pub id : String
  pub model : String

pub record CompletionQueue : Type 0 where
  pub items : List QueuedRequest
  pub cap : ℤ

unfoldable pub new_completion_queue : ℤ → CompletionQueue
new_completion_queue capacity = record { items = []; cap = capacity }

unfoldable pub set_capacity : ℤ → CompletionQueue → CompletionQueue
set_capacity n q = record q { cap = n }

-- The queue afterwards, the position that is returned (0 when there is no room), and ok.
unfoldable pub enter : String → String → CompletionQueue → CompletionQueue × ℕ × Bool
enter id model q =
    if leb_ℤ q.cap (pos 0)
    then (q, 0, false)
    else if leb_ℤ q.cap (pos (length q.items))
    then (q, 0, false)
    else let items = q.items ++ record { id = id; model = model } ∷ [] in
      (record q { items = items }, length items, true)

unfoldable pub leave_items : String → List QueuedRequest → List QueuedRequest
leave_items id [] = []
leave_items id (v ∷ rest) =
    let kept = leave_items id rest in if str_eq v.id id then rest else v ∷ kept

unfoldable pub leave : String → CompletionQueue → CompletionQueue
leave id q = record q { items = leave_items id q.items }

-- 1 for the first, 0 when absent
unfoldable pub position_in : String → List QueuedRequest → ℕ
position_in id [] = 0
position_in id (v ∷ rest) =
    let behind = position_in id rest in
    if str_eq v.id id then 1 else if behind == 0 then 0 else suc behind

unfoldable pub position : String → CompletionQueue → ℕ
position id q = position_in id q.items

unfoldable pub is_first : String → (String → Bool) → List QueuedRequest → Bool
is_first id can_dispatch [] = false
is_first id can_dispatch (item ∷ rest) =
    let later = is_first id can_dispatch rest in
    if not (can_dispatch item.model) then later else str_eq item.id id

unfoldable pub is_first_dispatchable : String → (String → Bool) → CompletionQueue → Bool
is_first_dispatchable id can_dispatch q = is_first id can_dispatch q.items

unfoldable pub len : CompletionQueue → ℕ
len q = length q.items
