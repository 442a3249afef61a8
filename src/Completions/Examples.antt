-- ===== src/Completions/Examples.antt =====
-- Requests in the queue, and the theorems at them.
use nfrx.Prelude.{
  Bool, String, [], false, if◌then◌else◌, ltb, pos, refl, str_eq, suc, true, ◌∷◌, ◌≡◌, ◌≤◌, ◌⊎◌,
}
use nfrx.Completions.{
  enter, QueuedRequest, CompletionQueue, is_first, is_first_dispatchable, len, position,
}
use nfrx.Completions.Order.{dispatchable_one, enter-position, NoneMay, Foremost}

abbrev request : String → String → QueuedRequest
request id model = record { id = id; model = model }

abbrev waiting : CompletionQueue
waiting = record {
  items = request "a" "large" ∷ request "b" "small" ∷ request "c" "small" ∷ [];
  cap = pos 4;
}

abbrev small_only : String → Bool
small_only model = str_eq model "small"

second_first : is_first_dispatchable "b" small_only waiting ≡ true
unfolding is_first_dispatchable is_first
second_first = refl

full :
    enter "e" "small" (record waiting { cap = pos 3 }) ≡ (record waiting { cap = pos 3 }, 0, false)
unfolding enter
full = refl

enter-position_example :
    ((enter "d" "small" waiting ≡ (waiting, 0, false)) × (4 ≤ len waiting))
    ⊎ (((enter "d" "small" waiting).1 ≡ suc (len waiting))
        × ((enter "d" "small" waiting).2 ≡ true)
        × (len (enter "d" "small" waiting).0 ≡ suc (len waiting))
        × (suc (len waiting) ≤ 4)
        × (position "a" (enter "d" "small" waiting).0 ≡ (
            if ltb 0 (position "a" waiting)
            then position "a" waiting
            else if str_eq "d" "a"
            then suc (len waiting)
            else 0)))
enter-position_example = enter-position "d" "a" "small" waiting

dispatchable_one_example : NoneMay small_only waiting ⊎ Foremost small_only waiting
dispatchable_one_example = dispatchable_one small_only waiting
