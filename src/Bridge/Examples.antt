-- ===== src/Bridge/Examples.antt =====
-- The theorems on the bridge at concrete inputs.
use nfrx.Prelude.{
  ℕ, String, [], ap, arith, occurrences, pos, refl, some, suc, true, zero, ◌<◌, ◌∷◌, ◌≡◌, ◌≤◌,
}
use nfrx.Workers.Registry.{done}
use nfrx.Prelude.Dict.{insert, lookup}
use nfrx.Bridge.{
  alloc, resolve, Session, IdMapper, deliver, forward_begin, new_id_mapper, new_session,
  take_response,
}
use nfrx.Bridge.Ids.{resolve-alloc, IsInjective, allocs, play, resolves}
use nfrx.Bridge.Calls.{response_delivered, Reach, begins, goes_on, opens, takes}

-- A number in base 1, in place of base 10.
abbrev unary : ℕ → String
unary zero = ""
unary (suc n) = String.◌∷◌ "a" (unary n)

tail : String → String
tail String.[] = ""
tail (String.◌∷◌ c s) = s

unary-IsInjective : IsInjective unary
unfolding tail
unary-IsInjective zero zero e = refl
unary-IsInjective zero (suc j) e = absurd cc
unary-IsInjective (suc i) zero e = absurd cc
unary-IsInjective (suc i) (suc j) e = ap suc (unary-IsInjective i j (ap tail e))

abbrev mapper : IdMapper
mapper = play unary (allocs "1" ∷ resolves "" ∷ allocs "2" ∷ []) new_id_mapper

resolve-alloc_example :
    (resolve (alloc unary "7" mapper).1 (play unary (allocs "8" ∷ []) (alloc unary "7" mapper).0)).1
    ≡ some "7"
resolve-alloc_example =
    resolve-alloc unary (allocs "1" ∷ resolves "" ∷ allocs "2" ∷ []) (allocs "8" ∷ []) "7"
      unary-IsInjective (omega arith) tt

abbrev begun : Session
begun = (forward_begin unary true "1" (new_session (pos 4))).0

abbrev taken : Session
taken = take_response "" begun

taken-Reach : Reach unary taken
taken-Reach = goes_on (goes_on (opens (pos 4)) (begins true "1")) (takes "")

is_taken : 0 < occurrences 0 taken.sending
unfolding take_response lookup forward_begin insert
is_taken = omega arith

response_delivered_example : (deliver 0 taken ≡ done taken) × (occurrences 0 taken.closed ≤ 1)
response_delivered_example = response_delivered unary taken 0 0 taken-Reach is_taken
