-- ===== src/ToolRelay/Active.antt =====
-- The active calls of a session in relay.go, as goroutines begin and end.
use nfrx.Prelude.{
  ℕ, Bool-cases, List, Option, String, [], arith, eq_iff, false, if◌then◌else◌, inl, inr, none,
  refl, some, str_eq, suc, ◌∷◌, ◌≡◌, ◌≤◌,
}
use nfrx.ToolRelay.{Call, without}

-- The active call of a session.
unfoldable pub active_of : String → List Call → Option ℕ
active_of sid [] = none
active_of sid (c ∷ cs) = if str_eq c.sid sid then some c.number else active_of sid cs

unfoldable pub sid_count : String → List Call → ℕ
sid_count sid [] = 0
sid_count sid (c ∷ cs) = let rest = sid_count sid cs in if str_eq c.sid sid then suc rest else rest

pub active_of-without :
    (sid : String) (c : Call) (cs : List Call)
    → str_eq c.sid sid ≡ false
    → active_of sid (without c cs) ≡ active_of sid cs
unfolding active_of without
active_of-without sid c [] h = refl
active_of-without sid c (d ∷ ds) h =
    ground
      (arith, active_of-without sid c ds h, eq_iff d.sid c.sid, eq_iff c.sid sid, eq_iff d.sid sid)

pub sid_count-none :
    (sid : String) (cs : List Call) → active_of sid cs ≡ none → sid_count sid cs ≡ 0
unfolding active_of sid_count
sid_count-none sid [] h = refl
sid_count-none sid (c ∷ cs) h = ground (arith, sid_count-none sid cs)

pub none_counted : (sid : String) (cs : List Call) → sid_count sid cs ≡ 0 → active_of sid cs ≡ none
unfolding active_of sid_count
none_counted sid [] h = refl
none_counted sid (c ∷ cs) h = ground (arith, none_counted sid cs)

pub sid_count-without :
    (sid : String) (c : Call) (cs : List Call) → sid_count sid (without c cs) ≤ sid_count sid cs
unfolding sid_count without
sid_count-without sid c [] = omega arith
sid_count-without sid c (d ∷ ds) = ground (arith, sid_count-without sid c ds)

pub active_of-finished :
    (c : Call) (cs : List Call)
    → sid_count c.sid cs ≤ 1
    → active_of c.sid cs ≡ some c.number
    → active_of c.sid (without c cs) ≡ none
unfolding active_of sid_count without
active_of-finished c [] h e = refl
active_of-finished c (d ∷ ds) h e = elim (Bool-cases (str_eq d.sid c.sid)) [
  | inl same ↦
      let alone : sid_count c.sid ds ≡ 0 = ground (arith, same, h) in
      let left : active_of c.sid (without c ds) ≡ none =
        none_counted c.sid (without c ds) (omega (arith, sid_count-without c.sid c ds)) in
      ground (arith, left, same, e)
  | inr other ↦ ground (arith, other, active_of-finished c ds)
]
