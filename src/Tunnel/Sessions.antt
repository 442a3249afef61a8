-- ===== src/Tunnel/Sessions.antt =====
-- The number of open sessions of a relay when one is added or taken out.
use nfrx.Prelude.{
  Bool-cases, String, [], ap, arith, eq_iff, inl, inr, length, none, refl, some, str_eq, str_eq_sym,
  subst, suc, ◌∙◌, ◌∷◌, ◌≡◌,
}
use nfrx.Prelude.Dict.{Dict, lookup, insert, delete, lookup-delete, lookup-insert}
use nfrx.Tunnel.{SessionInfo}

-- No id is a key twice.
abbrev pub IsMap : Dict SessionInfo → Type 0
IsMap [] = Unit
IsMap ((k, v) ∷ rest) = (lookup k rest ≡ none) × IsMap rest

pub length-insert :
    (sid : String) (session : SessionInfo) (sessions : Dict SessionInfo)
    → lookup sid sessions ≡ none
    → IsMap sessions
    → (length (insert sid session sessions) ≡ suc (length sessions))
      × IsMap (insert sid session sessions)
unfolding insert lookup
length-insert sid session [] missing m = (refl, (refl, tt))
length-insert sid session ((k, v) ∷ rest) missing m = elim (Bool-cases (str_eq k sid)) [
  | inl same ↦ absurd (grind (arith, same, missing))
  | inr other ↦
      let below = length-insert sid session rest (grind (arith, other, missing)) m.1 in
      rw other (
        ap suc below.0,
        (lookup-insert sid k session rest ∙ rw (str_eq_sym sid k ∙ other) m.0, below.1),
      )
]

delete_missing :
    (sid : String) (sessions : Dict SessionInfo)
    → lookup sid sessions ≡ none
    → delete sid sessions ≡ sessions
unfolding delete lookup
delete_missing sid [] missing = refl
delete_missing sid ((k, v) ∷ rest) missing = elim (Bool-cases (str_eq k sid)) [
  | inl same ↦ absurd (grind (arith, same, missing))
  | inr other ↦
      rw other (ap (λ t. (k, v) ∷ t) (delete_missing sid rest (grind (arith, other, missing))))
]

pub length-delete :
    (sid : String) (session : SessionInfo) (sessions : Dict SessionInfo)
    → lookup sid sessions ≡ some session
    → IsMap sessions
    → (suc (length (delete sid sessions)) ≡ length sessions) × IsMap (delete sid sessions)
unfolding delete lookup
length-delete sid session [] found m = cc
length-delete sid session ((k, v) ∷ rest) found m = elim (Bool-cases (str_eq k sid)) [
  | inl same ↦
      let gone =
        delete_missing sid rest (subst (λ t. lookup t rest ≡ none) ((eq_iff k sid).0 same) m.0) in
      rw (same, gone) (refl, m.1)
  | inr other ↦
      let below = length-delete sid session rest (grind (arith, other, found)) m.1 in
      rw other
        (ap suc below.0, (lookup-delete sid k rest ∙ rw (str_eq_sym sid k ∙ other) m.0, below.1))
]
