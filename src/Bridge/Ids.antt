-- ===== src/Bridge/Ids.antt =====
-- What idmap.go gives back for an id.
use nfrx.Prelude.{
  ℕ, Bool, Bool-cases, List, Option-cases, String, [], arith, eq_iff, false, if◌then◌else◌, inl,
  inr, length, none, refl, some, str_eq, str_eq_refl, suc, ◌+◌, ◌<◌, ◌^◌, ◌∙◌, ◌∷◌, ◌≡◌, ◌≤◌,
}
use nfrx.Prelude.Dict.{lookup, lookup-insert, lookup-delete}
use nfrx.Bridge.{alloc, resolve, IdMapper, new_id_mapper}

pub data Call : Type 0 where
  allocs : String → Call
  resolves : String → Call

abbrev pub play : (ℕ → String) → List Call → IdMapper → IdMapper
play format [] m = m
play format (allocs json_id ∷ calls) m = play format calls (alloc format json_id m).0
play format (resolves id ∷ calls) m = play format calls (resolve id m).0

-- No call resolves the id.
abbrev pub Spares : String → List Call → Type 0
Spares id [] = Unit
Spares id (allocs json_id ∷ calls) = Spares id calls
Spares id (resolves other ∷ calls) = (str_eq other id ≡ false) × Spares id calls

abbrev pub IsInjective : (ℕ → String) → Type 0
IsInjective format = (i j : ℕ) → format i ≡ format j → i ≡ j

resolve_next : (id : String) (m : IdMapper) → (resolve id m).0.next ≡ m.next
unfolding resolve
resolve_next id m = elim (Option-cases (lookup id m.store)) [
  | inl absent ↦ rw (absent, resolve) refl
  | inr (json_id, there) ↦ rw (there, resolve) refl
]

resolve_found :
    (id json_id : String) (m : IdMapper)
    → lookup id m.store ≡ some json_id
    → (resolve id m).1 ≡ some json_id
unfolding resolve
resolve_found id json_id m there = rw (there, resolve) refl

resolve-lookup :
    (id other : String) (m : IdMapper)
    → str_eq id other ≡ false
    → lookup other (resolve id m).0.store ≡ lookup other m.store
unfolding resolve
resolve-lookup id other m unlike = elim (Option-cases (lookup id m.store)) [
  | inl absent ↦ rw (absent, resolve) refl
  | inr (json_id, there) ↦ rw (there, resolve) (lookup-delete id other m.store ∙ if_false unlike)
]
  where
    if_false :
        {b : Bool} → b ≡ false → (if b then none else lookup other m.store) ≡ lookup other m.store
    if_false e = rw e refl

play_next_le :
    (format : ℕ → String) (calls : List Call) (m : IdMapper)
    → m.next + length calls < 2 ^ 64
    → (play format calls m).next ≤ m.next + length calls
unfolding alloc
play_next_le format [] m h = omega arith
play_next_le format (allocs json_id ∷ calls) m h =
    omega (arith, h, play_next_le format calls (alloc format json_id m).0 (omega (arith, h)))
play_next_le format (resolves id ∷ calls) m h = omega (
  arith,
  h,
  resolve_next id m,
  play_next_le format calls (resolve id m).0 (omega (arith, h, resolve_next id m)),
)

unlike_texts : (a b : String) → (a ≡ b → ⊥) → str_eq a b ≡ false
unlike_texts a b apart = elim (Bool-cases (str_eq a b)) [
  | inl same ↦ absurd (apart ((eq_iff a b).0 same))
  | inr unlike ↦ unlike
]

play_keeps :
    (format : ℕ → String) (calls : List Call) (m : IdMapper) (k : ℕ) (json_id : String)
    → IsInjective format
    → k < m.next
    → m.next + length calls < 2 ^ 64
    → Spares (format k) calls
    → lookup (format k) m.store ≡ some json_id
    → lookup (format k) (play format calls m).store ≡ some json_id
unfolding alloc
play_keeps format [] m k json_id inj old h spared there = there
play_keeps format (allocs other ∷ calls) m k json_id inj old h spared there =
    let unlike =
      unlike_texts (format m.next) (format k) (λ e. omega (arith, inj m.next k e, old)) in
    play_keeps format calls (alloc format other m).0 k json_id inj (omega (arith, old, h))
      (omega (arith, h)) spared
      (lookup-insert (format m.next) (format k) other m.store ∙ rw unlike there)
play_keeps format (resolves id ∷ calls) m k json_id inj old h spared there =
    play_keeps format calls (resolve id m).0 k json_id inj (omega (arith, resolve_next id m, old))
      (omega (arith, resolve_next id m, h)) spared.1
      (resolve-lookup id (format k) m spared.0 ∙ there)

-- When texts of different numbers differ, then in fewer than 2^64 - 1 calls the id that Alloc gives
-- out for a JSON-RPC id is resolved to that id, whatever other calls stand before it and in between,
-- as long as none of those in between resolves it.
pub resolve-alloc :
    (format : ℕ → String) (before between : List Call) (json_id : String)
    → IsInjective format
    → suc (length before + length between) < 2 ^ 64
    → let m = play format before new_id_mapper in
      Spares (alloc format json_id m).1 between
      → (resolve (alloc format json_id m).1 (play format between (alloc format json_id m).0)).1
        ≡ some json_id
unfolding alloc resolve
resolve-alloc format before between json_id inj h spared =
    let m = play format before new_id_mapper in
    let small = play_next_le format before new_id_mapper (omega (arith, h)) in
    let there =
      play_keeps format between (alloc format json_id m).0 m.next json_id inj
        (omega (arith, small, h)) (omega (arith, small, h)) spared
        (lookup-insert (format m.next) (format m.next) json_id m.store
          ∙ rw (str_eq_refl (format m.next)) refl) in
    resolve_found (format m.next) json_id (play format between (alloc format json_id m).0) there
