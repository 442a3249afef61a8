-- ===== src/Models/Names.antt =====
-- What AggregatedModels of worker_spi.go notes of the workers: the names for each label, and the time
-- at which a label was first seen.
use mathlib.Core.List.{append_assoc}
use nfrx.Prelude.{
  ℕ, Bool, IsDistinct, List, Option, Option-cases, String, [], ap, contains, false, if◌then◌else◌,
  inl, inr, none, refl, some, str_cases, str_eq, ◌++◌, ◌∷◌, ◌≡◌, All, Bool-cases, arith, str_eq_sym,
}
use nfrx.Prelude.Dict.{lookup, lookup-insert, Dict, insert}
use nfrx.Models.{Noted, note_labels, note_seen, owners_of, Offer, names_with, note_workers, or_nil}

-- What is under a key once some names are added to it.
abbrev pub grown : Option (List String) → List String → Option (List String)
grown o [] = o
grown none (x ∷ xs) = some (x ∷ xs)
grown (some ys) (x ∷ xs) = some (ys ++ x ∷ xs)

-- When a label was first seen, once workers of some names have it.
abbrev pub first_time : ℕ → Option ℕ → List String → Option ℕ
first_time now o [] = o
first_time now (some t) (x ∷ xs) = some t
first_time now none (x ∷ xs) = some now

abbrev one_name : Bool → String → List String
one_name b name = if b then name ∷ [] else []

grown-grown :
    (o : Option (List String)) (name : String) (rest : List String)
    → grown (grown o (name ∷ [])) rest ≡ grown o (name ∷ rest)
grown-grown none name [] = refl
grown-grown none name (x ∷ xs) = refl
grown-grown (some ys) name [] = refl
grown-grown (some ys) name (x ∷ xs) = ap some (append_assoc ys (name ∷ []) (x ∷ xs))

first_time-first_time :
    (now : ℕ) (o : Option ℕ) (name : String) (rest : List String)
    → first_time now (first_time now o (name ∷ [])) rest ≡ first_time now o (name ∷ rest)
first_time-first_time now none name [] = refl
first_time-first_time now none name (x ∷ xs) = refl
first_time-first_time now (some t) name [] = refl
first_time-first_time now (some t) name (x ∷ xs) = refl

or_nil-grown :
    (o : Option (List String)) (name : String) → some (or_nil o ++ name ∷ []) ≡ grown o (name ∷ [])
or_nil-grown none name = refl
or_nil-grown (some names) name = refl

pub lookup-note_seen :
    (now : ℕ) (label id name : String) (seen : Dict ℕ)
    → lookup id (note_seen now label seen)
      ≡ (if str_eq label id then first_time now (lookup id seen) (name ∷ []) else lookup id seen)
unfolding note_seen
lookup-note_seen now label id name seen = elim (str_cases label id) [
  | inl (same, e) ↦ elim (Option-cases (lookup id seen)) [
    | inl absent ↦
        let absent' : lookup label seen ≡ none = rw same absent in
        rw (note_seen, absent', lookup-insert label id now seen, e, absent) refl
    | inr (t, there) ↦
        let there' : lookup label seen ≡ some t = rw same there in
        rw (note_seen, there', e, there) refl
  ]
  | inr other ↦ elim (Option-cases (lookup label seen)) [
    | inl absent ↦ rw (note_seen, absent, lookup-insert label id now seen, other) refl
    | inr (t, there) ↦ rw (note_seen, there, other) refl
  ]
]

module _ (now : ℕ) (id : String) where
  -- A worker adds its name to each of its labels.
  note_labels-owners :
      (name : String) (labels : List String) (n : Noted)
      → IsDistinct labels
      → lookup id (note_labels now name labels n).owners
        ≡ grown (lookup id n.owners) (one_name (contains labels id) name)
  unfolding note_labels contains
  note_labels-owners name [] n d = refl
  note_labels-owners name (label ∷ labels) n d =
      let next : Noted = record {
        owners = insert label (owners_of label n.owners ++ name ∷ []) n.owners;
        first_seen = note_seen now label n.first_seen;
      } in
      let added = lookup-insert label id (owners_of label n.owners ++ name ∷ []) n.owners in
      elim (str_cases label id) [
        | inl (same, e) ↦
            let alone : contains labels id ≡ false = rw (← same) d.0 in
            let here : lookup id next.owners ≡ grown (lookup id n.owners) (name ∷ []) =
              rw (added, e, same) (or_nil-grown (lookup id n.owners) name) in
            rw (note_labels-owners name labels next d.1, alone, e, here) refl
        | inr other ↦
            let kept : lookup id next.owners ≡ lookup id n.owners = rw (added, other) refl in
            rw (note_labels-owners name labels next d.1, other, kept) refl
      ]

  note_labels-seen :
      (name : String) (labels : List String) (n : Noted)
      → IsDistinct labels
      → lookup id (note_labels now name labels n).first_seen
        ≡ first_time now (lookup id n.first_seen) (one_name (contains labels id) name)
  unfolding note_labels contains
  note_labels-seen name [] n d = refl
  note_labels-seen name (label ∷ labels) n d =
      let next : Noted = record {
        owners = insert label (owners_of label n.owners ++ name ∷ []) n.owners;
        first_seen = note_seen now label n.first_seen;
      } in
      let noted = lookup-note_seen now label id name n.first_seen in
      elim (str_cases label id) [
        | inl (same, e) ↦
            let alone : contains labels id ≡ false = rw (← same) d.0 in
            let here : lookup id next.first_seen
                ≡ first_time now (lookup id n.first_seen) (name ∷ []) =
              rw (noted, e) refl in
            rw (note_labels-seen name labels next d.1, alone, e, here) refl
        | inr other ↦
            let kept : lookup id next.first_seen ≡ lookup id n.first_seen =
              rw (noted, other) refl in
            rw (note_labels-seen name labels next d.1, other, kept) refl
      ]

  -- All workers together add their names in order, and the first time is kept.
  pub note_workers-lookup :
      (ws : List Offer) (n : Noted)
      → All (λ w. IsDistinct w.labels) ws
      → (lookup id (note_workers now ws n).owners ≡ grown (lookup id n.owners) (names_with id ws))
        × (lookup id (note_workers now ws n).first_seen
            ≡ first_time now (lookup id n.first_seen) (names_with id ws))
  unfolding note_workers names_with
  note_workers-lookup [] n d = (refl, refl)
  note_workers-lookup (w ∷ ws) n d =
      let next = note_labels now w.name w.labels n in
      let rest = note_workers-lookup ws next d.1 in
      let owned = note_labels-owners w.name w.labels n d.0 in
      let noted = note_labels-seen w.name w.labels n d.0 in
      elim (Bool-cases (contains w.labels id)) [
        | inl has ↦ (
          rw (rest.0, owned, has) (grown-grown (lookup id n.owners) w.name (names_with id ws)),
          rw (rest.1, noted, has)
              (first_time-first_time now (lookup id n.first_seen) w.name (names_with id ws)),
        )
        | inr lacks ↦ (rw (rest.0, owned, lacks) refl, rw (rest.1, noted, lacks) refl)
      ]

-- No key twice.
abbrev pub KeysDistinct : Dict (List String) → Type 0
KeysDistinct [] = Unit {0}
KeysDistinct ((k, v) ∷ rest) = (lookup k rest ≡ none) × KeysDistinct rest

insert-KeysDistinct :
    (key : String) (names : List String) (dict : Dict (List String))
    → KeysDistinct dict
    → KeysDistinct (insert key names dict)
unfolding insert lookup
insert-KeysDistinct key names [] d = (refl, tt)
insert-KeysDistinct key names ((k, v) ∷ rest) d = elim (Bool-cases (str_eq k key)) [
  | inl same ↦ rw (insert, same) d
  | inr other ↦
      let fresh : lookup k (insert key names rest) ≡ none =
        ground (arith, lookup-insert key k names rest, str_eq_sym k key, other, d.0) in
      rw (insert, other) (fresh, insert-KeysDistinct key names rest d.1)
]

note_labels-KeysDistinct :
    (now : ℕ) (name : String) (labels : List String) (n : Noted)
    → KeysDistinct n.owners
    → KeysDistinct (note_labels now name labels n).owners
unfolding note_labels
note_labels-KeysDistinct now name [] n d = d
note_labels-KeysDistinct now name (label ∷ labels) n d =
    note_labels-KeysDistinct now name labels _
      (insert-KeysDistinct label (owners_of label n.owners ++ name ∷ []) n.owners d)

pub note_workers-KeysDistinct :
    (now : ℕ) (ws : List Offer) (n : Noted)
    → KeysDistinct n.owners
    → KeysDistinct (note_workers now ws n).owners
unfolding note_workers
note_workers-KeysDistinct now [] n d = d
note_workers-KeysDistinct now (w ∷ ws) n d =
    note_workers-KeysDistinct now ws (note_labels now w.name w.labels n)
      (note_labels-KeysDistinct now w.name w.labels n d)
