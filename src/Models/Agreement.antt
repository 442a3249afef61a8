-- ===== src/Models/Agreement.antt =====
-- AggregatedModels and AggregatedModel of worker_spi.go tell the same of a model.
use Prim.Native.String.{compare}
use Prim.Native.Nat.{Ordering}
use nfrx.Prelude.{
  ℕ, All, Bool-cases, IsDistinct, List, Option, String, [], ap, arith, eq_iff, false, if◌then◌else◌,
  inl, inr, none, refl, some, str_cases, str_eq, str_eq_refl, sym, ◌∙◌, ◌∷◌, ◌≡◌,
}
use nfrx.Prelude.Dict.{lookup, Dict}
use nfrx.Models.{
  Offer, ModelInfo, Noted, aggregated_model, aggregated_models, created_at, list_models, model_of,
  names_with, note_seen, note_workers, place_model, sort_names, or_zero,
}
use nfrx.Models.Names.{
  KeysDistinct, first_time, grown, lookup-note_seen, note_workers-KeysDistinct, note_workers-lookup,
}

-- The entry of a list of models.
unfoldable pub find_model : String → List ModelInfo → Option ModelInfo
find_model id [] = none
find_model id (m ∷ ms) = if str_eq m.id id then some m else find_model id ms

find_model-place_model :
    (id : String) (m : ModelInfo) (ms : List ModelInfo)
    → find_model m.id ms ≡ none
    → find_model id (place_model m ms) ≡ (if str_eq m.id id then some m else find_model id ms)
unfolding find_model place_model
find_model-place_model id m [] h = refl
find_model-place_model id m (x ∷ xs) h = elim (Bool-cases (str_eq x.id m.id)) [
  | inl same ↦ absurd (ground (arith, h, same))
  | inr apart ↦
      let deep : find_model m.id xs ≡ none = ground (arith, h, apart) in
      place (compare x.id m.id) refl (find_model-place_model id m xs deep) apart
]
  where
    place :
        (o : Ordering)
        → compare x.id m.id ≡ o
        → find_model id (place_model m xs) ≡ (if str_eq m.id id then some m else find_model id xs)
        → str_eq x.id m.id ≡ false
        → find_model id (place_model m (x ∷ xs))
          ≡ (if str_eq m.id id then some m else find_model id (x ∷ xs))
    place Ordering.lt e deep apart =
        rw (place_model, e)
          (ground (arith, deep, apart, eq_iff x.id id, eq_iff m.id id, eq_iff x.id m.id))
    place Ordering.eq e deep apart = rw (place_model, e) refl
    place Ordering.gt e deep apart = rw (place_model, e) refl

-- What is listed under an entry of the map.
abbrev model_info : Dict ℕ → String → List String → ModelInfo
model_info seen id names = record {
  id = id;
  created = created_at id seen;
  owners = sort_names names;
}

abbrev entry : Dict ℕ → String → Option (List String) → Option ModelInfo
entry seen id none = none
entry seen id (some names) = some (model_info seen id names)

find_model-list_models :
    (id : String) (seen : Dict ℕ) (owners : Dict (List String))
    → KeysDistinct owners
    → find_model id (list_models seen owners) ≡ entry seen id (lookup id owners)
unfolding list_models lookup find_model
find_model-list_models id seen [] d = refl
find_model-list_models id seen ((k, names) ∷ rest) d =
    let fresh : find_model k (list_models seen rest) ≡ none =
      rw (find_model-list_models k seen rest d.1, d.0) refl in
    let placed =
      find_model-place_model id (model_info seen k names) (list_models seen rest) fresh in
    elim (str_cases k id) [
      | inl (same, e) ↦ rw (placed, e, same) refl
      | inr other ↦ rw (placed, other, find_model-list_models id seen rest d.1) refl
    ]

-- The same model for what was noted of its names.
same_entry :
    (now : ℕ) (id : String) (names : List String) (seen after : Dict ℕ)
    → lookup id after ≡ first_time now (lookup id seen) names
    → (entry after id (grown none names) ≡ (model_of now id names seen).1)
      × (lookup id (model_of now id names seen).0 ≡ lookup id after)
unfolding model_of
same_entry now id [] seen after h = (refl, sym h)
same_entry now id (x ∷ xs) seen after h =
    let noted : lookup id (note_seen now id seen) ≡ first_time now (lookup id seen) (x ∷ []) =
      rw (lookup-note_seen now id id x seen, str_eq_refl id) refl in
    let one : first_time now (lookup id seen) (x ∷ []) ≡ first_time now (lookup id seen) (x ∷ xs) =
      go (lookup id seen) in
    let kept = noted ∙ one ∙ sym h in
    let build : Option ℕ → Option ModelInfo =
      λ o. some (record { id = id; created = or_zero o; owners = sort_names (x ∷ xs) }) in
    (ap build (sym kept), kept)
  where
    go : (o : Option ℕ) → first_time now o (x ∷ []) ≡ first_time now o (x ∷ xs)
    go none = refl
    go (some t) = refl

-- For workers that have no label twice, both views tell the same of a model: it is in the list
-- exactly if it is found alone, with the same owners and the same time, and both keep the same time
-- for it.
pub aggregated_models-aggregated_model :
    (now : ℕ) (id : String) (ws : List Offer) (seen : Dict ℕ)
    → All (λ w. IsDistinct w.labels) ws
    → (find_model id (aggregated_models now ws seen).1 ≡ (aggregated_model now id ws seen).1)
      × (lookup id (aggregated_model now id ws seen).0
          ≡ lookup id (aggregated_models now ws seen).0)
unfolding aggregated_models aggregated_model lookup
aggregated_models-aggregated_model now id ws seen d =
    let begun : Noted = record { owners = []; first_seen = seen } in
    let n = note_workers now ws begun in
    let noted = note_workers-lookup now id ws begun d in
    let found =
      find_model-list_models id n.first_seen n.owners (note_workers-KeysDistinct now ws begun tt) in
    let same = same_entry now id (names_with id ws) seen n.first_seen noted.1 in
    (found ∙ ap (entry n.first_seen id) noted.0 ∙ same.0, same.1)

-- The time of a model that was seen before never changes.
pub aggregated_models-created :
    (now t : ℕ) (id : String) (ws : List Offer) (seen : Dict ℕ)
    → All (λ w. IsDistinct w.labels) ws
    → lookup id seen ≡ some t
    → lookup id (aggregated_models now ws seen).0 ≡ some t
unfolding aggregated_models
aggregated_models-created now t id ws seen d h =
    let begun : Noted = record { owners = []; first_seen = seen } in
    (note_workers-lookup now id ws begun d).1 ∙ kept
  where
    stays : (names : List String) → first_time now (some t) names ≡ some t
    stays [] = refl
    stays (x ∷ xs) = refl

    kept : first_time now (lookup id seen) (names_with id ws) ≡ some t
    kept = rw h (stays (names_with id ws))
