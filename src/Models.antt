-- ===== src/Models.antt =====
-- WorkerRegistry in modules/llm/ext/adapters/worker_spi.go: the models that the workers offer, when
-- each was first seen, and the handlers of modules/llm/ext/openai/models.go.
use Prim.Native.String.{compare}
use Prim.Native.Nat.{Ordering}
use nfrx.Prelude.{
  ℕ, Bool, List, Option, String, [], contains, false, if◌then◌else◌, none, some, str_eq, ◌++◌, ◌||◌,
  ◌∷◌,
}
use nfrx.Prelude.Dict.{lookup, insert, Dict}
use nfrx.Prelude.Text.{append}
pub mod Names
pub mod Agreement
mod Examples

-- What is read of a worker; its labels are the keys of a map.
pub record Offer : Type 0 where
  pub id : String
  pub name : String
  pub labels : List String

pub record ModelInfo : Type 0 where
  pub id : String
  pub created : ℕ
  pub owners : List String

-- ownersMap and firstSeen
pub record Noted : Type 0 where
  pub owners : Dict (List String)
  pub first_seen : Dict ℕ

-- A missing key of a map reads as nil.
abbrev pub or_nil : Option (List String) → List String
or_nil none = []
or_nil (some names) = names

abbrev pub owners_of : String → Dict (List String) → List String
owners_of id owners = or_nil (lookup id owners)

-- if _, ok := r.firstSeen[id]; !ok { r.firstSeen[id] = now }
unfoldable pub note_seen : ℕ → String → Dict ℕ → Dict ℕ
unfolding lookup insert
note_seen now id seen = elim (lookup id seen) [ some t ↦ seen | none ↦ insert id now seen ]

unfoldable pub note_labels : ℕ → String → List String → Noted → Noted
unfolding note_seen insert
note_labels now name [] n = n
note_labels now name (label ∷ labels) n = note_labels now name labels (record {
  owners = insert label (owners_of label n.owners ++ name ∷ []) n.owners;
  first_seen = note_seen now label n.first_seen;
})

unfoldable pub note_workers : ℕ → List Offer → Noted → Noted
unfolding note_labels
note_workers now [] n = n
note_workers now (w ∷ ws) n = note_workers now ws (note_labels now w.name w.labels n)

-- sort.Strings
place_name : String → List String → List String
place_name x [] = x ∷ []
place_name x (y ∷ ys) = elim (compare y x) [ Ordering.lt ↦ y ∷ place_name x ys | _ ↦ x ∷ y ∷ ys ]

unfoldable pub sort_names : List String → List String
unfolding place_name
sort_names [] = []
sort_names (x ∷ xs) = place_name x (sort_names xs)

abbrev pub or_zero : Option ℕ → ℕ
or_zero none = 0
or_zero (some t) = t

abbrev pub created_at : String → Dict ℕ → ℕ
created_at id seen = or_zero (lookup id seen)

-- sort.Slice by the id
unfoldable pub place_model : ModelInfo → List ModelInfo → List ModelInfo
place_model m [] = m ∷ []
place_model m (x ∷ xs) = elim (compare x.id m.id) [
  | Ordering.lt ↦ x ∷ place_model m xs
  | _ ↦ m ∷ x ∷ xs
]

unfoldable pub list_models : Dict ℕ → Dict (List String) → List ModelInfo
unfolding place_model sort_names lookup
list_models seen [] = []
list_models seen ((id, names) ∷ rest) =
    place_model (record { id = id; created = created_at id seen; owners = sort_names names })
      (list_models seen rest)

-- AggregatedModels: what was first seen, and the models
unfoldable pub aggregated_models : ℕ → List Offer → Dict ℕ → Dict ℕ × List ModelInfo
unfolding note_workers list_models
aggregated_models now ws seen =
    let n = note_workers now ws (record { owners = []; first_seen = seen }) in
    (n.first_seen, list_models n.first_seen n.owners)

-- The names of the workers that have a label.
unfoldable pub names_with : String → List Offer → List String
unfolding contains
names_with id [] = []
names_with id (w ∷ ws) =
    let rest = names_with id ws in if contains w.labels id then w.name ∷ rest else rest

unfoldable pub model_of : ℕ → String → List String → Dict ℕ → Dict ℕ × Option ModelInfo
unfolding note_seen sort_names lookup
model_of now id [] seen = (seen, none)
model_of now id (x ∷ xs) seen =
    let seen' = note_seen now id seen in
    (seen', some (record { id = id; created = created_at id seen'; owners = sort_names (x ∷ xs) }))

-- AggregatedModel
unfoldable pub aggregated_model : ℕ → String → List Offer → Dict ℕ → Dict ℕ × Option ModelInfo
unfolding model_of names_with
aggregated_model now id ws seen = model_of now id (names_with id ws) seen

-- HasWorker
unfoldable pub has_worker : String → List Offer → Bool
has_worker id [] = false
has_worker id (w ∷ ws) = str_eq w.id id || has_worker id ws

unfoldable pub note_all_seen : ℕ → List String → Dict ℕ → Dict ℕ
unfolding note_seen
note_all_seen now [] seen = seen
note_all_seen now (label ∷ labels) seen = note_all_seen now labels (note_seen now label seen)

-- The models of one worker; `created` of a label is not changed by the labels that follow it.
unfoldable pub own_models : Dict ℕ → String → List String → List ModelInfo
unfolding place_model lookup
own_models seen name [] = []
own_models seen name (label ∷ labels) =
    place_model (record { id = label; created = created_at label seen; owners = name ∷ [] })
      (own_models seen name labels)

-- WorkerModels: those of the first worker of this id
unfoldable pub worker_models : ℕ → String → List Offer → Dict ℕ → Dict ℕ × List ModelInfo
unfolding note_all_seen own_models
worker_models now id [] seen = (seen, [])
worker_models now id (w ∷ ws) seen =
    let seen' = note_all_seen now w.labels seen in
    if str_eq w.id id
    then (seen', own_models seen' w.name w.labels)
    else worker_models now id ws seen

-- GetModelHandler: the status, and the model with its owners joined by commas
abbrev pub join_owners : List String → String
join_owners [] = ""
join_owners (x ∷ []) = x
join_owners (x ∷ y ∷ ys) = append x (append "," (join_owners (y ∷ ys)))

pub data ModelAnswer : Type 0 where
  model_not_found : ModelAnswer
  model_detail : String → ℕ → String → ModelAnswer

unfoldable pub get_model : Option ModelInfo → ModelAnswer
unfolding append
get_model none = model_not_found
get_model (some m) = model_detail m.id m.created (join_owners m.owners)

-- ListModelsHandler
unfoldable pub models_listed : List ModelInfo → List ModelAnswer
unfolding get_model
models_listed [] = []
models_listed (m ∷ ms) = model_detail m.id m.created (join_owners m.owners) ∷ models_listed ms
