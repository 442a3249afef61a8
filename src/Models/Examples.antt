-- ===== src/Models/Examples.antt =====
-- Two workers that share a model, and the theorems of worker_spi.go at them.
use nfrx.Prelude.{ℕ, List, [], contains, refl, ◌∷◌, ◌≡◌}
use nfrx.Prelude.Dict.{lookup, Dict}
use nfrx.Models.{Offer, aggregated_model, aggregated_models, get_model, model_detail}
use nfrx.Models.Agreement.{aggregated_models-aggregated_model, find_model}

abbrev offers : List Offer
offers =
    record { id = "1"; name = "zoe"; labels = "llama" ∷ "phi" ∷ [] }
    ∷ record { id = "2"; name = "adam"; labels = "llama" ∷ [] }
    ∷ []

abbrev earlier : Dict ℕ
earlier = ("llama", 5) ∷ []

offers_listed : aggregated_models 9 offers earlier ≡ (
  ("llama", 5) ∷ ("phi", 9) ∷ [],
  record { id = "llama"; created = 5; owners = "adam" ∷ "zoe" ∷ [] }
      ∷ record { id = "phi"; created = 9; owners = "zoe" ∷ [] }
      ∷ [],
)
unfolding aggregated_models
offers_listed = refl

llama_detail :
    get_model (aggregated_model 9 "llama" offers earlier).1 ≡ model_detail "llama" 5 "adam,zoe"
unfolding get_model aggregated_model
llama_detail = refl

aggregated_models-aggregated_model_example :
    (find_model "phi" (aggregated_models 9 offers earlier).1
      ≡ (aggregated_model 9 "phi" offers earlier).1)
    × (lookup "phi" (aggregated_model 9 "phi" offers earlier).0
        ≡ lookup "phi" (aggregated_models 9 offers earlier).0)
unfolding contains
aggregated_models-aggregated_model_example =
    aggregated_models-aggregated_model 9 "phi" offers earlier ((refl, (refl, tt)), ((refl, tt), tt))
