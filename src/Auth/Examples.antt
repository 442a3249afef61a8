-- ===== src/Auth/Examples.antt =====
-- Requests, and the theorems at them.
use mathlib.Core.List.{Memᴰ}
use nfrx.Prelude.{String, [], contains, false, refl, str_eq, true, ◌∷◌, ◌≡◌, ◌⊎◌, List}
use nfrx.Prelude.Text.{trim_space, split}
use nfrx.Auth.{
  Request, any_item, bearer_any_or_roles, check_bearer, extract_bearer, has_any_allowed_role,
  is_empty, match_loop, matches_any_secret, role_set, strip_prefix,
}
use nfrx.Auth.Access.{bearer_any_or_roles_secret}

abbrev keyed : Request
keyed = record { authorization = "BEARER  key-1 "; user_roles = "" }

abbrev anonymous : Request
anonymous = record { authorization = ""; user_roles = "" }

abbrev two_keys : List String
two_keys = "key-0" ∷ " key-1" ∷ []

token_found : extract_bearer keyed ≡ "key-1"
unfolding extract_bearer strip_prefix trim_space
token_found = refl

role_found : has_any_allowed_role "guest, admin" ("" ∷ " admin" ∷ []) ≡ true
unfolding has_any_allowed_role role_set any_item is_empty split trim_space contains
role_found = refl

worker_key : check_bearer " Bearer key-1" "key-1" ≡ true
unfolding check_bearer strip_prefix trim_space
worker_key = refl

bearer_any_or_roles_secret_example :
    (two_keys ≡ [])
    ⊎ ((s : String) × Memᴰ s two_keys
        × (trim_space s ≡ extract_bearer keyed)
        × (str_eq (extract_bearer keyed) "" ≡ false))
unfolding bearer_any_or_roles extract_bearer strip_prefix trim_space matches_any_secret match_loop
bearer_any_or_roles_secret_example = bearer_any_or_roles_secret two_keys keyed refl
