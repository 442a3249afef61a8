-- ===== src/Auth.antt =====
-- The authorization of sdk/base/auth/auth.go and bearer_roles_middleware.go, and the copies of it in
-- sdk/base/worker/ws.go and sdk/base/tunnel/registry.go.
use Prim.Native.Char.{code}
use nfrx.Prelude.{
  ℕ, Bool, List, Option, String, [], contains, false, if◌then◌else◌, leb, none, not, some, str_eq,
  true, ◌&&◌, ◌+◌, ◌==◌, ◌||◌, ◌∷◌,
}
use nfrx.Prelude.Text.{trim_space, split}
pub mod Access
mod Examples

-- The headers Authorization and X-User-Roles.
pub record Request : Type 0 where
  pub authorization : String
  pub user_roles : String

-- strings.ToLower on the letters of ASCII; no other character becomes one of them but the Kelvin
-- sign, which becomes a k.
abbrev lower : ℕ → ℕ
lower c = if leb 65 c && leb c 90 then c + 32 else c

-- What follows a prefix that is written in lower case, whatever the case of the text.
unfoldable pub strip_prefix : String → String → Option String
strip_prefix String.[] s = some s
strip_prefix (String.◌∷◌ p prefix) String.[] = none
strip_prefix (String.◌∷◌ p prefix) (String.◌∷◌ c s) =
    let rest = strip_prefix prefix s in if lower (code c) == code p then rest else none

unfoldable pub trimmed_or_empty : Option String → String
trimmed_or_empty none = ""
trimmed_or_empty (some rest) = trim_space rest

-- ExtractBearer
unfoldable pub extract_bearer : Request → String
unfolding strip_prefix trimmed_or_empty
extract_bearer r = trimmed_or_empty (strip_prefix "bearer " r.authorization)

-- BearerSecretMiddleware: true is a call of the next handler, false the answer 401.
unfoldable pub bearer_secret : String → Request → Bool
unfolding extract_bearer
bearer_secret secret r =
    let tok = extract_bearer r in
    if str_eq secret ""
    then true
    else if str_eq tok "" || not (str_eq tok secret)
    then false
    else true

unfoldable pub match_loop : String → List String → Bool
match_loop token [] = false
match_loop token (s ∷ rest) =
    let later = match_loop token rest in
    let ss = trim_space s in if not (str_eq ss "") && str_eq token ss then true else later

-- matchesAnySecret
unfoldable pub matches_any_secret : String → List String → Bool
unfolding match_loop
matches_any_secret token secrets = if str_eq token "" then false else match_loop token secrets

-- The set of the trimmed roles that are not empty.
unfoldable pub role_set : List String → List String
role_set [] = []
role_set (r ∷ rest) =
    let kept = role_set rest in let rr = trim_space r in if str_eq rr "" then kept else rr ∷ kept

unfoldable pub any_item : List String → List String → Bool
any_item allow [] = false
any_item allow (item ∷ rest) =
    let later = any_item allow rest in if contains allow (trim_space item) then true else later

unfoldable pub is_empty : List String → Bool
is_empty [] = true
is_empty (x ∷ xs) = false

-- hasAnyAllowedRole
unfoldable pub has_any_allowed_role : String → List String → Bool
unfolding role_set any_item is_empty
has_any_allowed_role header allowed =
    if str_eq header "" || is_empty allowed
    then false
    else any_item (role_set allowed) (split b',' header)

-- BearerAnyOrRolesMiddleware
unfoldable pub bearer_any_or_roles : List String → List String → Request → Bool
unfolding is_empty extract_bearer matches_any_secret has_any_allowed_role
bearer_any_or_roles secrets allowed_roles r =
    let tok = extract_bearer r in
    if is_empty secrets && is_empty allowed_roles
    then true
    else if not (str_eq tok "") && matches_any_secret tok secrets
    then true
    else has_any_allowed_role r.user_roles allowed_roles

-- BearerOrRolesMiddleware
unfoldable pub bearer_or_roles : String → List String → Request → Bool
unfolding bearer_any_or_roles
bearer_or_roles secret allowed_roles = bearer_any_or_roles (secret ∷ []) allowed_roles

trimmed_equals : String → Option String → Bool
trimmed_equals expected none = false
trimmed_equals expected (some rest) = str_eq (trim_space rest) expected

-- checkBearer of ws.go and of the tunnel registry
unfoldable pub check_bearer : String → String → Bool
unfolding strip_prefix trimmed_equals
check_bearer auth_header expected =
    let ah = trim_space auth_header in
    if str_eq expected ""
    then false
    else if str_eq ah ""
    then false
    else trimmed_equals expected (strip_prefix "bearer " ah)

-- The condition on which WSHandler accepts a registration.
unfoldable pub is_authorized : String → List String → Request → Bool
unfolding check_bearer has_any_allowed_role
is_authorized client_key allowed_roles r =
    str_eq client_key ""
    || has_any_allowed_role r.user_roles allowed_roles
    || check_bearer r.authorization client_key
