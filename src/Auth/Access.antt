-- ===== src/Auth/Access.antt =====
-- Who is let in by auth.go and bearer_roles_middleware.go, and who is not.
use mathlib.Core.List.{Memᴰ}
use nfrx.Prelude.{
  Bool, Bool-cases, List, String, [], eq_iff, false, if◌then◌else◌, inl, inr, not, refl, str_eq,
  sym, true, ◌&&◌, ◌∷◌, ◌≡◌, ◌⊎◌,
}
use nfrx.Prelude.Text.{trim_space}
use nfrx.Auth.{
  Request, bearer_any_or_roles, bearer_or_roles, extract_bearer, has_any_allowed_role, is_empty,
  match_loop, matches_any_secret,
}

match_loop-Memᴰ :
    (token : String) (secrets : List String)
    → match_loop token secrets ≡ true
    → (s : String) × Memᴰ s secrets × (trim_space s ≡ token)
unfolding match_loop
match_loop-Memᴰ token [] h = cc
match_loop-Memᴰ token (s ∷ rest) h =
    elim (Bool-cases (not (str_eq (trim_space s) "") && str_eq token (trim_space s))) [
      | inl here ↦ (
        s,
        Memᴰ.head refl,
        sym ((eq_iff token (trim_space s)).0 (second_true (not (str_eq (trim_space s) "")) _ here)),
      )
      | inr other ↦
          let later = match_loop-Memᴰ token rest (skip _ _ other h) in
          (later.0, Memᴰ.tail later.1, later.2)
    ]
  where
    second_true : (a b : Bool) → (a && b) ≡ true → b ≡ true
    second_true true b h = h
    second_true false b h = cc

    skip : (a b : Bool) → a ≡ false → (if a then true else b) ≡ true → b ≡ true
    skip true b e h = cc
    skip false b e h = h

role_false : (header : String) → has_any_allowed_role header [] ≡ false
unfolding has_any_allowed_role is_empty
role_false header = elim (Bool-cases (str_eq header "")) [
  | inl blank ↦ rw blank refl
  | inr some_text ↦ rw some_text refl
]

-- Without roles, BearerAnyOrRolesMiddleware lets in only who has one of the secrets, trimmed and not
-- empty, as the bearer token, or anybody when there are no secrets either.
pub bearer_any_or_roles_secret :
    (secrets : List String) (r : Request)
    → bearer_any_or_roles secrets [] r ≡ true
    → (secrets ≡ [])
      ⊎ ((s : String) × Memᴰ s secrets
          × (trim_space s ≡ extract_bearer r)
          × (str_eq (extract_bearer r) "" ≡ false))
unfolding bearer_any_or_roles is_empty matches_any_secret
bearer_any_or_roles_secret [] r h = inl refl
bearer_any_or_roles_secret (s ∷ rest) r h = elim (Bool-cases (str_eq (extract_bearer r) "")) [
  | inl no_token ↦ absurd (cc (no_token, h, role_false r.user_roles))
  | inr token ↦ elim (Bool-cases (match_loop (extract_bearer r) (s ∷ rest))) [
    | inl matched ↦
        let m = match_loop-Memᴰ (extract_bearer r) (s ∷ rest) matched in inr (m.0, m.1, m.2, token)
    | inr unmatched ↦
        let e : bearer_any_or_roles (s ∷ rest) [] r ≡ false =
          rw (token, unmatched, role_false r.user_roles) refl in
        absurd (cc (h, e))
  ]
]

blank_secret : (token : String) → match_loop token ("" ∷ []) ≡ false
unfolding match_loop trim_space
blank_secret token = refl

-- With no secret and no roles, BearerOrRolesMiddleware lets nobody in.
pub bearer_or_roles_closed : (r : Request) → bearer_or_roles "" [] r ≡ false
unfolding bearer_or_roles
bearer_or_roles_closed r = elim (Bool-cases (str_eq (extract_bearer r) "")) [
  | inl no_token ↦ rw (no_token, role_false r.user_roles) refl
  | inr token ↦ rw (token, blank_secret (extract_bearer r), role_false r.user_roles) refl
]
