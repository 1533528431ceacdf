-- ===== src/Api/Public.antt =====
-- Which requests of frontend/src/services/api.ts carry the session's token, by their endpoint.
use text.Mathlib.TextEquality.{Char-path}
use text.Mathlib.TextLemmas.{nil-append, cons-append}
use cont_ained.Base.{
  String, Bool, true, Option, none, some, ◌==◌, ◌≡◌, ◌⊎◌, ◌∙◌, refl, ap, Bool-cases, inl, inr,
  arith, if◌then◌else◌,
}
use cont_ained.Base.Dict.{Dict, lookup}
use cont_ained.Api.Client.{
  ClientConfig, starts_with, is_public_auth_route, request_headers, header_sent,
}

-- The four routes that are open to all, and an endpoint that begins with one of them.
pub data PublicRoute : Type 0 where
  login register forgot_password reset_password : PublicRoute

abbrev pub route_text : PublicRoute → String
route_text login = "/auth/login"
route_text register = "/auth/register"
route_text forgot_password = "/auth/forgot-password"
route_text reset_password = "/auth/reset-password"

abbrev pub IsPublic : String → Type 0
IsPublic endpoint =
    (route : PublicRoute) × (rest : String) × (endpoint
      ≡ Prim.Native.String.◌++◌ (route_text route) rest)

starts_with-append : (p rest : String) → starts_with (Prim.Native.String.◌++◌ p rest) p ≡ true
unfolding starts_with
starts_with-append String.[] rest = refl
starts_with-append (String.◌∷◌ c p) rest =
    rw cons-append (ground (arith, starts_with-append p rest))

starts_with-rest :
    (s p : String) → starts_with s p ≡ true → (rest : String) × (s ≡ Prim.Native.String.◌++◌ p rest)
unfolding starts_with
starts_with-rest s String.[] h = (s, rw nil-append refl)
starts_with-rest String.[] (String.◌∷◌ d p) h = absurd (ground (arith, h))
starts_with-rest (String.◌∷◌ c s) (String.◌∷◌ d p) h =
    let (rest, e) = starts_with-rest s p (ground (arith, h)) in
    let same : c ≡ d = Char-path c d (ground (arith, h)) in
    (rest, rw cons-append (λ i. String.◌∷◌ (same i) (e i)))

route-IsPublic :
    (endpoint : String) (route : PublicRoute)
    → starts_with endpoint (route_text route) ≡ true
    → IsPublic endpoint
route-IsPublic endpoint route h =
    let (rest, e) = starts_with-rest endpoint (route_text route) h in (route, rest, e)

prefix-IsPublic : (endpoint : String) → is_public_auth_route endpoint ≡ true → IsPublic endpoint
unfolding is_public_auth_route
prefix-IsPublic endpoint h = elim (Bool-cases (starts_with endpoint "/auth/login")) [
  | inl a ↦ route-IsPublic endpoint login a
  | inr na ↦ elim (Bool-cases (starts_with endpoint "/auth/register")) [
    | inl b ↦ route-IsPublic endpoint register b
    | inr nb ↦ elim (Bool-cases (starts_with endpoint "/auth/forgot-password")) [
      | inl c ↦ route-IsPublic endpoint forgot_password c
      | inr nc ↦ route-IsPublic endpoint reset_password (ground (arith, na, nb, nc, h))
    ]
  ]
]

starts : (s p rest : String) → s ≡ Prim.Native.String.◌++◌ p rest → starts_with s p ≡ true
starts s p rest e = ap (λ t. starts_with t p) e ∙ starts_with-append p rest

IsPublic-prefix : (endpoint : String) → IsPublic endpoint → is_public_auth_route endpoint ≡ true
unfolding is_public_auth_route
IsPublic-prefix endpoint (login, rest, e) = ground (arith, starts endpoint "/auth/login" rest e)
IsPublic-prefix endpoint (register, rest, e) =
    ground (arith, starts endpoint "/auth/register" rest e)
IsPublic-prefix endpoint (forgot_password, rest, e) =
    ground (arith, starts endpoint "/auth/forgot-password" rest e)
IsPublic-prefix endpoint (reset_password, rest, e) =
    ground (arith, starts endpoint "/auth/reset-password" rest e)

-- If the caller of a request sets no header `Authorization`, then the request carries none where the
-- endpoint begins with `/auth/login`, `/auth/register`, `/auth/forgot-password` or
-- `/auth/reset-password`, and everywhere else it carries the session's token, if that is not empty.
pub lookup-request_headers :
    (config : ClientConfig) (token endpoint : String) (options : Dict String) (is_form : Bool)
    → lookup "Authorization" options ≡ none
    → let sent : Option String =
        lookup "Authorization" (request_headers config token endpoint options is_form) in
      (IsPublic endpoint × (sent ≡ none))
      ⊎ ((¬ IsPublic endpoint)
          × (sent ≡ (if token == "" then none else some (Prim.Native.String.◌++◌ "Bearer " token))))
lookup-request_headers config token endpoint options is_form h =
    elim (Bool-cases (is_public_auth_route endpoint)) [
      | inl matches ↦ inl (
        prefix-IsPublic endpoint matches,
        ground (arith, header_sent config token endpoint options is_form h, matches),
      )
      | inr closed ↦ inr (
        λ public_. ground (arith, IsPublic-prefix endpoint public_, closed),
        ground (arith, header_sent config token endpoint options is_form h, closed),
      )
    ]
