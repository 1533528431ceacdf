-- ===== src/Api/Client.antt =====
-- frontend/src/services/api.ts: `getClientConfig`, the headers of `request`, and the requests that do
-- not go through it.
use Prim.Native.Char.{code}
use cont_ained.Base.{
  String, Bool, true, false, ◌&&◌, ◌||◌, not, Option, none, some, [], ◌∷◌, ◌==◌, ◌≡◌, ◌≢◌, ◌∙◌,
  refl, Bool-cases, inl, inr, arith, eqb, eq_iff, or_text, if◌then◌else◌,
}
use cont_ained.Base.Dict.{Dict, lookup, insert, lookup-insert}

pub record ClientConfig : Type 0 where
  pub base_url : String
  pub api_key : String

-- The two settings as the store or the storage has them; an empty text counts as missing.
pub record Settings : Type 0 where
  pub gateway_url : String
  pub api_key : String

-- What reading `contained-settings` comes to: nothing stored, an exception, or the settings.
pub data StoredSettings : Type 0 where
  nothing_stored unreadable : StoredSettings
  stored_settings : Settings → StoredSettings

abbrev default_key : String
default_key = "sk_live_default_key"

abbrev fallback_url : String → String
fallback_url vite_url = or_text vite_url "http://localhost:8000"

-- `getClientConfig`: the store, then the storage, then the build.
unfoldable pub get_client_config : String → Settings → StoredSettings → ClientConfig
get_client_config vite_url store storage =
    if not (store.gateway_url == "")
    then record { base_url = store.gateway_url; api_key = or_text store.api_key default_key }
    else elim storage [
      | nothing_stored ↦ record { base_url = fallback_url vite_url; api_key = default_key }
      | unreadable ↦ record { base_url = fallback_url vite_url; api_key = default_key }
      | stored_settings s ↦ record {
        base_url = or_text s.gateway_url (fallback_url vite_url);
        api_key = or_text s.api_key default_key;
      }
    ]

-- `s.startsWith(p)`.
unfoldable pub starts_with : String → String → Bool
starts_with s String.[] = true
starts_with String.[] (String.◌∷◌ d p) = false
starts_with (String.◌∷◌ c s) (String.◌∷◌ d p) = eqb (code c) (code d) && starts_with s p

-- `isPublicAuthRoute`.
unfoldable pub is_public_auth_route : String → Bool
unfolding starts_with
is_public_auth_route endpoint =
    starts_with endpoint "/auth/login"
    || (starts_with endpoint "/auth/register"
        || (starts_with endpoint "/auth/forgot-password"
            || starts_with endpoint "/auth/reset-password"))

-- `...options.headers`: each header of the caller is written over.
unfoldable pub spread : Dict String → Dict String → Dict String
spread [] headers = headers
spread ((k, v) ∷ more) headers = spread more (insert k v headers)

-- `token && !isPublicAuthRoute ? { Authorization: ... } : {}`; an empty token counts as none.
abbrev authorization : String → String → Dict String
authorization token endpoint =
    if not (token == "") && not (is_public_auth_route endpoint)
    then ("Authorization", Prim.Native.String.◌++◌ "Bearer " token) ∷ []
    else []

-- `!!o` of a text that may be missing.
abbrev is_filled : Option String → Bool
is_filled none = false
is_filled (some s) = not (s == "")

-- `headers["Content-Type"] = "application/json"`, unless there is a type or the body is a form.
abbrev typed : Bool → Dict String → Dict String
typed is_form headers =
    if is_form || is_filled (lookup "Content-Type" headers)
    then headers
    else insert "Content-Type" "application/json" headers

-- The headers of `request`.
unfoldable pub request_headers : ClientConfig → String → String → Dict String → Bool → Dict String
unfolding spread is_public_auth_route
request_headers config token endpoint options is_form =
    typed is_form (spread options (("X-API-Key", config.api_key) ∷ authorization token endpoint))

-- The headers of the upload to the playground, and of the two fetches that go around `request`: the
-- upload of a document, and the tag of a draft.
unfoldable pub upload_headers : ClientConfig → String → Dict String
upload_headers config token =
    ("X-API-Key", config.api_key)
    ∷ (if token == "" then [] else ("Authorization", Prim.Native.String.◌++◌ "Bearer " token) ∷ [])

unfoldable pub bare_headers : ClientConfig → Dict String
bare_headers config = ("X-API-Key", config.api_key) ∷ []

lookup-spread :
    (k : String) (options headers : Dict String)
    → lookup k options ≡ none
    → lookup k (spread options headers) ≡ lookup k headers
unfolding spread lookup
lookup-spread k [] headers h = refl
lookup-spread k ((j, v) ∷ options) headers h =
    ground (arith, lookup-spread k options (insert j v headers), lookup-insert j k v headers, h)

lookup-typed :
    (k : String) (is_form : Bool) (headers : Dict String)
    → k ≢ "Content-Type"
    → lookup k (typed is_form headers) ≡ lookup k headers
lookup-typed k is_form headers h =
    ground
      (arith, lookup-insert "Content-Type" k "application/json" headers, eq_iff "Content-Type" k, h)

lookup-authorization :
    (config : ClientConfig) (token endpoint : String)
    → lookup "Authorization" (("X-API-Key", config.api_key) ∷ authorization token endpoint) ≡ (
        if not (token == "") && not (is_public_auth_route endpoint)
        then some (Prim.Native.String.◌++◌ "Bearer " token)
        else none)
unfolding lookup
lookup-authorization config token endpoint =
    elim (Bool-cases (not (token == "") && not (is_public_auth_route endpoint))) [
      | inl sent ↦ rw sent
      | inr plain ↦ rw plain
    ]

-- The token goes with a request that is to no public route.
pub header_sent :
    (config : ClientConfig) (token endpoint : String) (options : Dict String) (is_form : Bool)
    → lookup "Authorization" options ≡ none
    → lookup "Authorization" (request_headers config token endpoint options is_form) ≡ (
        if not (token == "") && not (is_public_auth_route endpoint)
        then some (Prim.Native.String.◌++◌ "Bearer " token)
        else none)
unfolding request_headers
header_sent config token endpoint options is_form h =
    lookup-typed "Authorization" is_form _
      (λ e. ground (arith, eq_iff "Authorization" "Content-Type", e))
    ∙ lookup-spread "Authorization" options _ h
    ∙ lookup-authorization config token endpoint
