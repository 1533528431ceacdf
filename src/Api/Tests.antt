-- ===== src/Api/Tests.antt =====
-- `request` on given replies.
use cont_ained.Base.{ℕ, zero, suc, ◌+◌, ◌*◌, ◌^◌, ◌≤◌, none, some, [], ◌∷◌, ◌≡◌, refl, arith}
use cont_ained.Base.{String, Option, ◌⊎◌, true, false}
use cont_ained.Base.Dict.{lookup, insert}
use cont_ained.Api.Endpoints.{Host, delete_collection, of_ingestion, hub_endpoint}
use cont_ained.Api.Inside.{LeadsInto}
use cont_ained.Api.Scope.{hub_endpoint-LeadsInto}
use cont_ained.Api.Client.{ClientConfig, request_headers, bare_headers}
use cont_ained.Api.Public.{IsPublic, lookup-request_headers}
use cont_ained.Api.{
  Response, Reply, responds, fetches, notifies, waits, returned, failed, Wording, request,
}
use cont_ained.Api.Loop.{fetch_count, notice_count, paused}
use cont_ained.Api.Decided.{DecidedAt, request-DecidedAt}
use cont_ained.Api.Backoff.{request-paused}
use cont_ained.Api.Repeats.{request_repeats}

abbrev words : Wording
words = record { failed_title = λ n. "API Request Failed"; timed_out = "Request timed out" }

abbrev response : ℕ → Response ℕ
response status = record {
  status = status;
  error_text = "HTTP Error";
  error_body = none;
  value = some 7;
  parse_message = "";
}

-- A server error, then a result.
abbrev flaky : ℕ → Reply ℕ
flaky zero = responds (response 503)
flaky (suc n) = responds (response 200)

flaky_test : request words flaky 3 ≡ (fetches ∷ waits 1000 ∷ fetches ∷ [], returned 7)
unfolding request
flaky_test = refl

-- The client error 404 is fetched three times and shown four times.
missing_test : request words (λ i. responds (response 404)) 3 ≡ (
  fetches
      ∷ notifies "API Request Failed" "HTTP Error"
      ∷ waits 1000
      ∷ fetches
      ∷ notifies "API Request Failed" "HTTP Error"
      ∷ waits 2000
      ∷ fetches
      ∷ notifies "API Request Failed" "HTTP Error"
      ∷ notifies "API Error" "HTTP Error"
      ∷ [],
  failed "HTTP Error",
)
unfolding request
missing_test = refl

request-DecidedAt_example : (k : ℕ) × DecidedAt words flaky 3 0 (request words flaky 3) k
request-DecidedAt_example = request-DecidedAt words flaky 3 (omega arith)

request-paused_example : paused (request words flaky (2 + 1)).0 + 1000 ≤ 2 ^ 2 * 1000
request-paused_example = request-paused words flaky 2

request_repeats_test :
    (fetch_count (request words (λ i. responds (response 404)) 3).0 ≡ 3)
    × (notice_count (request words (λ i. responds (response 404)) 3).0 ≡ suc 3)
request_repeats_test =
    request_repeats words (response 404) 3 (omega arith)
      (record { at_least = omega arith; below = omega arith; no_code = refl })

abbrev plain_texts : Host
plain_texts = record { show_number = λ n. "10"; query_text = λ l. "" }

hub_endpoint-LeadsInto_example :
    LeadsInto "h1" ("ingestion" ∷ []) "/api/hubs/h1/ingestion/collections/c1?force=true"
unfolding hub_endpoint
hub_endpoint-LeadsInto_example =
    hub_endpoint-LeadsInto plain_texts "h1" (ground arith, ground arith)
      (of_ingestion (delete_collection "c1" true))

abbrev local : ClientConfig
local = record { base_url = "http://localhost:8000"; api_key = "k" }

lookup-request_headers_example :
    let sent : Option String =
      lookup "Authorization" (request_headers local "t" "/auth/login?next=hubs" [] false) in
    (IsPublic "/auth/login?next=hubs" × (sent ≡ none))
    ⊎ ((¬ IsPublic "/auth/login?next=hubs") × (sent ≡ some "Bearer t"))
unfolding lookup
lookup-request_headers_example =
    lookup-request_headers local "t" "/auth/login?next=hubs" [] false refl

-- The session's token does not go with a login, nor with the upload of a document.
login_test : lookup "Authorization" (request_headers local "t" "/auth/login" [] false) ≡ none
unfolding request_headers lookup insert
login_test = refl

bare_headers_test : lookup "Authorization" (bare_headers local) ≡ none
unfolding bare_headers lookup
bare_headers_test = refl
