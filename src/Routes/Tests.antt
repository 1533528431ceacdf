-- ===== src/Routes/Tests.antt =====
-- The route parser on concrete paths.
use cont_ained.Base.{◌≡◌, refl, none, some, arith, ne_of_eq-false}
use cont_ained.Routes.{agent, ingestion, collection, build, parse_hub_route}
use cont_ained.Routes.RoundTrip.{IsSegment}
use cont_ained.Routes.Builders.{destination, parse_hub_route-build}

parse_test :
    (parse_hub_route "/hubs/ingestion/hub-123/collections/col-456"
      ≡ some
          (record { hub_type = ingestion; hub_id = "hub-123"; sub_path = "collections/col-456" }))
    × (parse_hub_route "/hubs/agent/a1/"
        ≡ some (record { hub_type = agent; hub_id = "a1"; sub_path = "" }))
    × (parse_hub_route "/hubs/other/a1" ≡ none)
    × (parse_hub_route "/hubs/agent//x" ≡ none)
    × (parse_hub_route "/settings" ≡ none)
unfolding parse_hub_route
parse_test = (refl, refl, refl, refl, refl)

hub_123 : IsSegment "hub-123"
hub_123 = record { filled = ne_of_eq-false "hub-123" "" refl; whole = ground arith }

col_456 : IsSegment "col-456"
col_456 = record { filled = ne_of_eq-false "col-456" "" refl; whole = ground arith }

parse_hub_route-build_example :
    parse_hub_route (build (collection "hub-123" "col-456"))
    ≡ some (destination (collection "hub-123" "col-456"))
parse_hub_route-build_example =
    parse_hub_route-build (collection "hub-123" "col-456") (hub_123, col_456)
