-- ===== src/Routes/RoundTrip.antt =====
-- `parseHubRoute` of frontend/src/routes.ts on paths of the form that the builders write.
use text.Mathlib.TextLemmas.{append-nil, append_assoc, append-ne-nil_of_right_ne-nil}
use cont_ained.Base.{
  String, false, some, List, [], ◌∷◌, ◌==◌, ◌≡◌, ◌≢◌, refl, eq-false_of_ne, ap, sym, ◌∙◌, arith,
}
use cont_ained.Routes.Text.{
  ◌++◌, split_slash, join_slash, NoSlash, NoEndSlash, split_slash-slash, split_slash-append,
  split_slash_of_NoSlash, join_slash-split_slash, strip_slash-append, NoSlash-NoEndSlash,
}
use cont_ained.Routes.{
  HubType, ingestion, agent, workflow, eval, type_name, hub_types, hub_path, parse_parts,
  parse_hub_route,
}

-- An id as the builders take it: not empty, and with no slash.
pub record IsSegment (s : String) : Type 0 where
  pub filled : s ≢ ""
  pub whole : NoSlash s

type_name-NoSlash : (t : HubType) → NoSlash (type_name t)
unfolding type_name
type_name-NoSlash ingestion = ground arith
type_name-NoSlash agent = ground arith
type_name-NoSlash workflow = ground arith
type_name-NoSlash eval = ground arith

-- The type's text is one of the four.
pub hub_types-type_name : (t : HubType) → hub_types (type_name t) ≡ some t
unfolding hub_types type_name
hub_types-type_name ingestion = refl
hub_types-type_name agent = refl
hub_types-type_name workflow = refl
hub_types-type_name eval = refl

type_name-filled : (t : HubType) → (type_name t == "") ≡ false
unfolding type_name
type_name-filled ingestion = refl
type_name-filled agent = refl
type_name-filled workflow = refl
type_name-filled eval = refl

hubs_prefix : (s : String) → "/hubs/" ++ s ≡ "/" ++ ("hubs" ++ ("/" ++ s))
hubs_prefix s = append_assoc "/" "hubs/" s ∙ ap (◌++◌ "/") (append_assoc "hubs" "/" s)

-- The parts of a path into a hub.
split_slash-hub_path :
    (t : HubType) (s : String)
    → split_slash ("/hubs/" ++ (type_name t ++ ("/" ++ s)))
      ≡ "" ∷ "hubs" ∷ type_name t ∷ split_slash s
split_slash-hub_path t s =
    ap split_slash (hubs_prefix (type_name t ++ ("/" ++ s)))
    ∙ split_slash-slash _
    ∙ ap (◌∷◌ "") (split_slash-append "hubs" _ (ground arith))
    ∙ ap (λ ps. "" ∷ "hubs" ∷ ps) (split_slash-append (type_name t) s (type_name-NoSlash t))

parse_parts-hub :
    (t : HubType) (id : String) (rest : List String)
    → IsSegment id
    → parse_parts ("" ∷ "hubs" ∷ type_name t ∷ id ∷ rest)
      ≡ some (record { hub_type = t; hub_id = id; sub_path = join_slash rest })
unfolding parse_parts type_name
parse_parts-hub ingestion id rest h = rw (eq-false_of_ne id "" h.filled)
parse_parts-hub agent id rest h = rw (eq-false_of_ne id "" h.filled)
parse_parts-hub workflow id rest h = rw (eq-false_of_ne id "" h.filled)
parse_parts-hub eval id rest h = rw (eq-false_of_ne id "" h.filled)

-- Nothing is stripped from a path that ends in a segment.
pub NoEndSlash-append : (p s : String) → s ≢ "" → NoEndSlash s → NoEndSlash (p ++ s)
NoEndSlash-append p s h clean = strip_slash-append p s h ∙ ap (◌++◌ p) clean

module _ (t : HubType) (id tail : String) (filled : (id ++ tail) ≢ "")
    (clean : NoEndSlash (id ++ tail)) where
  NoEndSlash-hub_path : NoEndSlash (hub_path t id tail)
  NoEndSlash-hub_path =
      NoEndSlash-append "/hubs/" _ (append-ne-nil_of_right_ne-nil (type_name t) behind)
        (NoEndSlash-append (type_name t) _ behind (NoEndSlash-append "/" _ filled clean))
    where
      behind : "/" ++ (id ++ tail) ≢ ""
      behind = append-ne-nil_of_right_ne-nil "/" filled

  parse-hub_path :
      parse_hub_route (hub_path t id tail)
      ≡ parse_parts ("" ∷ "hubs" ∷ type_name t ∷ split_slash (id ++ tail))
  unfolding parse_hub_route
  parse-hub_path =
      ap (λ p. parse_parts (split_slash p)) NoEndSlash-hub_path
      ∙ ap parse_parts (split_slash-hub_path t (id ++ tail))

-- A path that goes on behind the id, and ends in no slash.
pub parse-sub_path :
    (t : HubType) (id sub : String)
    → IsSegment id
    → sub ≢ ""
    → NoEndSlash sub
    → parse_hub_route (hub_path t id ("/" ++ sub))
      ≡ some (record { hub_type = t; hub_id = id; sub_path = sub })
parse-sub_path t id sub h filled clean =
    parse-hub_path t id ("/" ++ sub) (append-ne-nil_of_right_ne-nil id slash)
      (NoEndSlash-append id _ slash (NoEndSlash-append "/" sub filled clean))
    ∙ ap (λ ps. parse_parts ("" ∷ "hubs" ∷ type_name t ∷ ps)) (split_slash-append id sub h.whole)
    ∙ parse_parts-hub t id (split_slash sub) h
    ∙ ap (λ s. some (record { hub_type = t; hub_id = id; sub_path = s }))
        (join_slash-split_slash sub)
  where
    slash : "/" ++ sub ≢ ""
    slash = append-ne-nil_of_right_ne-nil "/" filled

-- A path that ends with the id.
pub parse-overview :
    (t : HubType) (id : String)
    → IsSegment id
    → parse_hub_route (hub_path t id "")
      ≡ some (record { hub_type = t; hub_id = id; sub_path = "" })
unfolding join_slash
parse-overview t id h =
    parse-hub_path t id "" (λ e. h.filled (sym (append-nil id) ∙ e))
      (rw (append-nil id) (NoSlash-NoEndSlash id h.whole))
    ∙ ap (λ s. parse_parts ("" ∷ "hubs" ∷ type_name t ∷ split_slash s)) (append-nil id)
    ∙ ap (λ ps. parse_parts ("" ∷ "hubs" ∷ type_name t ∷ ps)) (split_slash_of_NoSlash id h.whole)
    ∙ parse_parts-hub t id [] h

pub type_name-injective : (t u : HubType) → type_name t ≡ type_name u → t ≡ u
type_name-injective t u e = ground (arith, hub_types-type_name t, hub_types-type_name u, e)
