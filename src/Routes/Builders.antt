-- ===== src/Routes/Builders.antt =====
-- The builders of frontend/src/routes.ts that lead into a hub against `parseHubRoute`.
use text.Mathlib.TextLemmas.{append_assoc, append-ne-nil_of_right_ne-nil}
use cont_ained.Base.{String, false, ne_of_eq-false, ◌==◌, some, ◌≡◌, ◌≢◌, refl, ap, ◌∙◌}
use cont_ained.Routes.Text.{◌++◌, NoEndSlash, strip_slash, NoSlash-NoEndSlash}
use cont_ained.Routes.RoundTrip.{IsSegment, NoEndSlash-append, parse-sub_path, parse-overview}
use cont_ained.Routes.{
  HubType, ingestion, agent, workflow, eval, build, hub_path, ParsedHubRoute, parse_hub_route,
}
use cont_ained.Routes.{
  HubRoute, shell, members, links, settings, ingestion_overview, collections, datastores, documents,
  jobs, search, collection, agent_overview, agents, agent_detail, agent_playground,
  workflow_overview, workflows, workflow_editor, workflow_runs, eval_overview, suites, eval_runs,
  dashboard, suite, traces,
}

abbrev at : HubType → String → String → ParsedHubRoute
at t id sub = record { hub_type = t; hub_id = id; sub_path = sub }

-- Where a builder leads: the hub's type and id, and the place in the hub's workspace.
abbrev pub destination : HubRoute → ParsedHubRoute
destination (shell t id) = at t id ""
destination (members t id) = at t id "members"
destination (links t id) = at t id "links"
destination (settings t id) = at t id "settings"
destination (ingestion_overview id) = at ingestion id ""
destination (collections id) = at ingestion id "collections"
destination (collection id cid) = at ingestion id ("collections/" ++ cid)
destination (datastores id) = at ingestion id "datastores"
destination (documents id) = at ingestion id "documents"
destination (jobs id) = at ingestion id "jobs"
destination (search id) = at ingestion id "search"
destination (agent_overview id) = at agent id ""
destination (agents id) = at agent id "agents"
destination (agent_detail id aid) = at agent id ("agents/" ++ aid)
destination (agent_playground id aid) = at agent id ("agents/" ++ (aid ++ "/playground"))
destination (workflow_overview id) = at workflow id ""
destination (workflows id) = at workflow id "workflows"
destination (workflow_editor id wid) = at workflow id ("workflows/" ++ (wid ++ "/editor"))
destination (workflow_runs id wid) = at workflow id ("workflows/" ++ (wid ++ "/runs"))
destination (eval_overview id) = at eval id ""
destination (suites id) = at eval id "suites"
destination (suite id sid) = at eval id ("suites/" ++ sid)
destination (eval_runs id) = at eval id "runs"
destination (traces id run_id) = at eval id ("runs/" ++ (run_id ++ "/traces"))
destination (dashboard id) = at eval id "dashboard"

-- A path of two literal segments.
parse-page :
    (t : HubType) (id page : String)
    → IsSegment id
    → (page == "") ≡ false
    → NoEndSlash page
    → parse_hub_route (hub_path t id ("/" ++ page)) ≡ some (at t id page)
parse-page t id page h filled clean =
    parse-sub_path t id page h (ne_of_eq-false page "" filled) clean

-- A path that ends with an id of its own, behind a literal.
parse-item :
    (t : HubType) (id page item : String)
    → IsSegment id
    → IsSegment item
    → parse_hub_route (hub_path t id (("/" ++ page) ++ item)) ≡ some (at t id (page ++ item))
parse-item t id page item h k =
    ap (λ s. parse_hub_route (hub_path t id s)) (append_assoc "/" page item)
    ∙ parse-sub_path t id (page ++ item) h (append-ne-nil_of_right_ne-nil page k.filled)
        (NoEndSlash-append page item k.filled (NoSlash-NoEndSlash item k.whole))

-- The same with a literal behind that id.
parse-item_page :
    (t : HubType) (id page item tail : String)
    → IsSegment id
    → (tail == "") ≡ false
    → NoEndSlash tail
    → parse_hub_route (hub_path t id (("/" ++ page) ++ (item ++ tail)))
      ≡ some (at t id (page ++ (item ++ tail)))
parse-item_page t id page item tail h filled clean =
    ap (λ s. parse_hub_route (hub_path t id s)) (append_assoc "/" page (item ++ tail))
    ∙ parse-sub_path t id (page ++ (item ++ tail)) h (append-ne-nil_of_right_ne-nil page behind) (
        NoEndSlash-append page _ behind
          (NoEndSlash-append item tail (ne_of_eq-false tail "" filled) clean))
  where
    behind : item ++ tail ≢ ""
    behind = append-ne-nil_of_right_ne-nil item (ne_of_eq-false tail "" filled)

-- The ids that a route carries are segments.
abbrev pub HasSegments : HubRoute → Type 0
HasSegments (collection id cid) = IsSegment id × IsSegment cid
HasSegments (agent_detail id aid) = IsSegment id × IsSegment aid
HasSegments (agent_playground id aid) = IsSegment id × IsSegment aid
HasSegments (workflow_editor id wid) = IsSegment id × IsSegment wid
HasSegments (workflow_runs id wid) = IsSegment id × IsSegment wid
HasSegments (suite id sid) = IsSegment id × IsSegment sid
HasSegments (traces id run_id) = IsSegment id × IsSegment run_id
HasSegments r = IsSegment (destination r).hub_id

-- For each of the 25 builders: the path that it makes of slash-free, non-empty ids parses, and
-- yields the hub's type, the hub's id and the rest of the path behind it.
pub parse_hub_route-build :
    (r : HubRoute) → HasSegments r → parse_hub_route (build r) ≡ some (destination r)
unfolding build strip_slash
parse_hub_route-build (shell t id) h = parse-overview t id h
parse_hub_route-build (members t id) h = parse-page t id "members" h refl refl
parse_hub_route-build (links t id) h = parse-page t id "links" h refl refl
parse_hub_route-build (settings t id) h = parse-page t id "settings" h refl refl
parse_hub_route-build (collections id) h = parse-page ingestion id "collections" h refl refl
parse_hub_route-build (datastores id) h = parse-page ingestion id "datastores" h refl refl
parse_hub_route-build (documents id) h = parse-page ingestion id "documents" h refl refl
parse_hub_route-build (jobs id) h = parse-page ingestion id "jobs" h refl refl
parse_hub_route-build (search id) h = parse-page ingestion id "search" h refl refl
parse_hub_route-build (agents id) h = parse-page agent id "agents" h refl refl
parse_hub_route-build (workflows id) h = parse-page workflow id "workflows" h refl refl
parse_hub_route-build (suites id) h = parse-page eval id "suites" h refl refl
parse_hub_route-build (eval_runs id) h = parse-page eval id "runs" h refl refl
parse_hub_route-build (dashboard id) h = parse-page eval id "dashboard" h refl refl
parse_hub_route-build (ingestion_overview id) h = parse-overview ingestion id h
parse_hub_route-build (agent_overview id) h = parse-overview agent id h
parse_hub_route-build (workflow_overview id) h = parse-overview workflow id h
parse_hub_route-build (eval_overview id) h = parse-overview eval id h
parse_hub_route-build (collection id item) h = parse-item ingestion id "collections/" item h.0 h.1
parse_hub_route-build (agent_detail id item) h = parse-item agent id "agents/" item h.0 h.1
parse_hub_route-build (suite id item) h = parse-item eval id "suites/" item h.0 h.1
parse_hub_route-build (agent_playground id item) h =
    parse-item_page agent id "agents/" item "/playground" h.0 refl refl
parse_hub_route-build (workflow_editor id item) h =
    parse-item_page workflow id "workflows/" item "/editor" h.0 refl refl
parse_hub_route-build (workflow_runs id item) h =
    parse-item_page workflow id "workflows/" item "/runs" h.0 refl refl
parse_hub_route-build (traces id item) h =
    parse-item_page eval id "runs/" item "/traces" h.0 refl refl
