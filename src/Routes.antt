-- ===== src/Routes.antt =====
-- frontend/src/routes.ts: the route builders and `parseHubRoute`. A path is a native text, walked by
-- code point; `pathname.split("/")`, `join("/")` and the regular expression `/\/$/` are written out.
pub mod Text
pub mod RoundTrip
pub mod Builders
mod Tests
use cont_ained.Base.{
  String, Bool, Option, none, some, List, [], ◌∷◌, ◌==◌, ◌||◌, not, if◌then◌else◌,
}
use Text.{◌++◌, split_slash, strip_slash, join_slash}

-- `HubType`.
pub data HubType : Type 0 where
  ingestion agent workflow eval : HubType

-- The text of a `HubType`.
unfoldable pub type_name : HubType → String
type_name ingestion = "ingestion"
type_name agent = "agent"
type_name workflow = "workflow"
type_name eval = "eval"

-- `HUB_TYPES.has(s)`, with the member that `s` is.
unfoldable pub hub_types : String → Option HubType
hub_types s =
    if s == "ingestion"
    then some ingestion
    else if s == "agent"
    then some agent
    else if s == "workflow"
    then some workflow
    else if s == "eval"
    then some eval
    else none

-- One constructor for each builder of `routes` that leads into a hub.
pub data HubRoute : Type 0 where
  shell members links settings : HubType → String → HubRoute
  ingestion_overview collections datastores documents jobs search : String → HubRoute
  collection : String → String → HubRoute
  agent_overview agents : String → HubRoute
  agent_detail agent_playground : String → String → HubRoute
  workflow_overview workflows : String → HubRoute
  workflow_editor workflow_runs : String → String → HubRoute
  eval_overview suites eval_runs dashboard : String → HubRoute
  suite traces : String → String → HubRoute

-- `/hubs/${t}/${id}` and what follows it.
abbrev hub_path : HubType → String → String → String
hub_path t id tail = "/hubs/" ++ (type_name t ++ ("/" ++ (id ++ tail)))

-- The builders `routes.hubs`, `routes.ingestionHub`, `routes.agentHub`, `routes.workflowHub` and
-- `routes.evalHub`.
unfoldable pub build : HubRoute → String
unfolding type_name
build (shell t id) = hub_path t id ""
build (members t id) = hub_path t id "/members"
build (links t id) = hub_path t id "/links"
build (settings t id) = hub_path t id "/settings"
build (ingestion_overview id) = hub_path ingestion id ""
build (collections id) = hub_path ingestion id "/collections"
build (collection id cid) = hub_path ingestion id ("/collections/" ++ cid)
build (datastores id) = hub_path ingestion id "/datastores"
build (documents id) = hub_path ingestion id "/documents"
build (jobs id) = hub_path ingestion id "/jobs"
build (search id) = hub_path ingestion id "/search"
build (agent_overview id) = hub_path agent id ""
build (agents id) = hub_path agent id "/agents"
build (agent_detail id aid) = hub_path agent id ("/agents/" ++ aid)
build (agent_playground id aid) = hub_path agent id ("/agents/" ++ (aid ++ "/playground"))
build (workflow_overview id) = hub_path workflow id ""
build (workflows id) = hub_path workflow id "/workflows"
build (workflow_editor id wid) = hub_path workflow id ("/workflows/" ++ (wid ++ "/editor"))
build (workflow_runs id wid) = hub_path workflow id ("/workflows/" ++ (wid ++ "/runs"))
build (eval_overview id) = hub_path eval id ""
build (suites id) = hub_path eval id "/suites"
build (suite id sid) = hub_path eval id ("/suites/" ++ sid)
build (eval_runs id) = hub_path eval id "/runs"
build (traces id run_id) = hub_path eval id ("/runs/" ++ (run_id ++ "/traces"))
build (dashboard id) = hub_path eval id "/dashboard"

-- `ParsedHubRoute`.
pub record ParsedHubRoute : Type 0 where
  pub hub_type : HubType
  pub hub_id : String
  pub sub_path : String

-- The tests of `parseHubRoute` on the parts: at least four, the second of them "hubs".
parse_parts : List String → Option ParsedHubRoute
unfolding hub_types
parse_parts (root ∷ hubs ∷ hub_type ∷ hub_id ∷ rest) =
    if not (hubs == "hubs")
    then none
    else if hub_type == "" || hub_id == ""
    then none
    else elim (hub_types hub_type) [
      | none ↦ none
      | some t ↦ some (record { hub_type = t; hub_id = hub_id; sub_path = join_slash rest })
    ]
parse_parts _ = none

-- `parseHubRoute`.
unfoldable pub parse_hub_route : String → Option ParsedHubRoute
unfolding parse_parts split_slash strip_slash join_slash
parse_hub_route pathname = parse_parts (split_slash (strip_slash pathname))
