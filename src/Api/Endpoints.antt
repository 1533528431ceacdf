-- ===== src/Api/Endpoints.antt =====
-- frontend/src/services/api.ts: the requests of the namespaces that work inside a hub. What JavaScript
-- makes of numbers, components and queries is a parameter.
use Prim.Native.String.{◌++◌}
use cont_ained.Base.{ℕ, String, Bool, true, false, List, [], ◌∷◌, ◌==◌, if◌then◌else◌}

pub data Method : Type 0 where
  get_ post put patch delete : Method

-- What a call hands to `request`: the method, the path, and whether there is a body.
pub record Endpoint : Type 0 where
  pub method : Method
  pub path : String
  pub has_body : Bool

-- `String(n)`, and `new URLSearchParams(entries).toString()`.
pub record Host : Type 0 where
  pub show_number : ℕ → String
  pub query_text : List (String × String) → String

-- `/api/hubs/${hubId}` and what follows it.
abbrev pub in_hub : String → String → String
in_hub hub tail = "/api/hubs/" ++ (hub ++ tail)

abbrev read_at : String → Endpoint
read_at p = record { method = get_; path = p; has_body = false }

abbrev bare : Method → String → Endpoint
bare m p = record { method = m; path = p; has_body = false }

abbrev send_at : Method → String → Endpoint
send_at m p = record { method = m; path = p; has_body = true }

-- `api.hubs`, without the calls that name no hub.
pub data HubsCall : Type 0 where
  get_hub update_hub archive unarchive delete_hub : HubsCall
  list_members invite : HubsCall
  update_role remove_member : String → HubsCall
  list_links create_link dependents : HubsCall
  revoke_link : String → HubsCall

unfoldable pub hubs_endpoint : String → HubsCall → Endpoint
hubs_endpoint hub get_hub = read_at (in_hub hub "")
hubs_endpoint hub update_hub = send_at patch (in_hub hub "")
hubs_endpoint hub archive = bare post (in_hub hub "/archive")
hubs_endpoint hub unarchive = bare post (in_hub hub "/unarchive")
hubs_endpoint hub delete_hub = bare delete (in_hub hub "?force=true")
hubs_endpoint hub list_members = read_at (in_hub hub "/members")
hubs_endpoint hub invite = send_at post (in_hub hub "/members")
hubs_endpoint hub (update_role user) = send_at patch (in_hub hub ("/members/" ++ user))
hubs_endpoint hub (remove_member user) = bare delete (in_hub hub ("/members/" ++ user))
hubs_endpoint hub list_links = read_at (in_hub hub "/links")
hubs_endpoint hub create_link = send_at post (in_hub hub "/links")
hubs_endpoint hub dependents = read_at (in_hub hub "/links?direction=incoming")
hubs_endpoint hub (revoke_link link) = bare delete (in_hub hub ("/links/" ++ link))

-- `api.ingestion`, without the upload, which does not go through `request`.
pub data IngestionCall : Type 0 where
  list_collections create_collection : IngestionCall
  get_collection : String → IngestionCall
  delete_collection : String → Bool → IngestionCall
  list_datastores create_datastore : IngestionCall
  test_datastore delete_datastore : String → IngestionCall
  list_documents : ℕ → ℕ → IngestionCall
  get_chunks : String → ℕ → ℕ → IngestionCall
  delete_document : String → IngestionCall
  list_jobs : String → ℕ → ℕ → IngestionCall
  get_job : String → IngestionCall
  search_hub : IngestionCall

-- `?limit=${limit}&offset=${offset}`.
abbrev window : Host → ℕ → ℕ → String
window host limit offset =
    "?limit=" ++ (host.show_number limit ++ ("&offset=" ++ host.show_number offset))

unfoldable pub ingestion_endpoint : Host → String → IngestionCall → Endpoint
ingestion_endpoint host hub list_collections = read_at (in_hub hub "/ingestion/collections")
ingestion_endpoint host hub create_collection = send_at post (in_hub hub "/ingestion/collections")
ingestion_endpoint host hub (get_collection id) =
    read_at (in_hub hub ("/ingestion/collections/" ++ id))
ingestion_endpoint host hub (delete_collection id force) =
    bare delete
      (in_hub hub ("/ingestion/collections/" ++ (id ++ (if force then "?force=true" else ""))))
ingestion_endpoint host hub list_datastores = read_at (in_hub hub "/ingestion/datastores")
ingestion_endpoint host hub create_datastore = send_at post (in_hub hub "/ingestion/datastores")
ingestion_endpoint host hub (test_datastore id) =
    bare post (in_hub hub ("/ingestion/datastores/" ++ (id ++ "/health")))
ingestion_endpoint host hub (delete_datastore id) =
    bare delete (in_hub hub ("/ingestion/datastores/" ++ id))
ingestion_endpoint host hub (list_documents limit offset) =
    read_at (in_hub hub ("/ingestion/documents" ++ window host limit offset))
ingestion_endpoint host hub (get_chunks doc limit offset) =
    read_at
      (in_hub hub ("/ingestion/documents/" ++ (doc ++ ("/chunks" ++ window host limit offset))))
ingestion_endpoint host hub (delete_document doc) =
    bare delete (in_hub hub ("/ingestion/documents/" ++ doc))
ingestion_endpoint host hub (list_jobs status limit offset) = read_at (
    in_hub hub (
      "/ingestion/jobs"
      ++ (window host limit offset ++ (if status == "" then "" else "&status=" ++ status))))
ingestion_endpoint host hub (get_job id) = read_at (in_hub hub ("/ingestion/jobs/" ++ id))
ingestion_endpoint host hub search_hub = send_at post (in_hub hub "/ingestion/search")

-- `api.agents`.
pub data AgentsCall : Type 0 where
  list_agents create_agent : AgentsCall
  get_agent update_agent delete_agent invoke_agent : String → AgentsCall

unfoldable pub agents_endpoint : String → AgentsCall → Endpoint
agents_endpoint hub list_agents = read_at (in_hub hub "/agents")
agents_endpoint hub create_agent = send_at post (in_hub hub "/agents")
agents_endpoint hub (get_agent id) = read_at (in_hub hub ("/agents/" ++ id))
agents_endpoint hub (update_agent id) = send_at put (in_hub hub ("/agents/" ++ id))
agents_endpoint hub (delete_agent id) = bare delete (in_hub hub ("/agents/" ++ id))
agents_endpoint hub (invoke_agent id) = send_at post (in_hub hub ("/agents/" ++ (id ++ "/invoke")))

-- `api.workflows`, where a draft is written by the second of its two requests.
pub data WorkflowsCall : Type 0 where
  list_workflows create_workflow : WorkflowsCall
  get_workflow update_workflow get_draft update_draft : String → WorkflowsCall
  delete_workflow run_workflow validate_workflow list_workflow_runs : String → WorkflowsCall
  get_workflow_run : String → String → WorkflowsCall

unfoldable pub workflows_endpoint : String → WorkflowsCall → Endpoint
workflows_endpoint hub list_workflows = read_at (in_hub hub "/workflows")
workflows_endpoint hub create_workflow = send_at post (in_hub hub "/workflows")
workflows_endpoint hub (get_workflow id) = read_at (in_hub hub ("/workflows/" ++ id))
workflows_endpoint hub (update_workflow id) = send_at put (in_hub hub ("/workflows/" ++ id))
workflows_endpoint hub (get_draft id) = read_at (in_hub hub ("/workflows/" ++ (id ++ "/draft")))
workflows_endpoint hub (update_draft id) =
    send_at put (in_hub hub ("/workflows/" ++ (id ++ "/draft")))
workflows_endpoint hub (delete_workflow id) = bare delete (in_hub hub ("/workflows/" ++ id))
workflows_endpoint hub (run_workflow id) =
    send_at post (in_hub hub ("/workflows/" ++ (id ++ "/run")))
workflows_endpoint hub (validate_workflow id) =
    send_at post (in_hub hub ("/workflows/" ++ (id ++ "/validate")))
workflows_endpoint hub (list_workflow_runs id) =
    read_at (in_hub hub ("/workflows/" ++ (id ++ "/runs")))
workflows_endpoint hub (get_workflow_run id run) =
    read_at (in_hub hub ("/workflows/" ++ (id ++ ("/runs/" ++ run))))

-- `api.evals`.
pub data EvalsCall : Type 0 where
  list_suites : String → String → String → EvalsCall
  create_suite : EvalsCall
  get_suite update_suite delete_suite clone_suite : String → EvalsCall
  list_cases add_case : String → EvalsCall
  update_case delete_case : String → String → EvalsCall
  create_run : EvalsCall
  list_runs stats : List (String × String) → EvalsCall
  get_run traces : String → EvalsCall
  trends : ℕ → EvalsCall
  comparison : EvalsCall

-- `if (v) query.append(k, v)`.
abbrev appended : String → String → List (String × String) → List (String × String)
appended k v rest = if v == "" then rest else (k, v) ∷ rest

-- `qs ? "?" + qs : ""`.
abbrev with_query : Host → List (String × String) → String
with_query host params = if host.query_text params == "" then "" else "?" ++ host.query_text params

unfoldable pub evals_endpoint : Host → String → EvalsCall → Endpoint
evals_endpoint host hub (list_suites kind target q) = read_at (
    in_hub hub (
      "/eval/suites"
      ++ with_query host
          (appended "target_type" kind (appended "target_id" target (appended "q" q [])))))
evals_endpoint host hub create_suite = send_at post (in_hub hub "/eval/suites")
evals_endpoint host hub (get_suite id) = read_at (in_hub hub ("/eval/suites/" ++ id))
evals_endpoint host hub (update_suite id) = send_at put (in_hub hub ("/eval/suites/" ++ id))
evals_endpoint host hub (delete_suite id) = bare delete (in_hub hub ("/eval/suites/" ++ id))
evals_endpoint host hub (clone_suite id) =
    bare post (in_hub hub ("/eval/suites/" ++ (id ++ "/clone")))
evals_endpoint host hub (list_cases id) = read_at (in_hub hub ("/eval/suites/" ++ (id ++ "/cases")))
evals_endpoint host hub (add_case id) =
    send_at post (in_hub hub ("/eval/suites/" ++ (id ++ "/cases")))
evals_endpoint host hub (update_case id c) =
    send_at put (in_hub hub ("/eval/suites/" ++ (id ++ ("/cases/" ++ c))))
evals_endpoint host hub (delete_case id c) =
    bare delete (in_hub hub ("/eval/suites/" ++ (id ++ ("/cases/" ++ c))))
evals_endpoint host hub create_run = send_at post (in_hub hub "/eval/runs")
evals_endpoint host hub (list_runs params) =
    read_at (in_hub hub ("/eval/runs" ++ with_query host params))
evals_endpoint host hub (get_run id) = read_at (in_hub hub ("/eval/runs/" ++ id))
evals_endpoint host hub (traces id) = read_at (in_hub hub ("/eval/runs/" ++ (id ++ "/traces")))
evals_endpoint host hub (stats params) =
    read_at (in_hub hub ("/eval/dashboard/stats" ++ with_query host params))
evals_endpoint host hub (trends days) =
    read_at (in_hub hub ("/eval/dashboard/trends?days=" ++ host.show_number days))
evals_endpoint host hub comparison = read_at (in_hub hub "/eval/dashboard/comparison")

-- `api.dbCredentials`, without the calls under `/api/mcp`.
pub data CredentialsCall : Type 0 where
  list_credentials create_credential : CredentialsCall
  get_credential update_credential remove_credential test_credential : String → CredentialsCall

unfoldable pub credentials_endpoint : String → CredentialsCall → Endpoint
credentials_endpoint hub list_credentials = read_at (in_hub hub "/db-credentials")
credentials_endpoint hub create_credential = send_at post (in_hub hub "/db-credentials")
credentials_endpoint hub (get_credential id) = read_at (in_hub hub ("/db-credentials/" ++ id))
credentials_endpoint hub (update_credential id) =
    send_at put (in_hub hub ("/db-credentials/" ++ id))
credentials_endpoint hub (remove_credential id) =
    bare delete (in_hub hub ("/db-credentials/" ++ id))
credentials_endpoint hub (test_credential id) =
    bare post (in_hub hub ("/db-credentials/" ++ (id ++ "/test")))

-- The calls inside a hub, by their namespace.
pub data HubCall : Type 0 where
  of_hubs : HubsCall → HubCall
  of_ingestion : IngestionCall → HubCall
  of_agents : AgentsCall → HubCall
  of_workflows : WorkflowsCall → HubCall
  of_evals : EvalsCall → HubCall
  of_credentials : CredentialsCall → HubCall

unfoldable pub hub_endpoint : Host → String → HubCall → Endpoint
unfolding hubs_endpoint ingestion_endpoint agents_endpoint workflows_endpoint evals_endpoint
    credentials_endpoint
hub_endpoint host hub (of_hubs c) = hubs_endpoint hub c
hub_endpoint host hub (of_ingestion c) = ingestion_endpoint host hub c
hub_endpoint host hub (of_agents c) = agents_endpoint hub c
hub_endpoint host hub (of_workflows c) = workflows_endpoint hub c
hub_endpoint host hub (of_evals c) = evals_endpoint host hub c
hub_endpoint host hub (of_credentials c) = credentials_endpoint hub c
