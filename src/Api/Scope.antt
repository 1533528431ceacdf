-- ===== src/Api/Scope.antt =====
-- frontend/src/services/api.ts: every call inside a hub stays inside it.
use cont_ained.Base.{String, List, [], ◌∷◌, refl, arith}
use cont_ained.Api.Endpoints.{
  Host, HubsCall, IngestionCall, AgentsCall, WorkflowsCall, EvalsCall, CredentialsCall, HubCall,
  of_hubs, of_ingestion, of_agents, of_workflows, of_evals, of_credentials, hubs_endpoint,
  ingestion_endpoint, agents_endpoint, workflows_endpoint, evals_endpoint, credentials_endpoint,
  hub_endpoint, add_case, archive, clone_suite, comparison, create_agent, create_collection,
  create_credential, create_datastore, create_link, create_run, create_suite, create_workflow,
  delete_agent, delete_case, delete_collection, delete_datastore, delete_document, delete_hub,
  delete_suite, delete_workflow, dependents, get_agent, get_chunks, get_collection, get_credential,
  get_draft, get_hub, get_job, get_run, get_suite, get_workflow, get_workflow_run, invite,
  invoke_agent, list_agents, list_cases, list_collections, list_credentials, list_datastores,
  list_documents, list_jobs, list_links, list_members, list_runs, list_suites, list_workflow_runs,
  list_workflows, remove_credential, remove_member, revoke_link, run_workflow, search_hub, stats,
  test_credential, test_datastore, traces, trends, unarchive, update_agent, update_case,
  update_credential, update_draft, update_hub, update_role, update_suite, update_workflow,
  validate_workflow,
}
use cont_ained.Api.Inside.{
  IsPart, LeadsInto, in_hub-LeadsInto, in_hub-item-LeadsInto, service-LeadsInto,
  service-item-LeadsInto,
}

-- The service that a call names.
abbrev pub services : HubCall → List String
services (of_hubs c) = []
services (of_ingestion c) = "ingestion" ∷ []
services (of_agents c) = "agents" ∷ []
services (of_workflows c) = "workflows" ∷ []
services (of_evals c) = "eval" ∷ []
services (of_credentials c) = "db-credentials" ∷ []

module _ (host : Host) (hub : String) (h : IsPart hub) where
  hubs-LeadsInto : (c : HubsCall) → LeadsInto hub [] (hubs_endpoint hub c).path
  unfolding hubs_endpoint
  hubs-LeadsInto get_hub = in_hub-LeadsInto hub "" h tt
  hubs-LeadsInto update_hub = in_hub-LeadsInto hub "" h tt
  hubs-LeadsInto archive = in_hub-LeadsInto hub "/archive" h refl
  hubs-LeadsInto unarchive = in_hub-LeadsInto hub "/unarchive" h refl
  hubs-LeadsInto delete_hub = in_hub-LeadsInto hub "?force=true" h refl
  hubs-LeadsInto list_members = in_hub-LeadsInto hub "/members" h refl
  hubs-LeadsInto invite = in_hub-LeadsInto hub "/members" h refl
  hubs-LeadsInto (update_role user) = in_hub-item-LeadsInto hub "/members/" user h refl
  hubs-LeadsInto (remove_member user) = in_hub-item-LeadsInto hub "/members/" user h refl
  hubs-LeadsInto list_links = in_hub-LeadsInto hub "/links" h refl
  hubs-LeadsInto create_link = in_hub-LeadsInto hub "/links" h refl
  hubs-LeadsInto dependents = in_hub-LeadsInto hub "/links?direction=incoming" h refl
  hubs-LeadsInto (revoke_link link) = in_hub-item-LeadsInto hub "/links/" link h refl

  ingestion-LeadsInto :
      (c : IngestionCall) → LeadsInto hub ("ingestion" ∷ []) (ingestion_endpoint host hub c).path
  unfolding ingestion_endpoint
  ingestion-LeadsInto list_collections =
      service-LeadsInto hub "ingestion" "/collections" h (ground arith) refl
  ingestion-LeadsInto create_collection =
      service-LeadsInto hub "ingestion" "/collections" h (ground arith) refl
  ingestion-LeadsInto (get_collection id) =
      service-item-LeadsInto hub "ingestion" "/collections/" _ h (ground arith) refl
  ingestion-LeadsInto (delete_collection id force) =
      service-item-LeadsInto hub "ingestion" "/collections/" _ h (ground arith) refl
  ingestion-LeadsInto list_datastores =
      service-LeadsInto hub "ingestion" "/datastores" h (ground arith) refl
  ingestion-LeadsInto create_datastore =
      service-LeadsInto hub "ingestion" "/datastores" h (ground arith) refl
  ingestion-LeadsInto (test_datastore id) =
      service-item-LeadsInto hub "ingestion" "/datastores/" _ h (ground arith) refl
  ingestion-LeadsInto (delete_datastore id) =
      service-item-LeadsInto hub "ingestion" "/datastores/" _ h (ground arith) refl
  ingestion-LeadsInto (list_documents limit offset) =
      service-item-LeadsInto hub "ingestion" "/documents" _ h (ground arith) refl
  ingestion-LeadsInto (get_chunks doc limit offset) =
      service-item-LeadsInto hub "ingestion" "/documents/" _ h (ground arith) refl
  ingestion-LeadsInto (delete_document doc) =
      service-item-LeadsInto hub "ingestion" "/documents/" _ h (ground arith) refl
  ingestion-LeadsInto (list_jobs status limit offset) =
      service-item-LeadsInto hub "ingestion" "/jobs" _ h (ground arith) refl
  ingestion-LeadsInto (get_job id) =
      service-item-LeadsInto hub "ingestion" "/jobs/" _ h (ground arith) refl
  ingestion-LeadsInto search_hub = service-LeadsInto hub "ingestion" "/search" h (ground arith) refl

  agents-LeadsInto : (c : AgentsCall) → LeadsInto hub ("agents" ∷ []) (agents_endpoint hub c).path
  unfolding agents_endpoint
  agents-LeadsInto list_agents = service-LeadsInto hub "agents" "" h (ground arith) tt
  agents-LeadsInto create_agent = service-LeadsInto hub "agents" "" h (ground arith) tt
  agents-LeadsInto (get_agent id) = service-item-LeadsInto hub "agents" "/" _ h (ground arith) refl
  agents-LeadsInto (update_agent id) =
      service-item-LeadsInto hub "agents" "/" _ h (ground arith) refl
  agents-LeadsInto (delete_agent id) =
      service-item-LeadsInto hub "agents" "/" _ h (ground arith) refl
  agents-LeadsInto (invoke_agent id) =
      service-item-LeadsInto hub "agents" "/" _ h (ground arith) refl

  workflows-LeadsInto :
      (c : WorkflowsCall) → LeadsInto hub ("workflows" ∷ []) (workflows_endpoint hub c).path
  unfolding workflows_endpoint
  workflows-LeadsInto list_workflows = service-LeadsInto hub "workflows" "" h (ground arith) tt
  workflows-LeadsInto create_workflow = service-LeadsInto hub "workflows" "" h (ground arith) tt
  workflows-LeadsInto (get_workflow id) =
      service-item-LeadsInto hub "workflows" "/" _ h (ground arith) refl
  workflows-LeadsInto (update_workflow id) =
      service-item-LeadsInto hub "workflows" "/" _ h (ground arith) refl
  workflows-LeadsInto (get_draft id) =
      service-item-LeadsInto hub "workflows" "/" _ h (ground arith) refl
  workflows-LeadsInto (update_draft id) =
      service-item-LeadsInto hub "workflows" "/" _ h (ground arith) refl
  workflows-LeadsInto (delete_workflow id) =
      service-item-LeadsInto hub "workflows" "/" _ h (ground arith) refl
  workflows-LeadsInto (run_workflow id) =
      service-item-LeadsInto hub "workflows" "/" _ h (ground arith) refl
  workflows-LeadsInto (validate_workflow id) =
      service-item-LeadsInto hub "workflows" "/" _ h (ground arith) refl
  workflows-LeadsInto (list_workflow_runs id) =
      service-item-LeadsInto hub "workflows" "/" _ h (ground arith) refl
  workflows-LeadsInto (get_workflow_run id run) =
      service-item-LeadsInto hub "workflows" "/" _ h (ground arith) refl

  evals-LeadsInto : (c : EvalsCall) → LeadsInto hub ("eval" ∷ []) (evals_endpoint host hub c).path
  unfolding evals_endpoint
  evals-LeadsInto (list_suites kind target q) =
      service-item-LeadsInto hub "eval" "/suites" _ h (ground arith) refl
  evals-LeadsInto create_suite = service-LeadsInto hub "eval" "/suites" h (ground arith) refl
  evals-LeadsInto (get_suite id) =
      service-item-LeadsInto hub "eval" "/suites/" _ h (ground arith) refl
  evals-LeadsInto (update_suite id) =
      service-item-LeadsInto hub "eval" "/suites/" _ h (ground arith) refl
  evals-LeadsInto (delete_suite id) =
      service-item-LeadsInto hub "eval" "/suites/" _ h (ground arith) refl
  evals-LeadsInto (clone_suite id) =
      service-item-LeadsInto hub "eval" "/suites/" _ h (ground arith) refl
  evals-LeadsInto (list_cases id) =
      service-item-LeadsInto hub "eval" "/suites/" _ h (ground arith) refl
  evals-LeadsInto (add_case id) =
      service-item-LeadsInto hub "eval" "/suites/" _ h (ground arith) refl
  evals-LeadsInto (update_case id c) =
      service-item-LeadsInto hub "eval" "/suites/" _ h (ground arith) refl
  evals-LeadsInto (delete_case id c) =
      service-item-LeadsInto hub "eval" "/suites/" _ h (ground arith) refl
  evals-LeadsInto create_run = service-LeadsInto hub "eval" "/runs" h (ground arith) refl
  evals-LeadsInto (list_runs params) =
      service-item-LeadsInto hub "eval" "/runs" _ h (ground arith) refl
  evals-LeadsInto (get_run id) = service-item-LeadsInto hub "eval" "/runs/" _ h (ground arith) refl
  evals-LeadsInto (traces id) = service-item-LeadsInto hub "eval" "/runs/" _ h (ground arith) refl
  evals-LeadsInto (stats params) =
      service-item-LeadsInto hub "eval" "/dashboard/stats" _ h (ground arith) refl
  evals-LeadsInto (trends days) =
      service-item-LeadsInto hub "eval" "/dashboard/trends?days=" _ h (ground arith) refl
  evals-LeadsInto comparison =
      service-LeadsInto hub "eval" "/dashboard/comparison" h (ground arith) refl

  credentials-LeadsInto :
      (c : CredentialsCall)
      → LeadsInto hub ("db-credentials" ∷ []) (credentials_endpoint hub c).path
  unfolding credentials_endpoint
  credentials-LeadsInto list_credentials =
      service-LeadsInto hub "db-credentials" "" h (ground arith) tt
  credentials-LeadsInto create_credential =
      service-LeadsInto hub "db-credentials" "" h (ground arith) tt
  credentials-LeadsInto (get_credential id) =
      service-item-LeadsInto hub "db-credentials" "/" _ h (ground arith) refl
  credentials-LeadsInto (update_credential id) =
      service-item-LeadsInto hub "db-credentials" "/" _ h (ground arith) refl
  credentials-LeadsInto (remove_credential id) =
      service-item-LeadsInto hub "db-credentials" "/" _ h (ground arith) refl
  credentials-LeadsInto (test_credential id) =
      service-item-LeadsInto hub "db-credentials" "/" _ h (ground arith) refl

  -- If the hub's id has no slash and no question mark, then every call inside the hub asks for a
  -- path whose parts, up to its query, are "api", "hubs", that id, and then the name of the service
  -- that the call belongs to, if it belongs to one.
  pub hub_endpoint-LeadsInto :
      (c : HubCall) → LeadsInto hub (services c) (hub_endpoint host hub c).path
  unfolding hub_endpoint
  hub_endpoint-LeadsInto (of_hubs c) = hubs-LeadsInto c
  hub_endpoint-LeadsInto (of_ingestion c) = ingestion-LeadsInto c
  hub_endpoint-LeadsInto (of_agents c) = agents-LeadsInto c
  hub_endpoint-LeadsInto (of_workflows c) = workflows-LeadsInto c
  hub_endpoint-LeadsInto (of_evals c) = evals-LeadsInto c
  hub_endpoint-LeadsInto (of_credentials c) = credentials-LeadsInto c
