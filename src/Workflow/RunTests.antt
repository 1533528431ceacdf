-- ===== src/Workflow/RunTests.antt =====
-- Drafts, linked resources and runs of the workflow editor on small inputs.
use cont_ained.Base.{String, true, false, none, some, [], ◌∷◌, ◌≡◌, refl, any, ◌==◌, if◌then◌else◌}
use cont_ained.Workflow.Graph.{Snapshot}
use cont_ained.Workflow.Draft.{
  Json, DraftPage, StoredGraph, initial_page, loaded, load_failed, load, finish_load, open_workflow,
  empty_graph,
}
use cont_ained.Workflow.Draft.Shadow.{IsRead, load_failed-load, finish_load-open_workflow}
use cont_ained.Workflow.Linked.{
  Items, fails_of, Listing, Resources, array, failed, array_of, gather, dedup, fetch_resources,
  LinkedResources, of_agents, fetch_linked, hub_ids,
}
use cont_ained.Workflow.Linked.Merge.{has_id, IsFetched, fetch_linked_lem, resources_of, taken_of}
use cont_ained.Workflow.Run.{
  Values, RunModal, opens, runs, closes, named, run_step, run_all, handle_event,
}
use cont_ained.Workflow.Run.Ends.{IsServed, run_step-IsServed}
use cont_ained.Workflow.Run.Closed.{IsStuck, closes_for_good}

-- A graph with one edge, and a codec that knows the empty graph and this one.
abbrev one_edge : Snapshot
one_edge = record {
  nodes = [];
  edges =
      record { id = "e1"; source = "a"; source_handle = "out"; target = "b"; target_handle = "in" }
      ∷ [];
}

abbrev small_json : Json
small_json = record {
  stringify = λ g. elim g.edges [ [] ↦ "{}" | e ∷ edges ↦ "{1}" ];
  parse = λ text.
      if text == "{1}"
      then some (record { nodes = some one_edge.nodes; edges = some one_edge.edges })
      else some (record { nodes = some []; edges = some [] });
}

one_edge-IsRead : IsRead small_json one_edge
one_edge-IsRead = record { read_back = refl; written = refl }

empty_graph-IsRead : IsRead small_json empty_graph
empty_graph-IsRead = record { read_back = refl; written = refl }

-- A page that shows the graph with one edge.
abbrev edited : DraftPage
edited = record (initial_page "w1" []) { graph = one_edge; loading = false }

abbrev server_draft : StoredGraph
server_draft = record { nodes = some []; edges = some one_edge.edges }

load_failed-load_test :
    (load small_json true none
      (loaded (some server_draft))
      (load small_json true none (load_failed "timeout") (initial_page "w1" []))).graph
    ≡ empty_graph
load_failed-load_test =
    load_failed-load small_json (initial_page "w1" []) true none (some server_draft) "timeout"
      empty_graph-IsRead refl

finish_load-open_workflow_test :
    let after : DraftPage =
      finish_load small_json none (loaded none) (open_workflow small_json true "w2" edited) in
    (after.workflow_id ≡ "w2") × (after.graph ≡ one_edge)
finish_load-open_workflow_test =
    finish_load-open_workflow small_json edited "w2" none none one_edge-IsRead refl

-- The ids of agents stand for them; one hub fails, and one agent is listed twice.
abbrev listing : String → Listing String
listing hub = if hub == "h1" then failed else array ("a1" ∷ "a2" ∷ "a1" ∷ [])

abbrev no_agents : Resources String
no_agents = record { items = []; loading = true; error = none }

abbrev texts_only : Items String
texts_only = record { id_of = λ s. s; is_null = λ s. s == "null"; thrown = "" }

fetch_test :
    (fetch_resources array_of
      (fails_of of_agents)
      texts_only
      listing
      ("h1" ∷ "h2" ∷ [])
      no_agents).items
    ≡ "a1" ∷ "a2" ∷ []
unfolding fetch_resources dedup gather array_of
fetch_test = refl

abbrev nothing : LinkedResources String
nothing = record {
  agents = no_agents;
  collections = no_agents;
  eval_suites = no_agents;
  credentials = no_agents;
}

fetch_linked_lem_example :
    IsFetched
      (λ s. s)
      (
        any (λ h. any (λ s. s == "null") (taken_of of_agents (listing h))) (hub_ids "h2" none),
        any (λ h. has_id (λ s. s) "a2" (taken_of of_agents (listing h))) (hub_ids "h2" none),
      )
      "a2"
      no_agents
      (resources_of of_agents (fetch_linked texts_only (λ k. listing) "h2" none none nothing))
fetch_linked_lem_example =
    fetch_linked_lem texts_only (λ k. listing) "h2" none nothing of_agents "a2"

-- Every text is its own value, and every run ends as it says.
abbrev texts : Values String
texts = record { parse = λ s. some s; status = λ s. some (some s); frame = λ s. none }

abbrev streaming_run : RunModal String
streaming_run = record {
  is_open = true;
  input_json = "{}";
  is_running = true;
  error = none;
  node_events = [];
  run_end_data = none;
  run_status = none;
  posting = false;
  streaming = true;
  asking = false;
  granting = false;
}

run_test : (run_step texts (named "run_end" "succeeded") streaming_run).is_running ≡ false
unfolding run_step handle_event
run_test = refl

run_step-IsServed_example : IsServed (run_step texts (named "node_start" "n1") streaming_run)
run_step-IsServed_example =
    run_step-IsServed texts (named "node_start" "n1") streaming_run refl refl (refl, (refl, refl))

closes_for_good_example :
    IsStuck (run_all texts (opens ∷ runs ∷ []) (run_step texts closes streaming_run))
closes_for_good_example =
    closes_for_good texts (opens ∷ runs ∷ []) streaming_run refl
      ((refl, refl), (refl, (refl, refl)))
