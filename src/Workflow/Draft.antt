-- ===== src/Workflow/Draft.antt =====
-- frontend/src/components/hubs/workflow/WorkflowEditor.tsx: the local draft of a graph, which graph a
-- load shows, and the effect that writes the draft. `JSON` and the answers of the gateway are
-- parameters; the storage is a dictionary of texts.
pub mod Shadow
use cont_ained.Base.{
  or_text, String, Bool, true, false, Option, none, some, List, [], ◌==◌, get_or, if◌then◌else◌,
}
use cont_ained.Base.Dict.{Dict, lookup, insert, remove}
use cont_ained.Workflow.Graph.{WorkflowNodeData, WorkflowEdge, Snapshot}

-- An object that may have `nodes` and `edges`; a `nodes` that is no array counts as missing.
pub record StoredGraph : Type 0 where
  pub nodes : Option (List WorkflowNodeData)
  pub edges : Option (List WorkflowEdge)

-- `JSON.stringify` on a graph, and `JSON.parse`, which fails on a text that is no object.
pub record Json : Type 0 where
  pub stringify : Snapshot → String
  pub parse : String → Option StoredGraph

pub data SaveStatus : Type 0 where
  saved dirty saving : SaveStatus

-- What the page keeps of a graph, and the storage of the browser.
pub record DraftPage : Type 0 where
  pub workflow_id : String
  pub graph : Snapshot
  pub loading : Bool
  pub error : Option String
  pub is_dirty : Bool
  pub save_status : SaveStatus
  pub storage : Dict String

abbrev pub empty_graph : Snapshot
empty_graph = record { nodes = []; edges = [] }

-- The page as it starts from a storage.
abbrev pub initial_page : String → Dict String → DraftPage
initial_page workflow_id storage = record {
  workflow_id = workflow_id;
  graph = empty_graph;
  loading = true;
  error = none;
  is_dirty = false;
  save_status = saved;
  storage = storage;
}

-- `draftKey`.
unfoldable pub draft_key : String → String
draft_key workflow_id = Prim.Native.String.◌++◌ "contained_workflow_draft_" workflow_id

-- The graph of an object with nodes; the other one if it has none.
unfoldable pub graph_or : Option StoredGraph → Snapshot → Snapshot
graph_or none other = other
graph_or (some g) other = elim g.nodes [
  | none ↦ other
  | some nodes ↦ record { nodes = nodes; edges = get_or g.edges [] }
]

-- The graph that a load shows: the local draft, or else the starter, or else the draft of the
-- gateway. A local draft that cannot be read shows an empty graph.
unfoldable pub resolve_graph :
    Json → Option String → Option StoredGraph → Option StoredGraph → Snapshot
unfolding graph_or
resolve_graph json none starter draft = graph_or starter (graph_or draft empty_graph)
resolve_graph json (some text) starter draft =
    if text == ""
    then graph_or starter (graph_or draft empty_graph)
    else graph_or (json.parse text) empty_graph

-- `fetchWorkflowAndHubResources` up to its request.
unfoldable pub start_load : DraftPage → DraftPage
start_load p = record p { loading = true; error = none }

-- What the gateway answers: the draft of the workflow, if it has one, or an error.
pub data LoadReply : Type 0 where
  loaded : Option StoredGraph → LoadReply
  load_failed : String → LoadReply

-- The rest of `fetchWorkflowAndHubResources`; a failed fetch of the linked resources does not
-- come back here.
unfoldable pub finish_load : Json → Option StoredGraph → LoadReply → DraftPage → DraftPage
finish_load json starter (loaded draft) p = record p {
  graph = resolve_graph json (lookup (draft_key p.workflow_id) p.storage) starter draft;
  is_dirty = false;
  save_status = saved;
  loading = false;
}
finish_load json starter (load_failed message) p = record p {
  error = some (or_text message "Failed to load workflow canvas details");
  loading = false;
}

-- The effect that writes the draft; the flag says that the storage takes it.
unfoldable pub persist : Json → Bool → DraftPage → DraftPage
persist json stores p =
    if p.loading
    then p
    else if stores
    then record p { storage = insert (draft_key p.workflow_id) (json.stringify p.graph) p.storage }
    else p

-- A load from its start to the effect that follows it.
unfoldable pub load : Json → Bool → Option StoredGraph → LoadReply → DraftPage → DraftPage
unfolding persist
load json stores starter reply p =
    persist json stores (finish_load json starter reply (start_load p))

-- `handleSaveDraft` up to its request, and the rest: the gateway took the draft or not, and the
-- first flag says that the storage gives up its own.
unfoldable pub begin_save_draft : DraftPage → DraftPage
begin_save_draft p = record p { save_status = saving }

unfoldable pub finish_save_draft : Bool → Bool → DraftPage → DraftPage
finish_save_draft removes true p = record p {
  storage = if removes then remove (draft_key p.workflow_id) p.storage else p.storage;
  is_dirty = false;
  save_status = saved;
}
finish_save_draft removes false p = record p { save_status = dirty }

-- A save from its start to its end.
abbrev pub save_draft : Bool → Bool → DraftPage → DraftPage
save_draft removes taken p = finish_save_draft removes taken (begin_save_draft p)

-- Another workflow is opened in the page that shows one: the effects run in the order of the source,
-- and the one that writes the draft does not yet see that the page loads.
unfoldable pub open_workflow : Json → Bool → String → DraftPage → DraftPage
unfolding persist
open_workflow json stores id p = start_load (persist json stores (record p { workflow_id = id }))
