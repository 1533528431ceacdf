-- ===== src/Workflow/Draft/Shadow.antt =====
-- The local draft of WorkflowEditor.tsx in later loads. What is relied on of `JSON` is that a graph
-- that was written is read back, and that what is written is not empty.
use cont_ained.Base.{
  String, Bool, true, false, Option, some, ◌==◌, ◌≡◌, refl, ap, arith, ◌∙◌, eq_refl,
}
use cont_ained.Base.Dict.{lookup, lookup-insert}
use cont_ained.Workflow.Graph.{Snapshot}
use cont_ained.Workflow.Draft.{
  DraftPage, Json, StoredGraph, LoadReply, loaded, load_failed, empty_graph, draft_key, graph_or,
  resolve_graph, start_load, finish_load, persist, load, open_workflow,
}

-- The graph is read back.
pub record IsRead (json : Json) (g : Snapshot) : Type 0 where
  pub read_back :
      json.parse (json.stringify g) ≡ some (record { nodes = some g.nodes; edges = some g.edges })
  pub written : (json.stringify g == "") ≡ false

module _ (json : Json) where
  -- A graph that stands in the storage is the one that is shown.
  resolve_graph-stringify :
      (g : Snapshot) (stored : Option String) (starter draft : Option StoredGraph)
      → IsRead json g
      → stored ≡ some (json.stringify g)
      → resolve_graph json stored starter draft ≡ g
  unfolding resolve_graph graph_or
  resolve_graph-stringify g stored starter draft r e =
      rw (e, resolve_graph) (rw (r.written, r.read_back) refl)

  stored-draft :
      (p : DraftPage)
      → p.loading ≡ false
      → lookup (draft_key p.workflow_id) (persist json true p).storage
        ≡ some (json.stringify p.graph)
  unfolding persist
  stored-draft p h =
      rw (h, persist)
        (lookup-insert (draft_key p.workflow_id) (draft_key p.workflow_id) (json.stringify p.graph)
            p.storage
          ∙ rw (eq_refl (draft_key p.workflow_id)) refl)

  persist-id : (p : DraftPage) → (persist json true p).workflow_id ≡ p.workflow_id
  unfolding persist
  persist-id p = ground arith

  load-graph :
      (p : DraftPage) (stores : Bool) (starter : Option StoredGraph) (reply : LoadReply)
      → (load json stores starter reply p).graph
        ≡ (finish_load json starter reply (start_load p)).graph
  unfolding load persist
  load-graph p stores starter reply = ground arith

  shown-persist :
      (p : DraftPage) (starter draft : Option StoredGraph)
      → IsRead json p.graph
      → p.loading ≡ false
      → (finish_load json starter (loaded draft) (start_load (persist json true p))).graph ≡ p.graph
  unfolding finish_load start_load persist
  shown-persist p starter draft r h =
      resolve_graph-stringify p.graph
        (lookup (draft_key (persist json true p).workflow_id) (persist json true p).storage) starter
        draft r
        (ap (λ k. lookup (draft_key k) (persist json true p).storage) (persist-id p)
          ∙ stored-draft p h)

  -- The next load shows the draft.
  load-draft :
      (p : DraftPage) (stores : Bool) (starter draft : Option StoredGraph)
      → IsRead json p.graph
      → p.loading ≡ false
      → (load json stores starter (loaded draft) (persist json true p)).graph ≡ p.graph
  load-draft p stores starter draft r h =
      load-graph (persist json true p) stores starter (loaded draft)
      ∙ shown-persist p starter draft r h

  -- If the graph of the page is read back from its JSON and the storage takes the draft, then after a
  -- load of a page without nodes and edges that fails, the next load that succeeds shows no nodes and
  -- edges, whatever local draft stood in the storage and whatever draft the gateway has.
  pub load_failed-load :
      (p : DraftPage) (stores : Bool) (starter draft : Option StoredGraph) (message : String)
      → IsRead json p.graph
      → p.graph ≡ empty_graph
      → (load json stores starter
          (loaded draft)
          (load json true starter (load_failed message) p)).graph
        ≡ empty_graph
  unfolding load finish_load start_load
  load_failed-load p stores starter draft message r h =
      load-draft (finish_load json starter (load_failed message) (start_load p)) stores starter
        draft r refl
      ∙ h

  -- If the graph of the page is read back from its JSON and the storage takes the draft, then opening
  -- another workflow in the page that shows one, and does not load, shows the graph of the first
  -- workflow as that of the second, whatever draft the gateway has of it.
  pub finish_load-open_workflow :
      (p : DraftPage) (id : String) (starter draft : Option StoredGraph)
      → IsRead json p.graph
      → p.loading ≡ false
      → let after : DraftPage =
          finish_load json starter (loaded draft) (open_workflow json true id p) in
        (after.workflow_id ≡ id) × (after.graph ≡ p.graph)
  unfolding open_workflow finish_load start_load
  finish_load-open_workflow p id starter draft r h = (
    persist-id (record p { workflow_id = id }),
    shown-persist (record p { workflow_id = id }) starter draft r h,
  )
