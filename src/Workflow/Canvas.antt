-- ===== src/Workflow/Canvas.antt =====
-- WorkflowCanvas.tsx: drafting a connection between two nodes, with the search for a cycle that it
-- would close. The search of the source is a plain recursion with no bound; here it takes fuel, and
-- `none` means that the fuel ran out.
pub mod Reach
pub mod Rank
pub mod Acyclic
pub mod Diverges
use cont_ained.Base.{
  ℕ, zero, suc, String, Bool, true, false, Option, none, some, List, [], ◌∷◌, ◌==◌, filter, not,
  if◌then◌else◌,
}
use cont_ained.Workflow.Graph.{WorkflowEdge}

-- The `for` loop of `createsCycle` over the outgoing edges, with the recursive call as `visit`.
pub any_branch : (String → Option Bool) → List WorkflowEdge → Option Bool
any_branch visit [] = some false
any_branch visit (edge ∷ outgoing) = elim (visit edge.target) [
  | none ↦ none
  | some true ↦ some true
  | some false ↦ any_branch visit outgoing
]

-- `createsCycle`: does `tgt` lead to `src`?
unfoldable pub creates_cycle : ℕ → List WorkflowEdge → String → String → Option Bool
unfolding any_branch
creates_cycle zero edges src tgt = none
creates_cycle (suc fuel) edges src tgt =
    if src == tgt
    then some true
    else any_branch (λ t. creates_cycle fuel edges src t) (filter (λ e. e.source == tgt) edges)

-- `connectingStart`.
pub record ConnectingStart : Type 0 where
  pub node_id : String
  pub port_id : String

-- What `handleEndConnection` does: nothing, the alert, or a call of `onAddEdge`; and the search
-- that does not come back.
pub data Connection : Type 0 where
  ignored : Connection
  cyclic_alert : Connection
  add_edge : WorkflowEdge → Connection
  diverges : Connection

-- `handleEndConnection`; `new_id` is the text `edge_${Date.now()}`. The draft is cleared whatever
-- happens, so the result holds no draft.
unfoldable pub handle_end_connection :
    ℕ → List WorkflowEdge → Option ConnectingStart → String → String → String → Connection
unfolding creates_cycle
handle_end_connection fuel edges none target_node_id target_port_id new_id = ignored
handle_end_connection fuel edges (some start) target_node_id target_port_id new_id =
    if start.node_id == target_node_id
    then ignored
    else elim (creates_cycle fuel edges start.node_id target_node_id) [
      | none ↦ diverges
      | some true ↦ cyclic_alert
      | some false ↦ add_edge (record {
        id = new_id;
        source = start.node_id;
        source_handle = start.port_id;
        target = target_node_id;
        target_handle = target_port_id;
      })
    ]
