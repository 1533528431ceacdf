-- ===== src/Workflow/Editor.antt =====
-- WorkflowEditor.tsx: the state of the editor and the handlers that change its graph. A `setState`
-- call is a field of the new record. `historyIndexRef`, which starts at -1, is kept one higher, as
-- `cursor`: the number of snapshots up to the current one.
pub mod History
pub mod Actions
pub mod Connect
pub mod Undo
pub mod Keeps
pub mod Dag
pub mod Slots
pub mod Nodes
pub mod Integrity
use Prim.Native.String.{◌++◌ as join}
use cont_ained.Base.{
  ℕ, zero, suc, ◌+◌, ◌-◌, ◌*◌, String, Bool, true, false, ◌&&◌, ◌||◌, not, Option, none, some, List,
  [], ◌∷◌, ◌++◌, map, ◌==◌, ltb, leb, eqb, if◌then◌else◌, length, take, drop, get_elem?, filter,
  any, find,
}
use cont_ained.Base.Dict.{Dict, lookup, insert}
use cont_ained.Workflow.Position.{ℤ, pos, abs_diff, shift, Position}
use cont_ained.Workflow.Ports.{get_default_ports_for_type}
use cont_ained.Workflow.Graph.{WorkflowEdge, WorkflowNodeData, Snapshot}

pub data SaveStatus : Type 0 where
  saved dirty saving : SaveStatus

pub record Editor : Type 0 where
  pub nodes : List WorkflowNodeData
  pub edges : List WorkflowEdge
  pub selected_node_id : Option String
  pub is_dirty : Bool
  pub save_status : SaveStatus
  pub is_saving : Bool
  pub history : List Snapshot
  pub cursor : ℕ

-- `HISTORY_CAP`.
abbrev pub history_cap : ℕ
history_cap = 50

-- `setNodes`, `setEdges`, `setIsDirty(true)` and `setSaveStatus("dirty")`.
abbrev pub with_graph : Editor → List WorkflowNodeData → List WorkflowEdge → Editor
with_graph s nodes edges = record s {
  nodes = nodes;
  edges = edges;
  is_dirty = true;
  save_status = dirty;
}

-- The list that `pushHistory` makes: it drops the redo branch ahead of the cursor, appends, and
-- shifts the oldest entry out past the cap.
unfoldable pub push_capped : ℕ → List Snapshot → Snapshot → List Snapshot
push_capped cursor history snapshot =
    let trimmed : List Snapshot = take cursor history ++ snapshot ∷ [] in
    if ltb history_cap (length trimmed) then drop 1 trimmed else trimmed

-- `pushHistory`.
unfoldable pub push_history : List WorkflowNodeData → List WorkflowEdge → Editor → Editor
push_history next_nodes next_edges s =
    let trimmed : List Snapshot =
      push_capped s.cursor s.history (record { nodes = next_nodes; edges = next_edges }) in
    record s { history = trimmed; cursor = length trimmed }

-- `if (snapshot) { ... }` of `undo` and `redo`.
abbrev restore : Option Snapshot → Editor → Editor
restore none s = s
restore (some snapshot) s = with_graph s snapshot.nodes snapshot.edges

-- `undo`.
unfoldable pub undo : Editor → Editor
undo s =
    if leb s.cursor 1
    then s
    else restore (get_elem? s.history (s.cursor - 2)) (record s { cursor = s.cursor - 1 })

-- `redo`.
unfoldable pub redo : Editor → Editor
redo s =
    if leb (length s.history) s.cursor
    then s
    else restore (get_elem? s.history s.cursor) (record s { cursor = s.cursor + 1 })

abbrev pub has_id : String → WorkflowNodeData → Bool
has_id id n = n.id == id

-- `selectedNodeId === nodeId`.
abbrev pub selects : Option String → String → Bool
selects none id = false
selects (some k) id = k == id

-- `handleDeleteNode`.
unfoldable pub delete_node : String → Editor → Editor
unfolding push_history
delete_node node_id s =
    let next_nodes : List WorkflowNodeData = filter (λ n. not (n.id == node_id)) s.nodes in
    let next_edges : List WorkflowEdge =
      filter (λ e. not (e.source == node_id) && not (e.target == node_id)) s.edges in
    let t : Editor = with_graph s next_nodes next_edges in
    push_history next_nodes next_edges (record t {
      selected_node_id = if selects s.selected_node_id node_id then none else s.selected_node_id;
    })

-- `handleUpdateNodePosition`; it leaves the history alone.
unfoldable pub update_node_position : String → Position → Editor → Editor
update_node_position node_id p s =
    with_graph s (map (λ n. if n.id == node_id then record n { position = p } else n) s.nodes)
      s.edges

-- The test of `handleAddEdge` for an edge that is there already.
abbrev pub same_route : WorkflowEdge → WorkflowEdge → Bool
same_route new_edge e =
    e.source == new_edge.source
    && e.target == new_edge.target
    && e.source_handle == new_edge.source_handle

-- `handleAddEdge`.
unfoldable pub add_edge : WorkflowEdge → Editor → Editor
unfolding push_history
add_edge new_edge s =
    if any (same_route new_edge) s.edges
    then s
    else let next_edges : List WorkflowEdge = s.edges ++ new_edge ∷ [] in
      push_history s.nodes next_edges (with_graph s s.nodes next_edges)

-- `handleDeleteEdge`.
unfoldable pub delete_edge : String → Editor → Editor
unfolding push_history
delete_edge edge_id s =
    let next_edges : List WorkflowEdge = filter (λ e. not (e.id == edge_id)) s.edges in
    push_history s.nodes next_edges (with_graph s s.nodes next_edges)

-- The grid of `handleAddNode`: `CARD_W`, `CARD_H`, and the slot of a column and a row.
abbrev pub card_w : ℕ
card_w = 280

abbrev pub card_h : ℕ
card_h = 170

abbrev pub slot : ℕ → ℕ → Position
slot col row = record { x = pos (80 + col * card_w); y = pos (80 + row * card_h) }

-- `occupied.some(...)` for a candidate.
unfoldable pub overlaps : List Position → Position → Bool
unfolding abs_diff
overlaps occupied candidate =
    any (λ p. ltb (abs_diff p.x candidate.x) card_w && ltb (abs_diff p.y candidate.y) card_h)
      occupied

-- The `while` loop of `handleAddNode`. Each round moves to the next slot, so 61 rounds see the loop
-- end by its own test; the position that it starts from is `slot 0 0`.
unfoldable pub slot_loop : ℕ → ℕ → ℕ → List Position → Position
slot_loop zero col row occupied = slot 0 0
slot_loop (suc fuel) col row occupied =
    let next_col : ℕ = if leb 3 (col + 1) then 0 else col + 1 in
    let next_row : ℕ = if leb 3 (col + 1) then row + 1 else row in
    let rest : Position = slot_loop fuel next_col next_row occupied in
    if ltb row 20 then if overlaps occupied (slot col row) then rest else slot col row else slot 0 0

unfoldable pub free_slot : List Position → Position
unfolding slot_loop
free_slot occupied = slot_loop 61 0 0 occupied

-- A new node at the end of the list, selected: the tail of `handleAddNode` and of Ctrl+D.
unfoldable pub append_node : WorkflowNodeData → Editor → Editor
unfolding push_history
append_node n s =
    let next_nodes : List WorkflowNodeData = s.nodes ++ n ∷ [] in
    let t : Editor = with_graph s next_nodes s.edges in
    push_history next_nodes s.edges (record t { selected_node_id = some n.id })

-- Ctrl+D: the node under the selection, 30 pixels further right and down.
unfoldable pub duplicate_node : String → String → Editor → Editor
unfolding append_node shift
duplicate_node new_id node_id s = elim (find (has_id node_id) s.nodes) [
  | none ↦ s
  | some n ↦
      append_node
        (record n {
          id = new_id;
          label = join n.label " (Copy)";
          position = record { x = shift n.position.x 30; y = shift n.position.y 30 };
        })
        s
]

-- `handleSaveDraft` up to the request, and after it: `true` when the request succeeded.
unfoldable pub begin_save : Editor → Editor
begin_save s = record s { is_saving = true; save_status = saving }

-- The rest of it; the local draft, which a success removes, is in Workflow/Draft.
unfoldable pub finish_save : Bool → Editor → Editor
finish_save true s = record s { is_dirty = false; save_status = saved; is_saving = false }
finish_save false s = record s { save_status = dirty; is_saving = false }
