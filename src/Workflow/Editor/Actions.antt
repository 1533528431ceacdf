-- ===== src/Workflow/Editor/Actions.antt =====
-- The actions of a user on the editor, and what WorkflowEditor.tsx does on each.
use cont_ained.Base.{ℕ, String, Bool, Option, List, [], ◌∷◌}
use cont_ained.Workflow.Position.{Position}
use cont_ained.Workflow.Graph.{WorkflowNodeData}
use cont_ained.Workflow.Canvas.{
  ConnectingStart, handle_end_connection, ignored, cyclic_alert, diverges,
}
use cont_ained.Workflow.Canvas
use cont_ained.Workflow.Editor.{
  Editor, undo, redo, delete_node, update_node_position, add_edge, delete_edge, append_node,
  duplicate_node, begin_save, finish_save,
}

-- `handleEndConnection` with `onAddEdge = handleAddEdge`: the drop of a draft on an input port.
unfoldable pub connect : ℕ → Option ConnectingStart → String → String → String → Editor → Editor
unfolding add_edge
connect fuel start target_node_id target_port_id new_id s =
    elim (handle_end_connection fuel s.edges start target_node_id target_port_id new_id) [
      | Canvas.Connection.add_edge e ↦ add_edge e s
      | _ ↦ s
    ]

-- The changes that enter the history.
pub data Edit : Type 0 where
  appends : WorkflowNodeData → Edit
  duplicates : String → String → Edit
  deletes : String → Edit
  connects : ℕ → Option ConnectingStart → String → String → String → Edit
  disconnects : String → Edit

unfoldable pub apply_edit : Edit → Editor → Editor
apply_edit (appends n) s = append_node n s
apply_edit (duplicates new_id node_id) s = duplicate_node new_id node_id s
apply_edit (deletes id) s = delete_node id s
apply_edit (connects fuel start node_id port_id new_id) s =
    connect fuel start node_id port_id new_id s
apply_edit (disconnects id) s = delete_edge id s

-- The actions: an edit, a drag of a node, undo, redo, and the two halves of saving the draft. The
-- fields of the property drawer, which write the label and the data of a node, and the binding of
-- resources in Workflow/Editor/Nodes are not among them.
pub data Action : Type 0 where
  edits : Edit → Action
  moves : String → Position → Action
  undoes redoes saves : Action
  save_ends : Bool → Action

unfoldable pub step : Action → Editor → Editor
step (edits e) s = apply_edit e s
step (moves id p) s = update_node_position id p s
step undoes s = undo s
step redoes s = redo s
step saves s = begin_save s
step (save_ends done) s = finish_save done s

unfoldable pub run : List Action → Editor → Editor
run [] s = s
run (a ∷ as_) s = run as_ (step a s)
