-- ===== src/Store/Panel.antt =====
-- frontend/src/store/workflowSlice.ts: the selected node and its drawer.
use cont_ained.Base.{String, Bool, false, Option, none, is_some}

-- The fields of `WorkflowSlice` that hold state.
pub record PanelState : Type 0 where
  pub selected_node_id : Option String
  pub drawer_open : Bool

abbrev pub initial_panel : PanelState
initial_panel = record { selected_node_id = none; drawer_open = false }

-- `setSelectedNodeId`.
unfoldable pub set_selected_node_id : Option String → PanelState → PanelState
set_selected_node_id selected s = record {
  selected_node_id = selected;
  drawer_open = is_some selected;
}

-- `setDrawerOpen`.
unfoldable pub set_drawer_open : Bool → PanelState → PanelState
set_drawer_open opened s = record s { drawer_open = opened }
