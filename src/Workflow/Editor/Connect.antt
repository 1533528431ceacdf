-- ===== src/Workflow/Editor/Connect.antt =====
-- The drop of a draft on an input port, `handleEndConnection` followed by `handleAddEdge`.
use cont_ained.Base.{ℕ, String, ◌≡◌, ◌⊎◌, inl, inr, false, some, ◌==◌, Bool-cases, verdict_cases}
use cont_ained.Workflow.Graph.{WorkflowEdge}
use cont_ained.Workflow.Canvas.{ConnectingStart, creates_cycle, handle_end_connection}
use cont_ained.Workflow.Editor.{Editor, add_edge}
use cont_ained.Workflow.Editor.Actions.{connect}

module _ (fuel : ℕ) (start : ConnectingStart) (node_id port_id new_id : String) (s : Editor) where
  abbrev pub drawn : WorkflowEdge
  drawn = record {
    id = new_id;
    source = start.node_id;
    source_handle = start.port_id;
    target = node_id;
    target_handle = port_id;
  }

  -- The drop changes nothing, or adds the edge that was drawn, and then the search has said no.
  pub connect-cases :
      (connect fuel (some start) node_id port_id new_id s ≡ s)
      ⊎ ((creates_cycle fuel s.edges start.node_id node_id ≡ some false)
          × (connect fuel (some start) node_id port_id new_id s ≡ add_edge drawn s))
  unfolding connect handle_end_connection
  connect-cases = elim (Bool-cases (start.node_id == node_id)) [
    | inl same ↦ inl (rw (same, connect))
    | inr other ↦ elim (verdict_cases (creates_cycle fuel s.edges start.node_id node_id)) [
      | inl yes_ ↦ inl (rw (other, yes_, connect))
      | inr (inl no_) ↦ inr (no_, rw (other, no_, connect))
      | inr (inr out) ↦ inl (rw (other, out, connect))
    ]
  ]
