-- ===== src/Workflow/Editor/Dag.antt =====
-- The cycles in the graph of WorkflowEditor.tsx, over the actions of the user.
use cont_ained.Base.{
  ℕ, suc, String, ◌≡◌, ◌⊎◌, inl, inr, Bool, true, false, Option, none, some, List, [], ◌∷◌, ◌++◌,
  filter, find, any, arith, Bool-cases, Option-cases,
}
use cont_ained.Workflow.Graph.{WorkflowEdge, Snapshot}
use cont_ained.Workflow.Canvas.{ConnectingStart, handle_end_connection, creates_cycle}
use cont_ained.Workflow.Canvas.Reach.{Reach, IsAcyclic, creates_cycle-false}
use cont_ained.Workflow.Canvas.Rank.{Ranking, Ranking-concat, creates_cycle-decides}
use cont_ained.Workflow.Canvas.Acyclic.{IsAcyclic-concat, IsAcyclic-filter, Ranking-filter}
use cont_ained.Workflow.Editor.{
  Editor, has_id, same_route, add_edge, append_node, duplicate_node, delete_node, delete_edge,
  update_node_position, push_history, begin_save, finish_save,
}
use cont_ained.Workflow.Editor.Actions.{
  connect, Edit, appends, duplicates, deletes, connects, disconnects, apply_edit, Action, edits,
  moves, undoes, redoes, saves, save_ends, step, run,
}
use cont_ained.Workflow.Editor.Connect.{drawn, connect-cases}
use cont_ained.Workflow.Editor.Undo.{apply_edit-Effect}
use cont_ained.Workflow.Editor.Keeps.{Keeps, Effect-Keeps, undo-Keeps, redo-Keeps}

-- A property of edge lists that survives the removal of edges, and the addition of an edge whose
-- target does not lead to its source.
module _ (Q : List WorkflowEdge → Type 0)
    (on_filter : (p : WorkflowEdge → Bool) (es : List WorkflowEdge) → Q es → Q (filter p es))
    (on_concat : (es : List WorkflowEdge) (e : WorkflowEdge)
      → Q es
      → ¬ Reach es e.target e.source
      → Q (es ++ e ∷ [])) where
  abbrev EdgesHave : Snapshot → Type 0
  EdgesHave g = Q g.edges

  add_edge-have :
      (e : WorkflowEdge) (s : Editor)
      → ¬ Reach s.edges e.target e.source
      → Q s.edges
      → Q (add_edge e s).edges
  unfolding add_edge push_history
  add_edge-have e s open_ q = elim (Bool-cases (any (same_route e) s.edges)) [
    | inl old ↦ rw (old, add_edge) q
    | inr new ↦ rw (new, add_edge) (on_concat s.edges e q open_)
  ]

  connect-have :
      (fuel : ℕ) (start : Option ConnectingStart) (node_id port_id new_id : String) (s : Editor)
      → Q s.edges
      → Q (connect fuel start node_id port_id new_id s).edges
  connect-have fuel none node_id port_id new_id s q = unfold connect handle_end_connection in q
  connect-have fuel (some start) node_id port_id new_id s q =
      elim (connect-cases fuel start node_id port_id new_id s) [
        | inl same ↦ rw same q
        | inr (no_, new) ↦ rw new (
            add_edge-have (drawn fuel start node_id port_id new_id s) s
              (creates_cycle-false fuel s.edges start.node_id node_id no_) q)
      ]

  duplicate_node-have :
      (new_id id : String) (s : Editor) → Q s.edges → Q (duplicate_node new_id id s).edges
  unfolding duplicate_node append_node push_history
  duplicate_node-have new_id id s q = elim (Option-cases (find (has_id id) s.nodes)) [
    | inl missing ↦ rw (missing, duplicate_node) q
    | inr (n, found) ↦ rw (found, duplicate_node) q
  ]

  apply_edit-have : (e : Edit) (s : Editor) → Q s.edges → Q (apply_edit e s).edges
  unfolding apply_edit append_node delete_node delete_edge push_history
  apply_edit-have (appends n) s q = q
  apply_edit-have (duplicates new_id id) s q = duplicate_node-have new_id id s q
  apply_edit-have (deletes id) s q = on_filter _ s.edges q
  apply_edit-have (connects fuel start node_id port_id new_id) s q =
      connect-have fuel start node_id port_id new_id s q
  apply_edit-have (disconnects id) s q = on_filter _ s.edges q

  step-have : (a : Action) (s : Editor) → Keeps EdgesHave s → Keeps EdgesHave (step a s)
  unfolding step update_node_position begin_save finish_save
  step-have (edits e) s k =
      Effect-Keeps EdgesHave s (apply_edit e s) (apply_edit-Effect e s) (apply_edit-have e s k.now)
        k
  step-have (moves id p) s k = record { now = k.now; past = k.past }
  step-have undoes s k = undo-Keeps EdgesHave s k
  step-have redoes s k = redo-Keeps EdgesHave s k
  step-have saves s k = record { now = k.now; past = k.past }
  step-have (save_ends true) s k = record { now = k.now; past = k.past }
  step-have (save_ends false) s k = record { now = k.now; past = k.past }

  pub run-have : (as_ : List Action) (s : Editor) → Keeps EdgesHave s → Keeps EdgesHave (run as_ s)
  unfolding run
  run-have [] s k = k
  run-have (a ∷ as_) s k = run-have as_ (step a s) (step-have a s k)

abbrev pub AcyclicGraph : Snapshot → Type 0
AcyclicGraph g = IsAcyclic g.edges

-- From an editor whose canvas and history entries are acyclic, no sequence of actions closes a
-- cycle, on the canvas or in an entry of the history: drops of drafts, edits, drags, undo, redo
-- and saving, in any order.
pub run-AcyclicGraph :
    (as_ : List Action) (s : Editor) → Keeps AcyclicGraph s → Keeps AcyclicGraph (run as_ s)
run-AcyclicGraph = run-have IsAcyclic IsAcyclic-filter IsAcyclic-concat

abbrev pub RankedGraph : Snapshot → Type 0
RankedGraph g = Ranking g.edges

-- After any sequence of actions from a graph with a topological order, the search for a cycle comes
-- back for all nodes, with some fuel that does not depend on them, and says whether the target
-- leads to the source.
pub run-decides :
    (as_ : List Action) (s : Editor)
    → Keeps RankedGraph s
    → (fuel : ℕ) × ((src tgt : String)
        → ((creates_cycle fuel (run as_ s).edges src tgt ≡ some true)
            × Reach (run as_ s).edges tgt src)
          ⊎ ((creates_cycle fuel (run as_ s).edges src tgt ≡ some false)
              × ¬ Reach (run as_ s).edges tgt src))
run-decides as_ s k =
    let r : Ranking (run as_ s).edges =
      (run-have Ranking Ranking-filter (λ es e q. Ranking-concat q e) as_ s k).now in
    (suc r.bound, λ src tgt. creates_cycle-decides r (suc r.bound) src tgt (omega arith))
