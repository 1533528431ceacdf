-- ===== src/Workflow/Editor/History.antt =====
-- Undo and redo of WorkflowEditor.tsx.
use cont_ained.Base.{
  ℕ, suc, ◌+◌, ◌-◌, ◌≤◌, ◌<◌, ◌≡◌, ap, ◌∙◌, ◌⊎◌, inl, inr, true, some, List, [], ◌∷◌, ◌++◌, arith,
  length, take, drop, get_elem?, length-append, length-take, length-drop, min,
}
use cont_ained.Base.Index.{
  get_elem?-take, get_elem?-append_left, get_elem?-concat, get_elem?-drop_one,
}
use cont_ained.Workflow.Graph.{WorkflowEdge, WorkflowNodeData, Snapshot}
use cont_ained.Workflow.Editor.{dirty, Editor, history_cap, push_capped, push_history, undo, redo}

abbrev pub graph : Editor → Snapshot
graph s = record { nodes = s.nodes; edges = s.edges }

-- The history holds at most 50 snapshots, and the cursor does not pass its end.
pub record IsBounded (s : Editor) : Type 0 where
  pub capped : length s.history ≤ history_cap
  pub within : s.cursor ≤ length s.history

-- What is on the canvas is the snapshot under the cursor.
pub record IsSynced (s : Editor) : Type 0 where
  pub bounded : IsBounded s
  pub started : 0 < s.cursor
  pub current : get_elem? s.history (s.cursor - 1) ≡ some (graph s)

module _ (c : ℕ) (h : List Snapshot) (x : Snapshot) (within : c ≤ length h) where
  length-trimmed : length (take c h ++ x ∷ []) ≡ suc c
  length-trimmed = omega (arith, within, length-append (take c h) (x ∷ []), length-take c h)

  trimmed-last : get_elem? (take c h ++ x ∷ []) c ≡ some x
  trimmed-last = get_elem?-concat (take c h) x c (omega (arith, within, length-take c h))

  trimmed-before : (i : ℕ) → i < c → get_elem? (take c h ++ x ∷ []) i ≡ get_elem? h i
  trimmed-before i lt_c =
      get_elem?-append_left (take c h) (x ∷ []) i (omega (arith, within, length-take c h))
      ∙ get_elem?-take h c i lt_c

  -- Below the cap the new snapshot follows the kept ones; at the cap the oldest one is gone.
  push_capped-cases :
      ((c < history_cap) × (push_capped c h x ≡ take c h ++ x ∷ []))
      ⊎ ((history_cap ≤ c) × (push_capped c h x ≡ drop 1 (take c h ++ x ∷ [])))
  unfolding push_capped
  push_capped-cases = ground (arith, length-trimmed)

  pub length-push_capped :
      length h ≤ history_cap → length (push_capped c h x) ≡ min (suc c) history_cap
  length-push_capped cap = elim push_capped-cases [
    | inl (lt_cap, e) ↦ rw e (omega (arith, length-trimmed))
    | inr (ge, e) ↦ rw e (omega (arith, length-trimmed, length-drop 1 (take c h ++ x ∷ [])))
  ]

  pub push_capped-last :
      length h ≤ history_cap
      → get_elem? (push_capped c h x) (length (push_capped c h x) - 1) ≡ some x
  push_capped-last cap = elim push_capped-cases [
    | inl (lt_cap, e) ↦
        rw e (ap (get_elem? (take c h ++ x ∷ [])) (omega (arith, length-trimmed)) ∙ trimmed-last)
    | inr (ge, e) ↦ rw e (
        get_elem?-drop_one (take c h ++ x ∷ []) _
        ∙ ap (get_elem? (take c h ++ x ∷ []))
            (omega (arith, length-trimmed, length-drop 1 (take c h ++ x ∷ [])))
        ∙ trimmed-last)
  ]

  pub push_capped-before :
      length h ≤ history_cap
      → 0 < c
      → get_elem? (push_capped c h x) (length (push_capped c h x) - 2) ≡ get_elem? h (c - 1)
  push_capped-before cap p = elim push_capped-cases [
    | inl (lt_cap, e) ↦ rw e (
        ap (get_elem? (take c h ++ x ∷ [])) (omega (arith, length-trimmed))
        ∙ trimmed-before (c - 1) (omega arith))
    | inr (ge, e) ↦ rw e (
        get_elem?-drop_one (take c h ++ x ∷ []) _
        ∙ ap (get_elem? (take c h ++ x ∷ []))
            (omega (arith, length-trimmed, length-drop 1 (take c h ++ x ∷ [])))
        ∙ trimmed-before (c - 1) (omega arith))
  ]

module _ (nodes : List WorkflowNodeData) (edges : List WorkflowEdge) (s : Editor)
    (b : IsBounded s) where
  pub push_history-IsBounded : IsBounded (push_history nodes edges s)
  unfolding push_history
  push_history-IsBounded = record {
    capped = omega (
      arith,
      length-push_capped s.cursor s.history (record { nodes = nodes; edges = edges }) b.within
          b.capped,
    );
    within = omega arith;
  }

abbrev pub at : Editor → Snapshot → ℕ → Editor
at s x c = record s {
  nodes = x.nodes;
  edges = x.edges;
  is_dirty = true;
  save_status = dirty;
  cursor = c;
}

undo-at :
    (s : Editor) (x : Snapshot)
    → 1 < s.cursor
    → get_elem? s.history (s.cursor - 2) ≡ some x
    → undo s ≡ at s x (s.cursor - 1)
unfolding undo
undo-at s x p e = rw e (ground arith)

redo-at :
    (s : Editor) (x : Snapshot)
    → s.cursor < length s.history
    → get_elem? s.history s.cursor ≡ some x
    → redo s ≡ at s x (s.cursor + 1)
unfolding redo
redo-at s x p e = rw e (ground arith)

-- A change pushed over a history whose current entry is `before`, whatever the canvas shows by then.
module _ (nodes : List WorkflowNodeData) (edges : List WorkflowEdge) (s : Editor)
    (before : Snapshot) (b : IsBounded s) (started : 0 < s.cursor)
    (current : get_elem? s.history (s.cursor - 1) ≡ some before) where
  abbrev after : Snapshot
  after = record { nodes = nodes; edges = edges }

  abbrev pushed : Editor
  pushed = push_history nodes edges s

  pub pushed_twice : 1 < pushed.cursor
  unfolding push_history
  pushed_twice =
      omega (arith, length-push_capped s.cursor s.history after b.within b.capped, started)

  pub undo-pushed : undo pushed ≡ at pushed before (pushed.cursor - 1)
  unfolding push_history
  undo-pushed =
      undo-at pushed before pushed_twice
        (push_capped-before s.cursor s.history after b.within b.capped started ∙ current)

  pub redo-undo-pushed : redo (undo pushed) ≡ at pushed after pushed.cursor
  unfolding push_history
  redo-undo-pushed =
      ap redo undo-pushed
      ∙ redo-at (at pushed before (pushed.cursor - 1)) after (omega (arith, pushed_twice))
          (push_capped-last s.cursor s.history after b.within b.capped)
      ∙ ap (at pushed after) (omega (arith, pushed_twice))

  pub pushed-current : get_elem? pushed.history (pushed.cursor - 1) ≡ some after
  unfolding push_history
  pushed-current = push_capped-last s.cursor s.history after b.within b.capped
