-- ===== src/Workflow/Canvas/Diverges.antt =====
-- The search for a cycle of WorkflowCanvas.tsx, which has no set of visited nodes, on a graph that
-- holds a cycle already.
use cont_ained.Base.{
  ℕ, zero, suc, String, ◌≡◌, sym, inl, inr, false, none, some, ◌≢◌, List, ◌==◌, Bool-cases,
  verdict_cases,
}
use mathlib.Core.Path.{subst}
use cont_ained.Workflow.Graph.{WorkflowEdge}
use cont_ained.Workflow.Canvas.{creates_cycle}
use cont_ained.Workflow.Canvas.Reach.{
  Leads, Reach, stay, walk, Cycle, branch-false, creates_cycle-true,
}

-- Some walk from the node runs into a cycle.
abbrev pub CycleAhead : List WorkflowEdge → String → Type 0
CycleAhead es x = (z : String) × Reach es x z × Cycle es z

CycleAhead-step :
    {es : List WorkflowEdge} {x z : String}
    → Reach es x z
    → Cycle es z
    → (y : String) × Leads es x y × CycleAhead es y
CycleAhead-step {es} (stay e) (y, l, w) =
    (y, subst (λ v. Leads es v y) (sym e) l, (_, w, (y, l, w)))
CycleAhead-step (walk {y} l w) c = (y, l, (_, w, c))

not-some-false :
    (fuel : ℕ) (es : List WorkflowEdge) (src tgt : String)
    → CycleAhead es tgt
    → creates_cycle fuel es src tgt ≢ some false
unfolding creates_cycle
not-some-false zero es src tgt c h = cc
not-some-false (suc fuel) es src tgt (z, w, c) h = elim (Bool-cases (src == tgt)) [
  | inl same ↦ cc (rw same at h)
  | inr other ↦
      let (y, l, ahead) = CycleAhead-step w c in
      not-some-false fuel es src y ahead
        (branch-false (λ t. creates_cycle fuel es src t) es tgt y (rw other at h) l)
]

-- Where a cycle lies ahead of the drop's target, and the source does not, no amount of fuel is
-- enough: the recursion of the source never ends.
pub creates_cycle-diverges :
    (fuel : ℕ) (es : List WorkflowEdge) (src tgt : String)
    → ¬ Reach es tgt src
    → CycleAhead es tgt
    → creates_cycle fuel es src tgt ≡ none
creates_cycle-diverges fuel es src tgt apart ahead =
    elim (verdict_cases (creates_cycle fuel es src tgt)) [
      | inl yes_ ↦ absurd (apart (creates_cycle-true fuel es src tgt yes_))
      | inr (inl no_) ↦ absurd (not-some-false fuel es src tgt ahead no_)
      | inr (inr out) ↦ out
    ]
