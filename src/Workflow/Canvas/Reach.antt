-- ===== src/Workflow/Canvas/Reach.antt =====
-- What the search for a cycle decides: whether one node leads to another.
use cont_ained.Base.{
  ℕ, zero, suc, String, Bool, ◌||◌, true, false, Option, some, List, [], ◌∷◌, ◌==◌, filter, ◌≡◌,
  refl, sym, inl, inr, arith, eq_iff, Bool-cases, verdict_cases,
}
use cont_ained.Workflow.Graph.{WorkflowEdge}
use cont_ained.Workflow.Canvas.{any_branch, creates_cycle}

-- An edge of the list that leads from one node to the other.
pub data Leads : List WorkflowEdge → String → String → Type 0 where
  here :
      {e : WorkflowEdge} {es : List WorkflowEdge} {x y : String}
      → e.source ≡ x
      → e.target ≡ y
      → Leads (e ∷ es) x y
  there :
      {e : WorkflowEdge} {es : List WorkflowEdge} {x y : String} → Leads es x y → Leads (e ∷ es) x y

-- A walk along the edges, of any length.
pub data Reach (es : List WorkflowEdge) : String → String → Type 0 where
  stay : {x y : String} → x ≡ y → Reach es x y
  walk : {x y z : String} → Leads es x y → Reach es y z → Reach es x z

-- A walk of one edge at least.
abbrev pub Cycle : List WorkflowEdge → String → Type 0
Cycle es x = (y : String) × Leads es x y × Reach es y x

abbrev pub IsAcyclic : List WorkflowEdge → Type 0
IsAcyclic es = (x : String) → ¬ Cycle es x

abbrev pub from : String → WorkflowEdge → Bool
from x e = e.source == x

-- A search that says yes found an edge behind which the visit says yes.
branch-true :
    (visit : String → Option Bool) (es : List WorkflowEdge) (x : String)
    → any_branch visit (filter (from x) es) ≡ some true
    → (y : String) × Leads es x y × (visit y ≡ some true)
unfolding any_branch
branch-true visit [] x h = cc
branch-true visit (e ∷ es) x h = elim (Bool-cases (from x e)) [
  | inr other ↦ let (y, l, v) = branch-true visit es x (rw other at h) in (y, there l, v)
  | inl same ↦ elim (verdict_cases (visit e.target)) [
    | inl yes_ ↦ (e.target, here ((eq_iff _ _).0 same) refl, yes_)
    | inr (inl no_) ↦
        let (y, l, v) = branch-true visit es x (rw (same, no_, any_branch) at h) in (y, there l, v)
    | inr (inr out) ↦ cc (rw (same, out, any_branch) at h)
  ]
]

-- A search that says no has had a no behind every edge.
pub branch-false :
    (visit : String → Option Bool) (es : List WorkflowEdge) (x y : String)
    → any_branch visit (filter (from x) es) ≡ some false
    → Leads es x y
    → visit y ≡ some false
unfolding any_branch
branch-false visit [] x y h l = elim l [ ]
branch-false visit (e ∷ es) x y h (here s t) =
    rw (← t) (ground (arith, eq_iff e.source x, verdict_cases (visit e.target)))
branch-false visit (e ∷ es) x y h (there l) =
    ground (arith, branch-false visit es x y, verdict_cases (visit e.target))

pub branch-total :
    (visit : String → Option Bool) (es : List WorkflowEdge) (x : String)
    → ((y : String) → Leads es x y → (b : Bool) × (visit y ≡ some b))
    → (b : Bool) × (any_branch visit (filter (from x) es) ≡ some b)
unfolding any_branch
branch-total visit [] x h = (false, refl)
branch-total visit (e ∷ es) x h = elim (Bool-cases (from x e)) [
  | inr other ↦ let (b, r) = branch-total visit es x (λ y l. h y (there l)) in (b, rw (other, r))
  | inl same ↦
      let (b, v) = h e.target (here ((eq_iff _ _).0 same) refl) in
      let (b', r) = branch-total visit es x (λ y l. h y (there l)) in
      (b || b', rw same (ground arith))
]

-- A yes of the search is right: the target leads to the source.
pub creates_cycle-true :
    (fuel : ℕ) (es : List WorkflowEdge) (src tgt : String)
    → creates_cycle fuel es src tgt ≡ some true
    → Reach es tgt src
unfolding creates_cycle
creates_cycle-true zero es src tgt h = cc
creates_cycle-true (suc fuel) es src tgt h = elim (Bool-cases (src == tgt)) [
  | inl same ↦ stay (sym ((eq_iff _ _).0 same))
  | inr other ↦
      let (y, l, r) = branch-true (λ t. creates_cycle fuel es src t) es tgt (rw other at h) in
      walk l (creates_cycle-true fuel es src y r)
]

-- A no of the search is right: the target does not lead to the source.
pub creates_cycle-false :
    (fuel : ℕ) (es : List WorkflowEdge) (src tgt : String)
    → creates_cycle fuel es src tgt ≡ some false
    → ¬ Reach es tgt src
unfolding creates_cycle
creates_cycle-false zero es src tgt h r = cc
creates_cycle-false (suc fuel) es src tgt h (stay e) = ground (arith, eq_iff src tgt)
creates_cycle-false (suc fuel) es src tgt h (walk {y} l r) = elim (Bool-cases (src == tgt)) [
  | inl same ↦ cc (rw same at h)
  | inr other ↦
      creates_cycle-false fuel es src y
        (branch-false (λ t. creates_cycle fuel es src t) es tgt y (rw other at h) l) r
]
