-- ===== src/Workflow/Canvas/Acyclic.antt =====
-- The cycles of a graph of WorkflowCanvas.tsx as an edge leaves or enters it.
use cont_ained.Base.{String, sym, ◌⊎◌, inl, inr, Bool, List, [], ◌∷◌, ◌++◌, filter, Bool-cases}
use mathlib.Core.Path.{subst, subst₂}
use cont_ained.Workflow.Graph.{WorkflowEdge}
use cont_ained.Workflow.Canvas.Reach.{Leads, here, there, Reach, stay, walk, IsAcyclic}
use cont_ained.Workflow.Canvas.Rank.{Ranking, Leads-concat}

Reach-trans : {es : List WorkflowEdge} {x y z : String} → Reach es x y → Reach es y z → Reach es x z
Reach-trans {es} {z} (stay e) w = subst (λ v. Reach es v z) (sym e) w
Reach-trans (walk l v) w = walk l (Reach-trans v w)

module _ (es : List WorkflowEdge) (e : WorkflowEdge) where
  Reach-concat-cases :
      {x y : String}
      → Reach (es ++ e ∷ []) x y
      → Reach es x y ⊎ (Reach es x e.source × Reach es e.target y)
  Reach-concat-cases (stay p) = inl (stay p)
  Reach-concat-cases {y} (walk l w) = elim (Leads-concat es e l) [
    | inl old ↦ elim (Reach-concat-cases w) [
      | inl r ↦ inl (walk old r)
      | inr (p, q) ↦ inr (walk old p, q)
    ]
    | inr (s, t) ↦ elim (Reach-concat-cases w) [
      | inl r ↦ inr (stay (sym s), subst (λ v. Reach es v y) (sym t) r)
      | inr (p, q) ↦ inr (stay (sym s), q)
    ]
  ]

  pub IsAcyclic-concat : IsAcyclic es → ¬ Reach es e.target e.source → IsAcyclic (es ++ e ∷ [])
  IsAcyclic-concat acyclic open_ x (y, l, w) = elim (Leads-concat es e l) [
    | inl old ↦ elim (Reach-concat-cases w) [
      | inl r ↦ acyclic x (y, old, r)
      | inr (p, q) ↦ open_ (Reach-trans q (walk old p))
    ]
    | inr (s, t) ↦ elim (Reach-concat-cases w) [
      | inl r ↦ open_ (subst₂ (Reach es) (sym t) (sym s) r)
      | inr (p, q) ↦ open_ (subst (λ v. Reach es v e.source) (sym t) p)
    ]
  ]

Leads-cons :
    (e : WorkflowEdge) (es ds : List WorkflowEdge) {x y : String}
    → (Leads ds x y → Leads es x y)
    → Leads (e ∷ ds) x y
    → Leads (e ∷ es) x y
Leads-cons e es ds f (here s t) = here s t
Leads-cons e es ds f (there l) = there (f l)

pub Leads-filter :
    (p : WorkflowEdge → Bool) (es : List WorkflowEdge) {x y : String}
    → Leads (filter p es) x y
    → Leads es x y
Leads-filter p [] l = l
Leads-filter p (e ∷ es) l = elim (Bool-cases (p e)) [
  | inl kept ↦ Leads-cons e es (filter p es) (Leads-filter p es) (rw kept at l)
  | inr gone ↦ there (Leads-filter p es (rw gone at l))
]

Reach-filter :
    (p : WorkflowEdge → Bool) (es : List WorkflowEdge) {x y : String}
    → Reach (filter p es) x y
    → Reach es x y
Reach-filter p es (stay e) = stay e
Reach-filter p es (walk l w) = walk (Leads-filter p es l) (Reach-filter p es w)

pub IsAcyclic-filter :
    (p : WorkflowEdge → Bool) (es : List WorkflowEdge) → IsAcyclic es → IsAcyclic (filter p es)
IsAcyclic-filter p es acyclic x (y, l, w) = acyclic x (y, Leads-filter p es l, Reach-filter p es w)

pub Ranking-filter :
    (p : WorkflowEdge → Bool) (es : List WorkflowEdge) → Ranking es → Ranking (filter p es)
Ranking-filter p es r = record {
  rank = r.rank;
  bound = r.bound;
  rises = λ x y l. r.rises x y (Leads-filter p es l);
  capped = λ x y l. r.capped x y (Leads-filter p es l);
}
