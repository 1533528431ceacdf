-- ===== src/Workflow/Canvas/Rank.antt =====
-- The search for a cycle of WorkflowCanvas.tsx on a graph whose nodes are ranked so that edges go up.
use cont_ained.Base.{
  ℕ, zero, suc, ◌+◌, ◌≤◌, ◌<◌, String, Bool, true, false, some, List, [], ◌∷◌, ◌++◌, ◌==◌, ◌≡◌,
  refl, sym, ap, ◌⊎◌, inl, inr, arith, Bool-cases,
}
use mathlib.Core.Path.{subst}
use cont_ained.Workflow.Graph.{WorkflowEdge}
use cont_ained.Workflow.Canvas.{creates_cycle}
use cont_ained.Workflow.Canvas.Reach.{
  Leads, here, there, Reach, stay, walk, IsAcyclic, branch-total, creates_cycle-true,
  creates_cycle-false,
}

-- A topological order of the nodes: every edge goes from a lower rank to a higher one, and no edge
-- ends above the bound.
pub record Ranking (es : List WorkflowEdge) : Type 0 where
  pub rank : String → ℕ
  pub bound : ℕ
  pub rises : (x y : String) → Leads es x y → rank x < rank y
  pub capped : (x y : String) → Leads es x y → rank y ≤ bound

module _ {es : List WorkflowEdge} (r : Ranking es) where
  Reach-rank : {x y : String} → Reach es x y → r.rank x ≤ r.rank y
  Reach-rank (stay e) = omega (arith, ap r.rank e)
  Reach-rank (walk {x} {y} l w) = omega (arith, r.rises x y l, Reach-rank w)

  pub Ranking-IsAcyclic : IsAcyclic es
  Ranking-IsAcyclic x (y, l, w) = omega (arith, r.rises x y l, Reach-rank w)

  creates_cycle-some :
      (fuel : ℕ) (src tgt : String)
      → 0 < fuel
      → r.bound < r.rank tgt + fuel
      → (b : Bool) × (creates_cycle fuel es src tgt ≡ some b)
  unfolding creates_cycle
  creates_cycle-some zero src tgt p h = elim p [ ]
  creates_cycle-some (suc fuel) src tgt p h = elim (Bool-cases (src == tgt)) [
    | inl same ↦ (true, rw same)
    | inr other ↦
        let (b, e) =
          branch-total (λ t. creates_cycle fuel es src t) es tgt
            (λ y l.
              creates_cycle-some fuel src y (omega (arith, r.rises tgt y l, r.capped tgt y l))
                (omega (arith, r.rises tgt y l))) in
        (b, rw (other, e))
  ]

  -- With fuel above the bound the search comes back, and says whether the target leads to the
  -- source.
  pub creates_cycle-decides :
      (fuel : ℕ) (src tgt : String)
      → r.bound < fuel
      → ((creates_cycle fuel es src tgt ≡ some true) × Reach es tgt src)
        ⊎ ((creates_cycle fuel es src tgt ≡ some false) × ¬ Reach es tgt src)
  creates_cycle-decides fuel src tgt h =
      let (b, e) = creates_cycle-some fuel src tgt (omega arith) (omega arith) in
      elim (Bool-cases b) [
        | inl yes_ ↦
            inl (rw e (ap some yes_), creates_cycle-true fuel es src tgt (rw e (ap some yes_)))
        | inr no_ ↦
            inr (rw e (ap some no_), creates_cycle-false fuel es src tgt (rw e (ap some no_)))
      ]

pub Leads-concat :
    (es : List WorkflowEdge) (e : WorkflowEdge) {x y : String}
    → Leads (es ++ e ∷ []) x y
    → Leads es x y ⊎ ((e.source ≡ x) × (e.target ≡ y))
Leads-concat [] e (here s t) = inr (s, t)
Leads-concat [] e (there l) = elim l [ ]
Leads-concat (d ∷ es) e (here s t) = inl (here s t)
Leads-concat (d ∷ es) e (there l) = elim (Leads-concat es e l) [
  | inl old ↦ inl (there old)
  | inr new ↦ inr new
]

Reach-concat :
    {es : List WorkflowEdge} {x y z : String} → Reach es x y → Leads es y z → Reach es x z
Reach-concat {es} {z} (stay e) l = walk (subst (λ w. Leads es w z) (sym e) l) (stay refl)
Reach-concat (walk k w) l = walk k (Reach-concat w l)

-- A new edge whose target does not lead to its source: the nodes behind the target go up.
module _ {es : List WorkflowEdge} (r : Ranking es) (e : WorkflowEdge)
    (open_ : ¬ Reach es e.target e.source) where
  lift : String → ℕ
  lift n = elim (creates_cycle (suc r.bound) es n e.target) [
    | some true ↦ suc (r.rank e.source)
    | _ ↦ 0
  ]

  lift-cases :
      (n : String)
      → (Reach es e.target n × (lift n ≡ suc (r.rank e.source)))
        ⊎ ((¬ Reach es e.target n) × (lift n ≡ 0))
  unfolding lift
  lift-cases n = elim (creates_cycle-decides r (suc r.bound) n e.target (omega arith)) [
    | inl (q, w) ↦ inl (w, rw (q, lift))
    | inr (q, w) ↦ inr (w, rw (q, lift))
  ]

  lift-rises : (x y : String) → Leads es x y → lift x ≤ lift y
  lift-rises x y l = elim (lift-cases x) [
    | inr (_, z) ↦ omega arith
    | inl (w, z) ↦ elim (lift-cases y) [
      | inl (_, z') ↦ omega arith
      | inr (no_, _) ↦ absurd (no_ (Reach-concat w l))
    ]
  ]

  raised : String → ℕ
  raised n = r.rank n + lift n

  raised-new : raised e.source < raised e.target
  unfolding raised
  raised-new = elim (lift-cases e.source) [
    | inl (w, _) ↦ absurd (open_ w)
    | inr (_, z) ↦ elim (lift-cases e.target) [
      | inl (_, z') ↦ omega arith
      | inr (no_, _) ↦ absurd (no_ (stay refl))
    ]
  ]

  lift-le : (n : String) → lift n ≤ suc (r.rank e.source)
  lift-le n = elim (lift-cases n) [ inl (_, z) ↦ omega arith | inr (_, z) ↦ omega arith ]

  raised-rises : (x y : String) → Leads (es ++ e ∷ []) x y → raised x < raised y
  unfolding raised
  raised-rises x y l = elim (Leads-concat es e l) [
    | inl old ↦ omega (arith, r.rises x y old, lift-rises x y old)
    | inr (s, t) ↦ omega (arith, raised-new, ap raised s, ap raised t)
  ]

  raised-capped :
      (x y : String)
      → Leads (es ++ e ∷ []) x y
      → raised y ≤ r.bound + r.rank e.target + suc (r.rank e.source)
  unfolding raised
  raised-capped x y l = elim (Leads-concat es e l) [
    | inl old ↦ omega (arith, r.capped x y old, lift-le y)
    | inr (s, t) ↦ omega (arith, lift-le y, ap r.rank t)
  ]

  pub Ranking-concat : Ranking (es ++ e ∷ [])
  Ranking-concat = record {
    rank = raised;
    bound = r.bound + r.rank e.target + suc (r.rank e.source);
    rises = raised-rises;
    capped = raised-capped;
  }

pub Ranking-nil : Ranking []
Ranking-nil = record {
  rank = λ n. 0;
  bound = 0;
  rises = λ x y l. elim l [ ];
  capped = λ x y l. elim l [ ];
}
