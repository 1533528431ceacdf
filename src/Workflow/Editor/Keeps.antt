-- ===== src/Workflow/Editor/Keeps.antt =====
-- A property of graphs that every entry of the history has, as well as the canvas.
use cont_ained.Base.{
  ℕ, zero, suc, ◌+◌, ◌-◌, ◌≡◌, refl, sym, inl, inr, Option, none, some, List, [], ◌∷◌, ◌++◌, take,
  drop, get_elem?, length, ltb, leb, All, All-append, All-take, Bool-cases,
}
use mathlib.Core.Path.{subst}
use mathlib.Core.Option.{some-injective}
use cont_ained.Workflow.Graph.{Snapshot}
use cont_ained.Workflow.Editor.{Editor, history_cap, push_capped, push_history, restore, undo, redo}
use cont_ained.Workflow.Editor.History.{graph}
use cont_ained.Workflow.Editor.Undo.{Effect, nothing, pushes}

pub record Keeps {ℓ} (P : Snapshot → Type ℓ) (s : Editor) : Type ℓ where
  pub now : P (graph s)
  pub past : All P s.history

module _ {ℓ} (P : Snapshot → Type ℓ) where
  All-drop_one : (xs : List Snapshot) → All P xs → All P (drop 1 xs)
  All-drop_one [] h = tt
  All-drop_one (x ∷ xs) h = h.1

  All-get_elem? :
      (xs : List Snapshot) (i : ℕ) (x : Snapshot) → All P xs → get_elem? xs i ≡ some x → P x
  All-get_elem? [] i x h e = cc
  All-get_elem? (y ∷ xs) zero x h e = subst P (some-injective _ _ e) h.0
  All-get_elem? (y ∷ xs) (suc i) x h e = All-get_elem? xs i x h.1 e

  All-push_capped :
      (c : ℕ) (xs : List Snapshot) (x : Snapshot) → All P xs → P x → All P (push_capped c xs x)
  unfolding push_capped
  All-push_capped c xs x h p = elim (Bool-cases (ltb history_cap (length (take c xs ++ x ∷ [])))) [
    | inl over ↦ rw over (All-drop_one _ trimmed)
    | inr fits ↦ rw fits trimmed
  ]
    where
      trimmed : All P (take c xs ++ x ∷ [])
      trimmed = All-append P (take c xs) (x ∷ []) (All-take P c xs h) (p, tt)

  push_history-Keeps :
      (t : Editor) → P (graph t) → All P t.history → Keeps P (push_history t.nodes t.edges t)
  unfolding push_history
  push_history-Keeps t p h = record {
    now = p;
    past = All-push_capped t.cursor t.history (graph t) h p;
  }

  -- An edit keeps the property if its own graph has it.
  pub Effect-Keeps : (s u : Editor) → Effect s u → P (graph u) → Keeps P s → Keeps P u
  unfolding push_history
  Effect-Keeps s u (nothing e) p k = subst (Keeps P) (sym e) k
  Effect-Keeps s u (pushes t h c e) p k =
      subst (Keeps P) (sym e) (push_history-Keeps t (subst (λ v. P (graph v)) e p) (rw h k.past))

  restore-Keeps :
      (o : Option Snapshot) (t : Editor)
      → Keeps P t
      → ((x : Snapshot) → o ≡ some x → P x)
      → Keeps P (restore o t)
  restore-Keeps none t k h = k
  restore-Keeps (some x) t k h = record { now = h x refl; past = k.past }

  pub undo-Keeps : (s : Editor) → Keeps P s → Keeps P (undo s)
  unfolding undo
  undo-Keeps s k = elim (Bool-cases (leb s.cursor 1)) [
    | inl low ↦ rw low k
    | inr high ↦ rw high (
        restore-Keeps (get_elem? s.history (s.cursor - 2)) (record s { cursor = s.cursor - 1 })
          (record { now = k.now; past = k.past }) (λ x e. All-get_elem? s.history _ x k.past e))
  ]

  pub redo-Keeps : (s : Editor) → Keeps P s → Keeps P (redo s)
  unfolding redo
  redo-Keeps s k = elim (Bool-cases (leb (length s.history) s.cursor)) [
    | inl high ↦ rw high k
    | inr low ↦ rw low (
        restore-Keeps (get_elem? s.history s.cursor) (record s { cursor = s.cursor + 1 })
          (record { now = k.now; past = k.past }) (λ x e. All-get_elem? s.history _ x k.past e))
  ]
