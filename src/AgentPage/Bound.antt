-- ===== src/AgentPage/Bound.antt =====
-- frontend/src/components/hubs/agent/AgentDetail.tsx: the collections that are bound.
use cont_ained.Base.{
  String, Bool, false, ◌&&◌, not, List, [], ◌∷◌, ◌==◌, ◌≡◌, refl, ◌∙◌, arith, any, filter,
  filter-append, eq_iff, Bool-cases, inl, inr, if◌then◌else◌, some,
}
use mathlib.Core.List.{append-nil}
use cont_ained.AgentPage.Data.{Host, Binding, Collection}
use cont_ained.AgentPage.{binds, toggle_binding}

-- A collection of a hub.
abbrev is_same : String → String → String → String → Bool
is_same hub col hub' col' = hub == hub' && col == col'

module _ {Num : Type 0} where
  filter-others :
      (hub col hub' col' : String) (bound : List (Binding Num))
      → filter (binds hub' col') (filter (λ b. not (binds hub col b)) bound)
        ≡ (if is_same hub col hub' col' then [] else filter (binds hub' col') bound)
  filter-others hub col hub' col' [] = ground arith
  filter-others hub col hub' col' (b ∷ bound) = ground (
    arith,
    filter-others hub col hub' col' bound,
    eq_iff hub hub',
    eq_iff col col',
    eq_iff b.hub_id hub,
    eq_iff b.hub_id hub',
    eq_iff b.collection_id col,
    eq_iff b.collection_id col',
  )

  filter-absent :
      (hub col : String) (bound : List (Binding Num))
      → any (binds hub col) bound ≡ false
      → filter (binds hub col) bound ≡ []
  filter-absent hub col [] h = refl
  filter-absent hub col (b ∷ bound) h = ground (arith, filter-absent hub col bound, h)

  -- The binding that the box adds.
  abbrev pub fresh : Host Num → String → Collection → Binding Num
  fresh host hub col = record {
    hub_id = hub;
    collection_id = col.id;
    alias = some col.name;
    top_k = host.five;
  }

  -- The bindings of any collection after a toggle: those of the toggled one are gone, if it had
  -- one, and a single fresh one otherwise; those of every other one are what they were.
  pub filter-toggle_binding :
      (host : Host Num) (hub : String) (col : Collection) (hub' col' : String)
      (bound : List (Binding Num))
      → filter (binds hub' col') (toggle_binding host hub col bound) ≡ (
          if is_same hub col.id hub' col'
          then if any (binds hub col.id) bound then [] else fresh host hub col ∷ []
          else filter (binds hub' col') bound)
  unfolding toggle_binding
  filter-toggle_binding host hub col hub' col' bound =
      elim (Bool-cases (any (binds hub col.id) bound)) [
        | inl e ↦ rw e (filter-others hub col.id hub' col' bound)
        | inr e ↦ rw e (
            filter-append (binds hub' col') bound (fresh host hub col ∷ [])
            ∙ ground (
              arith,
              filter-absent hub col.id bound e,
              eq_iff hub hub',
              eq_iff col.id col',
              append-nil (filter (binds hub' col') bound),
            ))
      ]
