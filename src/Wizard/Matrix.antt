-- ===== src/Wizard/Matrix.antt =====
-- The hubs that HubCreateWizard.tsx and HubLinksPanel.tsx offer as targets of a link.
use mathlib.Core.Path.{subst}
use cont_ained.Base.{
  ℕ, suc, ◌+◌, ◌≤◌, ◌<◌, Bool, true, ◌&&◌, not, List, [], ◌∷◌, ◌==◌, ◌≡◌, ◌≢◌, refl, ap, arith, any,
  filter, eq_iff, sym, ◌∙◌, any-filter, any-witness,
}
use cont_ained.Routes.{HubType, ingestion, agent, workflow, eval, type_name, hub_types}
use cont_ained.Routes.RoundTrip.{type_name-injective}
use cont_ained.Store.Hubs.{Hub}
use cont_ained.Wizard.Links.{
  legal_link_targets, legal_targets_of, allowed_link_targets, includes_type, eligible_targets,
  eligible_target_hubs,
}

tables-agree : (t : HubType) → allowed_link_targets t ≡ legal_targets_of (type_name t)
unfolding allowed_link_targets legal_targets_of legal_link_targets hub_types type_name
tables-agree ingestion = refl
tables-agree agent = refl
tables-agree workflow = refl
tables-agree eval = refl

-- The panel of a hub offers the hubs that the wizard offers to a new hub of that type, without the
-- hub itself.
pub eligible_target_hubs-eligible_targets :
    (hub : Hub) (hubs : List Hub)
    → eligible_target_hubs hub hubs
      ≡ filter (λ h. not (h.id == hub.id)) (eligible_targets (type_name hub.hub_type) hubs)
unfolding eligible_target_hubs eligible_targets
eligible_target_hubs-eligible_targets hub [] = refl
eligible_target_hubs-eligible_targets hub (h ∷ hubs) =
    rw (tables-agree hub.hub_type) (ground (arith, eligible_target_hubs-eligible_targets hub hubs))

-- How far a type is from the hubs that consume nothing.
abbrev rank : HubType → ℕ
rank ingestion = 0
rank agent = 1
rank workflow = 2
rank eval = 3

-- The hub is offered as a target to the other one.
abbrev pub is_offered : List Hub → Hub → Hub → Bool
is_offered hubs source target =
    any (λ h. (h.id == target.id) && (type_name h.hub_type == type_name target.hub_type))
      (eligible_target_hubs source hubs)

-- A chain of `n` links, each one offered by the panel of its source.
pub data LinkChain (hubs : List Hub) : ℕ → Hub → Hub → Type 0 where
  here : {h : Hub} → LinkChain hubs 0 h h
  link :
      {n : ℕ} {a b c : Hub}
      → is_offered hubs a b ≡ true
      → LinkChain hubs n b c
      → LinkChain hubs (suc n) a c

includes-rank : (t u : HubType) → includes_type (allowed_link_targets t) u ≡ true → rank u < rank t
unfolding allowed_link_targets type_name
includes-rank ingestion ingestion h = ground arith
includes-rank ingestion agent h = ground arith
includes-rank ingestion workflow h = ground arith
includes-rank ingestion eval h = ground arith
includes-rank agent ingestion h = ground arith
includes-rank agent agent h = ground arith
includes-rank agent workflow h = ground arith
includes-rank agent eval h = ground arith
includes-rank workflow ingestion h = ground arith
includes-rank workflow agent h = ground arith
includes-rank workflow workflow h = ground arith
includes-rank workflow eval h = ground arith
includes-rank eval ingestion h = ground arith
includes-rank eval agent h = ground arith
includes-rank eval workflow h = ground arith
includes-rank eval eval h = ground arith

is_offered-rank :
    (hubs : List Hub) (a b : Hub) → is_offered hubs a b ≡ true → rank b.hub_type < rank a.hub_type
unfolding eligible_target_hubs
is_offered-rank hubs a b h =
    subst (λ t. rank t < rank a.hub_type)
      (type_name-injective found.0.hub_type b.hub_type
        ((eq_iff (type_name found.0.hub_type) (type_name b.hub_type)).0 (ground (arith, found.1))))
      (includes-rank a.hub_type found.0.hub_type (ground (arith, found.1)))
  where
    offers : Hub → Bool
    offers h =
        not (h.id == a.id)
        && (includes_type (allowed_link_targets a.hub_type) h.hub_type && not h.is_archived)

    same : Hub → Bool
    same h = (h.id == b.id) && (type_name h.hub_type == type_name b.hub_type)

    found : (x : Hub) × ((offers x && same x) ≡ true)
    found = any-witness (λ x. offers x && same x) hubs (sym (any-filter same offers hubs) ∙ h)

chain-rank :
    (hubs : List Hub) (n : ℕ) (a b : Hub)
    → LinkChain hubs n a b
    → n + rank b.hub_type ≤ rank a.hub_type
chain-rank hubs n a b here = omega arith
chain-rank hubs n a b (link {b = m} e c) =
    omega (arith, is_offered-rank hubs a m e, chain-rank hubs _ m b c)

rank_le : (t : HubType) → rank t ≤ 3
rank_le t = ground arith

-- A chain of `n` links that the panels offer one after another has at most three links, and one that
-- has a link at all does not come back to a hub of the type that it started from.
pub chain_ends :
    (hubs : List Hub) (n : ℕ) (a b : Hub)
    → LinkChain hubs n a b
    → (n ≤ 3) × (1 ≤ n → a.hub_type ≢ b.hub_type)
chain_ends hubs n a b c = (
  omega (arith, chain-rank hubs n a b c, rank_le a.hub_type),
  λ k e. absurd (omega (arith, chain-rank hubs n a b c, k, ap rank e)),
)
