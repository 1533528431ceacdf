-- ===== src/Collections/Refusals.antt =====
-- The deletions that frontend/src/components/hubs/ingestion/CollectionsWorkspace.tsx sends, and those
-- of them that the gateway refuses.
use cont_ained.Base.{
  String, Bool, true, false, ◌&&◌, ◌||◌, not, Option, none, some, List, [], ◌∷◌, ◌++◌, ◌==◌, ◌≡◌,
  refl, arith, any, any-append, if◌then◌else◌,
}
use cont_ained.Collections.Data.{
  Host, Target, Request, list_collections, list_datastores, get_models, delete_collection,
  CollectionsWorld, DeleteAnswer, deleted, refused,
}
use cont_ained.Collections.Events.{CollectionsEvent, confirms}
use cont_ained.Collections.{is_not_empty}

-- A request that deletes the collection, by force or not.
abbrev pub deletes : String → Bool → Request → Bool
deletes id force (delete_collection j f) = j == id && (if force then f else not f)
deletes id force _ = false

-- It was sent.
abbrev pub asked : String → List Request → Bool
asked id sent = any (deletes id false) sent

abbrev pub forced : String → List Request → Bool
forced id sent = any (deletes id true) sent

-- The collection is among those that were refused.
abbrev pub known : String → List String → Bool
known id past = any (λ k. k == id) past

-- The collection of the answer, if the gateway refused to delete it because it is not empty.
abbrev pub refused_id : Host → String → DeleteAnswer → List String
refused_id host id deleted = []
refused_id host id (refused status message) =
    if is_not_empty host status message then id ∷ [] else []

abbrev pub refused_target : Host → String → Option Target → DeleteAnswer → List String
refused_target host hub_id none a = []
refused_target host hub_id (some t) a = if hub_id == "" then [] else refused_id host t.id a

-- The collections whose plain deletion an event is refused so.
abbrev pub refusals : Host → CollectionsEvent → CollectionsWorld → List String
refusals host (confirms a) w = refused_target host w.page.hub_id w.page.delete_target a
refusals host e w = []

-- The collection of the dialog that asks again, if it is open, was asked for and refused.
abbrev pub is_pending : List String → Option Target → List Request → Bool
is_pending past none sent = true
is_pending past (some t) sent = asked t.id sent && known t.id past

-- Whatever is deleted by force, or is about to be, was to be deleted without force before, and that
-- was refused.
abbrev pub IsAsked : List String → CollectionsWorld → Type 0
IsAsked past w =
    (is_pending past w.page.force_delete_target w.sent ≡ true)
    × ((id : String) → (not (forced id w.sent) || (asked id w.sent && known id past)) ≡ true)

-- What was sent stays sent.
pub asked-append :
    (id : String) (sent more : List Request)
    → (asked id (sent ++ more) ≡ (asked id sent || asked id more))
      × (forced id (sent ++ more) ≡ (forced id sent || forced id more))
asked-append id sent more =
    (any-append (deletes id false) sent more, any-append (deletes id true) sent more)

pub is_pending-append :
    (past : List String) (t : Option Target) (sent more : List Request)
    → is_pending past t sent ≡ true
    → is_pending past t (sent ++ more) ≡ true
is_pending-append past none sent more h = refl
is_pending-append past (some t) sent more h = ground (arith, asked-append t.id sent more, h)

-- Requests that delete nothing, and deletions without force.
pub quiet-IsAsked :
    (past : List String) (t : Option Target) (sent more : List Request)
    → ((id : String) → forced id more ≡ false)
    → (is_pending past t sent ≡ true)
      × ((id : String) → (not (forced id sent) || (asked id sent && known id past)) ≡ true)
    → (is_pending past t (sent ++ more) ≡ true)
      × ((id : String)
          → (not (forced id (sent ++ more)) || (asked id (sent ++ more) && known id past)) ≡ true)
quiet-IsAsked past t sent more plain h = (
  is_pending-append past t sent more h.0,
  λ id. ground (arith, asked-append id sent more, plain id, h.1 id),
)

-- The three requests of `fetchData`.
pub three-IsAsked :
    (past : List String) (t : Option Target) (sent : List Request)
    → let all = ((sent ++ list_collections ∷ []) ++ list_datastores ∷ []) ++ get_models ∷ [] in
      (is_pending past t sent ≡ true)
        × ((id : String) → (not (forced id sent) || (asked id sent && known id past)) ≡ true)
      → (is_pending past t all ≡ true)
        × ((id : String) → (not (forced id all) || (asked id all && known id past)) ≡ true)
three-IsAsked past t sent h =
    let one = sent ++ list_collections ∷ [] in
    let two = one ++ list_datastores ∷ [] in
    quiet-IsAsked past t two (get_models ∷ []) (λ id. refl)
      (quiet-IsAsked past t one (list_datastores ∷ []) (λ id. refl)
        (quiet-IsAsked past t sent (list_collections ∷ []) (λ id. refl) h))
