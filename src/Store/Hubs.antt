-- ===== src/Store/Hubs.antt =====
-- frontend/src/store/hubSlice.ts, with the records of frontend/src/types/api.ts that it keeps.
pub mod Index
pub mod Calls
use cont_ained.Base.{
  ℕ, String, Bool, Option, none, some, List, [], ◌∷◌, ◌++◌, ◌==◌, not, filter, if◌then◌else◌,
}
use cont_ained.Base.Dict.{Dict, lookup, insert, remove}
use cont_ained.Permissions.{HubRole}
use cont_ained.Routes.{HubType, type_name}

-- `Hub`.
pub record Hub : Type 0 where
  pub id : String
  pub slug : String
  pub name : String
  pub hub_type : HubType
  pub description : Option String
  pub accent : Option String
  pub icon : Option String
  pub owner_id : String
  pub is_archived : Bool
  pub my_role : HubRole
  pub resource_count : Option ℕ
  pub resource_counts : Option (Dict ℕ)
  pub member_count : ℕ
  pub last_activity_at : Option String
  pub created_at : String
  pub updated_at : String

-- `HubMember`.
pub record HubMember : Type 0 where
  pub id : String
  pub hub_id : String
  pub user_id : String
  pub email : Option String
  pub display_name : Option String
  pub hub_role : HubRole
  pub invited_by : Option String
  pub created_at : String

-- `HubAccessLevel`.
pub data HubAccessLevel : Type 0 where
  read use_ : HubAccessLevel

-- `HubLink`.
pub record HubLink : Type 0 where
  pub id : String
  pub source_hub_id : String
  pub target_hub_id : String
  pub source_hub_name : Option String
  pub source_hub_type : Option HubType
  pub target_hub_name : Option String
  pub target_hub_type : Option HubType
  pub target_hub_slug : Option String
  pub access_level : HubAccessLevel
  pub created_by : Option String
  pub created_at : String

-- `hubListStatus`.
pub data HubListStatus : Type 0 where
  idle loading ready error : HubListStatus

-- `Record<HubType, Hub[]>`: a list for each of the four types.
abbrev pub HubsByType : Type 0
HubsByType = HubType → List Hub

-- `HubSliceState`.
pub record HubSliceState : Type 0 where
  pub hubs_by_type : HubsByType
  pub hubs_by_id : Dict Hub
  pub active_hub_id : Option String
  pub members_by_hub : Dict (List HubMember)
  pub links_by_hub : Dict (List HubLink)
  pub hub_list_status : HubListStatus
  pub hub_list_error : Option String

-- The state that `createHubSlice` starts from.
abbrev pub initial_hubs : HubSliceState
initial_hubs = record {
  hubs_by_type = λ t. [];
  hubs_by_id = [];
  active_hub_id = none;
  members_by_hub = [];
  links_by_hub = [];
  hub_list_status = idle;
  hub_list_error = none;
}

abbrev pub set_active_hub : Option String → HubSliceState → HubSliceState
set_active_hub hub_id s = record s { active_hub_id = hub_id }

-- `{ ...byType, [k]: list }`.
unfoldable pub set_type : HubType → List Hub → HubsByType → HubsByType
set_type k list by_type t = if type_name k == type_name t then list else by_type t

-- The loop of `setHubs`; the list of a type is always there to be pushed to.
unfoldable pub index_hubs : List Hub → Dict Hub → HubsByType → Dict Hub × HubsByType
index_hubs [] by_id by_type = (by_id, by_type)
index_hubs (h ∷ hubs) by_id by_type =
    index_hubs hubs (insert h.id h by_id)
      (set_type h.hub_type (by_type h.hub_type ++ h ∷ []) by_type)

-- `setHubs`.
unfoldable pub set_hubs : List Hub → HubSliceState → HubSliceState
set_hubs hubs s =
    let indexed : Dict Hub × HubsByType = index_hubs hubs [] (λ t. []) in
    record s {
      hubs_by_type = indexed.1;
      hubs_by_id = indexed.0;
      hub_list_status = ready;
      hub_list_error = none;
    }

-- `list.filter((h) => h.id !== id)`.
abbrev pub without_hub : String → List Hub → List Hub
without_hub id hubs = filter (λ h. not (h.id == id)) hubs

-- `upsertHub`.
unfoldable pub upsert_hub : Hub → HubSliceState → HubSliceState
upsert_hub hub s = record s {
  hubs_by_id = insert hub.id hub s.hubs_by_id;
  hubs_by_type =
      set_type hub.hub_type (without_hub hub.id (s.hubs_by_type hub.hub_type) ++ hub ∷ [])
        s.hubs_by_type;
}

-- `active === id ? null : active`.
abbrev pub deactivate : String → Option String → Option String
deactivate id none = none
deactivate id (some active) = if active == id then none else some active

-- `removeHub`.
unfoldable pub remove_hub : String → HubSliceState → HubSliceState
remove_hub hub_id s = elim (lookup hub_id s.hubs_by_id) [
  | none ↦ s
  | some hub ↦ record s {
    hubs_by_id = remove hub_id s.hubs_by_id;
    hubs_by_type =
        set_type hub.hub_type (without_hub hub_id (s.hubs_by_type hub.hub_type)) s.hubs_by_type;
    active_hub_id = deactivate hub_id s.active_hub_id;
  }
]

-- `setMembers` and `setLinks`.
abbrev pub set_members : String → List HubMember → HubSliceState → HubSliceState
set_members hub_id members s = record s { members_by_hub = insert hub_id members s.members_by_hub }

abbrev pub set_links : String → List HubLink → HubSliceState → HubSliceState
set_links hub_id links s = record s { links_by_hub = insert hub_id links s.links_by_hub }

-- `setHubListStatus`.
abbrev pub set_hub_list_status : HubListStatus → Option String → HubSliceState → HubSliceState
set_hub_list_status status error_ s = record s { hub_list_status = status; hub_list_error = error_ }

-- `evictHubData`.
abbrev pub evict_hub_data : String → HubSliceState → HubSliceState
evict_hub_data hub_id s = record s {
  members_by_hub = remove hub_id s.members_by_hub;
  links_by_hub = remove hub_id s.links_by_hub;
}

-- `HubSliceActions`.
pub data HubCall : Type 0 where
  sets_active : Option String → HubCall
  sets_hubs : List Hub → HubCall
  upserts : Hub → HubCall
  removes : String → HubCall
  sets_members : String → List HubMember → HubCall
  sets_links : String → List HubLink → HubCall
  sets_status : HubListStatus → Option String → HubCall
  evicts : String → HubCall

unfoldable pub hub_step : HubCall → HubSliceState → HubSliceState
hub_step (sets_active hub_id) s = set_active_hub hub_id s
hub_step (sets_hubs hubs) s = set_hubs hubs s
hub_step (upserts hub) s = upsert_hub hub s
hub_step (removes hub_id) s = remove_hub hub_id s
hub_step (sets_members hub_id members) s = set_members hub_id members s
hub_step (sets_links hub_id links) s = set_links hub_id links s
hub_step (sets_status status error_) s = set_hub_list_status status error_ s
hub_step (evicts hub_id) s = evict_hub_data hub_id s
