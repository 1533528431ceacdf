-- ===== src/AgentPage/Data.antt =====
-- frontend/src/components/hubs/agent/AgentDetail.tsx: what the page keeps. `Num` is the type of
-- JavaScript's numbers; what the page takes from them and from texts is a parameter.
use cont_ained.Base.{String, Bool, Option, List}

-- What the page takes from JavaScript: `trim`, `parseInt`, `parseFloat`, the test of a number under
-- `||`, and the numbers that the source writes.
pub record Host (Num : Type 0) : Type 0 where
  pub trim : String → String
  pub parse_int : String → Num
  pub parse_float : String → Num
  pub truthy : Num → Bool
  pub default_temperature : Num
  pub default_max_tokens : Num
  pub five : Num

-- An item of `collection_bindings`, as the gateway sends it, and as the page keeps it.
pub record SentBinding (Num : Type 0) : Type 0 where
  pub hub_id : String
  pub collection_id : String
  pub alias : Option String
  pub top_k : Option Num

pub record Binding (Num : Type 0) : Type 0 where
  pub hub_id : String
  pub collection_id : String
  pub alias : Option String
  pub top_k : Num

-- The agent, as far as the page reads it.
pub record Agent (Num : Type 0) : Type 0 where
  pub id : String
  pub name : Option String
  pub role : Option String
  pub model_id : Option String
  pub system_prompt : Option String
  pub temperature : Option Num
  pub max_tokens : Option Num
  pub collection_bindings : Option (List (SentBinding Num))

-- The fields of the configuration, which are also what `handleSaveConfig` sends.
pub record Form (Num : Type 0) : Type 0 where
  pub name : String
  pub role : String
  pub model_id : String
  pub system_prompt : String
  pub temperature : Num
  pub max_tokens : Num

pub data AgentDetailTab : Type 0 where
  config knowledge endpoint invocations test : AgentDetailTab

-- A hub, a link and a collection, as far as the page reads them, and an item of `linkedHubsData`.
pub record Hub : Type 0 where
  pub id : String
  pub hub_type : String

pub record Collection : Type 0 where
  pub id : String
  pub name : String

pub record LinkedHub : Type 0 where
  pub hub : Hub
  pub collections : List Collection

-- What the page keeps, less the notes that it shows for some seconds (`saveSuccess`,
-- `bindingsSuccess`, `copied`) and the list of models.
pub record AgentDetail (Num : Type 0) : Type 0 where
  pub hub_id : String
  pub agent_id : String
  pub active_tab : AgentDetailTab
  pub agent : Option (Agent Num)
  pub loading : Bool
  pub error : Option String
  pub form : Form Num
  pub is_dirty : Bool
  pub is_saving : Bool
  pub bound_bindings : List (Binding Num)
  pub linked_hubs_data : List LinkedHub
  pub loading_knowledge : Bool
  pub is_saving_bindings : Bool
  pub test_prompt : String
  pub test_result : Option String
  pub testing : Bool
