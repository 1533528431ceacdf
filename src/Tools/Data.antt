-- ===== src/Tools/Data.antt =====
-- frontend/src/components/MCPHubPage.tsx: what the page of the tool servers keeps, and the requests that it
-- sends. `Json` is the type of JSON values.
use cont_ained.Base.{ℕ, String, Bool, Option, List}
use cont_ained.Base.Dict.{Dict}
use cont_ained.Base.Action.{World}

-- What the page takes from JavaScript; `json_text` is `JSON.stringify`, `parse` is `JSON.parse`,
-- and `object` makes an object of its entries.
pub record Host (Json : Type 0) : Type 0 where
  pub to_lower_case : String → String
  pub to_upper_case : String → String
  pub includes : String → String → Bool
  pub show_number : ℕ → String
  pub json_text : Json → String
  pub parse : String → Option Json
  pub object : Dict Json → Json
  pub one : Json
  pub sample_value : Json

-- `MCPServer`, `MCPTool` and `MCPTestResult`, as far as the page reads them; a property of a
-- schema has a type and may have a default.
pub record Server : Type 0 where
  pub id : String
  pub name : String
  pub url : String
  pub transport : String
  pub auth_type : String
  pub is_internal : Bool
  pub health_status : String

pub record Property (Json : Type 0) : Type 0 where
  pub default : Option Json
  pub type_name : String

pub record Tool (Json : Type 0) : Type 0 where
  pub id : String
  pub server_id : String
  pub tool_name : String
  pub properties : Option (Dict (Property Json))
  pub is_enabled : Bool

pub record TestResult (Json : Type 0) : Type 0 where
  pub status : String
  pub result : Option Json
  pub execution_time_ms : ℕ

-- `formData`, and what is sent of it: an empty token is left out.
pub record ServerForm : Type 0 where
  pub name : String
  pub url : String
  pub transport : String
  pub auth_type : String
  pub auth_token : String

pub record ServerPayload : Type 0 where
  pub name : String
  pub url : String
  pub transport : String
  pub auth_type : String
  pub auth_token : Option String

pub data ToastType : Type 0 where
  success error warning info : ToastType

pub record ToolsPage (Json : Type 0) : Type 0 where
  pub servers : List Server
  pub tools : List (Tool Json)
  pub is_loading : Bool
  pub search_query : String
  pub selected_server_id : Option String
  pub is_modal_open : Bool
  pub editing_server : Option Server
  pub form : ServerForm
  pub is_submitting : Bool
  pub delete_server_target : Option Server
  pub testing_tool : Option (Tool Json)
  pub test_params : String
  pub test_result : Option (TestResult Json)
  pub is_executing_test : Bool
  pub toasts : List (String × ToastType)

pub data Request (Json : Type 0) : Type 0 where
  get_servers get_tools : Request Json
  create_server : ServerPayload → Request Json
  update_server : String → ServerPayload → Request Json
  delete_server check_health sync_tools toggle_tool : String → Request Json
  test_tool : String → String → Json → Request Json

abbrev pub ToolsWorld : Type 0 → Type 0
ToolsWorld Json = World (ToolsPage Json) (Request Json)
