-- ===== src/Suite/Data.antt =====
-- frontend/src/components/hubs/eval/SuiteDetailWorkspace.tsx: what the page of an evaluation suite keeps.
-- `Num` is the type of JavaScript's numbers.
use cont_ained.Base.{ℕ, String, Bool, Option, List}
use cont_ained.Base.Dict.{Dict}

-- What the page takes from JavaScript.
pub record Host (Num : Type 0) : Type 0 where
  pub trim : String → String
  pub to_lower_case : String → String
  pub to_upper_case : String → String
  pub includes : String → String → Bool
  pub show_count : ℕ → String
  pub parse_float : String → Num
  pub parse_int : String → Num
  pub truthy : Num → Bool
  pub default_latency : Num

-- A test case, as far as the page reads it.
pub record TestCase : Type 0 where
  pub id : String
  pub input_query : Option String
  pub expected_output : Option String
  pub expected_context : Option String
  pub node_id : Option String
  pub assertion_type : Option String
  pub expected_value : Option String

-- The form of the dialog for a test case.
pub record CaseForm : Type 0 where
  pub input_query : String
  pub expected_output : String
  pub expected_context : String
  pub node_id : String
  pub assertion_type : String
  pub expected_value : String

-- What is sent: a field that is `undefined` is not there.
pub record Payload : Type 0 where
  pub input_query : String
  pub expected_output : Option String
  pub expected_context : Option String
  pub node_id : Option String
  pub assertion_type : Option String
  pub expected_value : Option String

pub data EvalFramework : Type 0 where
  both ragas deepeval : EvalFramework

pub data Tab : Type 0 where
  cases strategies runs : Tab

-- A run and a suite, as far as the page reads them.
pub record Run : Type 0 where
  pub id : String
  pub status : Option String

pub record EvalSuite : Type 0 where
  pub name : String
  pub target_type : Option String
  pub target_id : Option String

-- A notification that the page adds.
pub data Note : Type 0 where
  success error : String → String → Note

-- The requests of the page, for its hub and suite.
pub data Request : Type 0 where
  get_suite list_cases list_runs : Request
  add_case : Payload → Request
  update_case : String → Payload → Request
  delete_case : String → Request
  create_run : EvalFramework → Request

pub record SuitePage (Num : Type 0) : Type 0 where
  pub hub_id : String
  pub suite_id : String
  pub suite : Option EvalSuite
  pub cases : List TestCase
  pub runs : List Run
  pub loading : Bool
  pub error : Option String
  pub active_tab : Tab
  pub search_query : String
  pub is_case_modal_open : Bool
  pub editing_case : Option TestCase
  pub form : CaseForm
  pub saving_case : Bool
  pub case_modal_error : Option String
  pub delete_target_case : Option TestCase
  pub eval_framework : EvalFramework
  pub enabled_metrics : Dict Bool
  pub thresholds : Dict Num
  pub is_run_modal_open : Bool
  pub running_benchmark : Bool
  pub expanded_run_id : Option String
  pub generating_synthetic : Bool
  pub notes : List Note
