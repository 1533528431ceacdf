-- ===== src/Tools/Tests.antt =====
-- The tool servers on small inputs; a JSON value is a text.
use cont_ained.Base.{String, true, false, none, some, [], ◌∷◌, ◌++◌, ◌==◌, ◌≡◌, refl}
use cont_ained.Base.Action.{ok}
use cont_ained.Tools.Data.{Host, Server, Tool, TestResult, ToolsPage, test_tool}
use cont_ained.Tools.{handle_delete_server}
use cont_ained.Tools.Drawer.{
  open_test_drawer, begin_execute, finish_execute, begin_execute-open_test_drawer, late_result,
}

abbrev plain_host : Host String
plain_host = record {
  to_lower_case = λ s. s;
  to_upper_case = λ s. s;
  includes = λ s t. s == t;
  show_number = λ n. "5";
  json_text = λ j. j;
  parse = λ s. some s;
  object = λ d. "{}";
  one = "1";
  sample_value = "sample_value";
}

abbrev tool_named : String → Tool String
tool_named name = record {
  id = name;
  server_id = "s1";
  tool_name = name;
  properties = none;
  is_enabled = true;
}

abbrev page : ToolsPage String
page = record {
  servers = [];
  tools = tool_named "search" ∷ tool_named "fetch" ∷ [];
  is_loading = false;
  search_query = "";
  selected_server_id = none;
  is_modal_open = false;
  editing_server = none;
  form = record { name = ""; url = ""; transport = "sse"; auth_type = "none"; auth_token = "" };
  is_submitting = false;
  delete_server_target = none;
  testing_tool = none;
  test_params = "{}";
  test_result = none;
  is_executing_test = false;
  toasts = [];
}

abbrev found : TestResult String
found = record { status = "success"; result = some "found"; execution_time_ms = 5 }

begin_execute-open_test_drawer_test :
    (begin_execute plain_host
      (record { page = open_test_drawer plain_host (tool_named "search") page; sent = [] })).sent
    ≡ test_tool "s1" "search" "{}" ∷ []
begin_execute-open_test_drawer_test =
    begin_execute-open_test_drawer plain_host (tool_named "search")
      (record { page = page; sent = [] }) refl

late_result_example :
    let w =
      begin_execute plain_host
        (record { page = record page { testing_tool = some (tool_named "search") }; sent = [] }) in
    let q =
      finish_execute plain_host
        (ok found)
        (open_test_drawer plain_host (tool_named "fetch") w.page) in
    (w.sent ≡ [] ++ test_tool "s1" "search" "{}" ∷ [])
    × (q.testing_tool ≡ some (tool_named "fetch"))
    × (q.test_result ≡ some found)
late_result_example =
    late_result plain_host (tool_named "search") (tool_named "fetch") "{}" found page [] refl

abbrev built_in : Server
built_in = record {
  id = "s1";
  name = "Built-in";
  url = "http://";
  transport = "sse";
  auth_type = "none";
  is_internal = true;
  health_status = "healthy";
}

internal_test :
    (handle_delete_server built_in (ok tt) (record { page = page; sent = [] })).sent ≡ []
unfolding handle_delete_server
internal_test = refl
