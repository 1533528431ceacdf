-- ===== src/Suite/Tests.antt =====
-- The page of a suite on small inputs; the host trims nothing, and every number reads as 0.
use cont_ained.Base.{
  ℕ, String, true, false, not, none, some, [], ◌∷◌, ◌++◌, ◌==◌, ◌≡◌, ◌≢◌, refl, ◌⊎◌, arith, eq_iff,
  eqb,
}
use cont_ained.Base.Action.{ok, failed, try_catch}
use cont_ained.Suite.Data.{Host, TestCase, CaseForm, both, cases, create_run}
use cont_ained.Suite.{SuiteWorld, handle_save_case, payload_of, form_of, save_request}
use cont_ained.Suite.Runs.{handle_start_benchmark_run}
use cont_ained.Suite.Idle.{IsIdle, suite_step, suite_step-IsIdle, saves}
use cont_ained.Suite.Payloads.{
  IsPlain, IsWhole, payload_of_lem, IsStored, fields_of, payload_of-form_of,
}
use cont_ained.Suite.Refresh.{shows_error, followed, handle_save_case_lem}
use cont_ained.Suite.Shown.{offers_add, offers_edit, offers_delete, offers_edit_lem}
use cont_ained.Permissions.{HubContextValue, owner, can, edit_resource}

abbrev plain_host : Host ℕ
plain_host = record {
  trim = λ s. s;
  to_lower_case = λ s. s;
  to_upper_case = λ s. s;
  includes = λ s t. s == t;
  show_count = λ n. "6";
  parse_float = λ s. 0;
  parse_int = λ s. 0;
  truthy = λ n. not (eqb n 0);
  default_latency = 3000;
}

abbrev greeting : TestCase
greeting = record {
  id = "c1";
  input_query = some "Hello?";
  expected_output = some "Hello";
  expected_context = none;
  node_id = some "n1";
  assertion_type = some "contains";
  expected_value = some "Hello";
}

abbrev greeting_form : CaseForm
greeting_form = record {
  input_query = "Hello?";
  expected_output = "Hello";
  expected_context = "";
  node_id = "n1";
  assertion_type = "contains";
  expected_value = "Hello";
}

-- A page whose dialog edits the test case.
abbrev editing : SuiteWorld ℕ
editing = record {
  page = record {
    hub_id = "h1";
    suite_id = "s1";
    suite = some (record { name = "Suite"; target_type = none; target_id = none });
    cases = greeting ∷ [];
    runs = [];
    loading = false;
    error = none;
    active_tab = cases;
    search_query = "";
    is_case_modal_open = true;
    editing_case = some greeting;
    form = greeting_form;
    saving_case = false;
    case_modal_error = none;
    delete_target_case = none;
    eval_framework = both;
    enabled_metrics = ("latency", true) ∷ [];
    thresholds = [];
    is_run_modal_open = false;
    running_benchmark = false;
    expanded_run_id = none;
    generating_synthetic = false;
    notes = [];
  };
  sent = [];
}

suite_step-IsIdle_test : IsIdle (suite_step plain_host (saves (failed none) (ok [])) editing).page
suite_step-IsIdle_test =
    suite_step-IsIdle plain_host (saves (failed none) (ok [])) editing (refl, refl, refl, refl)

payload_of_lem_test :
    let q = payload_of plain_host greeting_form in
    (IsPlain q ⊎ IsWhole plain_host greeting_form q)
    × (q.expected_output ≢ some "")
    × (q.expected_context ≢ some "")
payload_of_lem_test = payload_of_lem plain_host greeting_form

ne_empty : (s : String) → (s == "") ≡ false → s ≢ ""
ne_empty s h = ground (arith, eq_iff s "", h)

greeting-IsStored : IsStored plain_host greeting
greeting-IsStored = record {
  query = (ne_empty "Hello?" refl, refl);
  output = (ne_empty "Hello" refl, refl);
  context = tt;
  node = (ne_empty "n1" refl, refl);
  kind = (ne_empty "contains" refl, refl);
  value = (ne_empty "Hello" refl, refl);
  kind_whole = refl;
  value_whole = refl;
}

payload_of-form_of_example : payload_of plain_host (form_of greeting) ≡ fields_of greeting
payload_of-form_of_example = payload_of-form_of plain_host refl greeting greeting-IsStored

handle_save_case_lem_example :
    let q = handle_save_case plain_host (ok tt) (failed none) editing in
    (q.sent
      ≡ ([] ++ save_request (some greeting) (payload_of plain_host greeting_form) ∷ [])
        ++ followed (ok tt))
    × (shows_error q.page ≡ false)
    × (q.page.cases ≡ greeting ∷ [])
handle_save_case_lem_example =
    handle_save_case_lem plain_host (ok tt) (failed none) editing refl refl

abbrev archived_owner : HubContextValue
archived_owner = record { hub_role = some owner; is_platform_admin = false; is_archived = true }

offers_edit_lem_example :
    (offers_add archived_owner ≡ can archived_owner edit_resource)
    × (offers_delete archived_owner ≡ can archived_owner edit_resource)
    × (offers_edit archived_owner ≡ false)
offers_edit_lem_example = offers_edit_lem archived_owner

-- The request of a run says nothing of the metrics that are chosen.
metrics_not_sent_test :
    (handle_start_benchmark_run plain_host (ok tt) editing).sent ≡ create_run both ∷ []
unfolding handle_start_benchmark_run try_catch
metrics_not_sent_test = refl
