-- ===== src/Suite.antt =====
-- frontend/src/components/hubs/eval/SuiteDetailWorkspace.tsx: the handlers of the page of an evaluation
-- suite. A handler that sends requests takes their answers and runs to its end.
pub mod Data
pub mod Runs
pub mod Shown
pub mod Idle
pub mod Payloads
pub mod Refresh
mod Tests
use cont_ained.Base.{
  text_or, String, Bool, true, false, ◌||◌, ◌&&◌, Option, none, some, List, [], ◌∷◌, ◌++◌, ◌==◌,
  filter, length, if◌then◌else◌,
}
use cont_ained.Base.Dict.{Dict, insert}
use cont_ained.Base.Action.{
  Answer, World, Action, ◌>>=◌, ◌>>◌, update, send, post, await, catch_with, try_catch,
}
use cont_ained.Suite.Data.{
  Host, TestCase, CaseForm, Payload, EvalFramework, both, ragas, deepeval, Tab, Run, EvalSuite,
  Note, success, error, Request, get_suite, list_cases, list_runs, add_case, update_case,
  delete_case, create_run, SuitePage,
}

abbrev pub empty_form : CaseForm
empty_form = record {
  input_query = "";
  expected_output = "";
  expected_context = "";
  node_id = "";
  assertion_type = "";
  expected_value = "";
}

-- The fields that `handleOpenEditCase` fills.
unfoldable pub form_of : TestCase → CaseForm
form_of c = record {
  input_query = text_or c.input_query "";
  expected_output = text_or c.expected_output "";
  expected_context = text_or c.expected_context "";
  node_id = text_or c.node_id "";
  assertion_type = text_or c.assertion_type "";
  expected_value = text_or c.expected_value "";
}

-- `s || undefined`.
abbrev pub or_undefined : String → Option String
or_undefined s = if s == "" then none else some s

abbrev pub SuiteWorld : Type 0 → Type 0
SuiteWorld Num = World (SuitePage Num) Request

-- The request that `handleSaveCase` makes of a payload, and the notification of its success.
unfoldable pub save_request : Option TestCase → Payload → Request
save_request none payload = add_case payload
save_request (some c) payload = update_case c.id payload

unfoldable pub saved_note : Option TestCase → Note
saved_note none = success "Test Case Created" "Custom evaluation test case added to suite."
saved_note (some c) = success "Test Case Updated" "Evaluation test case updated successfully."

module _ {Num : Type 0} where
  -- `!hubId || !suiteId`.
  abbrev pub is_unrouted : SuitePage Num → Bool
  is_unrouted p = p.hub_id == "" || p.suite_id == ""

  -- `addNotification`.
  abbrev pub notify : Note → SuitePage Num → SuitePage Num
  notify n p = record p { notes = p.notes ++ n ∷ [] }

  -- `fetchData`.
  unfoldable pub fetch_data :
      Answer EvalSuite
      → Answer (List TestCase)
      → Answer (List Run)
      → SuiteWorld Num
      → SuiteWorld Num
  fetch_data suite case_list run_list w =
      if is_unrouted w.page
      then w
      else try_catch
          (do
            post get_suite
            post list_cases
            post list_runs
            suite_data ← await suite
            update λ p. record p {
              suite = some suite_data;
              cases = catch_with [] case_list;
              runs = catch_with [] run_list;
            })
          (λ message p. record p {
            error = some (text_or message "Failed to load evaluation suite");
          })
          (λ p. record p { loading = false })
          (record w { page = record w.page { loading = true; error = none } })

  -- `handleOpenAddCase`.
  unfoldable pub handle_open_add_case : SuitePage Num → SuitePage Num
  handle_open_add_case p = record p {
    editing_case = none;
    form = empty_form;
    case_modal_error = none;
    is_case_modal_open = true;
  }

  -- `handleOpenEditCase`.
  unfoldable pub handle_open_edit_case : TestCase → SuitePage Num → SuitePage Num
  unfolding form_of
  handle_open_edit_case c p = record p {
    editing_case = some c;
    form = form_of c;
    case_modal_error = none;
    is_case_modal_open = true;
  }

  -- The payload of `handleSaveCase`.
  unfoldable pub payload_of : Host Num → CaseForm → Payload
  payload_of host f =
      let base : Payload = record {
        input_query = host.trim f.input_query;
        expected_output = or_undefined (host.trim f.expected_output);
        expected_context = or_undefined (host.trim f.expected_context);
        node_id = none;
        assertion_type = none;
        expected_value = none;
      } in
      if host.trim f.node_id == "" || (f.assertion_type == "" || host.trim f.expected_value == "")
      then base
      else record base {
        node_id = some (host.trim f.node_id);
        assertion_type = some f.assertion_type;
        expected_value = some (host.trim f.expected_value);
      }

  -- `handleSaveCase`: the answer to the request that saves, and the new list.
  unfoldable pub handle_save_case :
      Host Num → Answer (Unit {0}) → Answer (List TestCase) → SuiteWorld Num → SuiteWorld Num
  unfolding payload_of save_request saved_note
  handle_save_case host saved updated w =
      let form : CaseForm = w.page.form in
      let editing : Option TestCase = w.page.editing_case in
      if is_unrouted w.page || host.trim form.input_query == ""
      then w
      else try_catch
          (do
            send (save_request editing (payload_of host form)) saved
            update λ p. record (notify (saved_note editing) p) { is_case_modal_open = false }
            updated_cases ← send list_cases updated
            update λ p. record p { cases = updated_cases })
          (λ message p. record p {
            case_modal_error = some (text_or message "Failed to save test case");
          })
          (λ p. record p { saving_case = false })
          (record w { page = record w.page { saving_case = true; case_modal_error = none } })

  -- `handleDeleteCase`.
  unfoldable pub handle_delete_case :
      Answer (Unit {0}) → Answer (List TestCase) → SuiteWorld Num → SuiteWorld Num
  handle_delete_case deleted updated w = elim (w.page.delete_target_case) [
    | none ↦ w
    | some target ↦
        if is_unrouted w.page
        then w
        else try_catch
            (do
              send (delete_case target.id) deleted
              update λ p.
                  record (notify (success "Test Case Deleted" "Test case removed from suite.") p) {
                    delete_target_case = none;
                  }
              updated_cases ← send list_cases updated
              update λ p. record p { cases = updated_cases })
            (λ message p.
              record (notify
                (error "Deletion Failed" (text_or message "Failed to delete test case.")) p) {
                  delete_target_case = none;
                })
            (λ p. p) w
  ]
