-- ===== src/Suite/Idle.antt =====
-- frontend/src/components/hubs/eval/SuiteDetailWorkspace.tsx: the marks of a handler that runs.
use cont_ained.Base.{String, Bool, false, Option, List, ◌≡◌, arith}
use cont_ained.Base.Action.{Answer, ok, failed, try_catch}
use cont_ained.Suite.Data.{Host, TestCase, CaseForm, EvalFramework, Tab, Run, EvalSuite, SuitePage}
use cont_ained.Suite.{
  SuiteWorld, fetch_data, handle_open_add_case, handle_open_edit_case, handle_save_case,
  handle_delete_case,
}
use cont_ained.Suite.Runs.{
  handle_start_benchmark_run, refresh_runs, handle_generate_synthetic, set_metric, set_threshold,
  expand_run,
}

-- What happens to the page, with the answers to the requests that it sends.
pub data SuiteEvent : Type 0 where
  fetches : Answer EvalSuite → Answer (List TestCase) → Answer (List Run) → SuiteEvent
  opens_add : SuiteEvent
  opens_edit : TestCase → SuiteEvent
  writes_form : CaseForm → SuiteEvent
  saves : Answer (Unit {0}) → Answer (List TestCase) → SuiteEvent
  targets : Option TestCase → SuiteEvent
  deletes : Answer (Unit {0}) → Answer (List TestCase) → SuiteEvent
  starts_run : Answer (Unit {0}) → SuiteEvent
  refreshes_runs : Answer (List Run) → SuiteEvent
  generates : Answer (Unit {0}) → Answer (Unit {0}) → Answer (List TestCase) → SuiteEvent
  sets_metric : String → Bool → SuiteEvent
  sets_threshold : String → String → SuiteEvent
  chooses_framework : EvalFramework → SuiteEvent
  searches : String → SuiteEvent
  shows_tab : Tab → SuiteEvent
  expands : Run → SuiteEvent
  shows_run_modal : Bool → SuiteEvent
  closes_case_modal : SuiteEvent

module _ {Num : Type 0} where
  abbrev pub on_page : (SuitePage Num → SuitePage Num) → SuiteWorld Num → SuiteWorld Num
  on_page f w = record w { page = f w.page }

  unfoldable pub suite_step : Host Num → SuiteEvent → SuiteWorld Num → SuiteWorld Num
  suite_step host (fetches s c r) w = fetch_data s c r w
  suite_step host opens_add w = on_page handle_open_add_case w
  suite_step host (opens_edit c) w = on_page (handle_open_edit_case c) w
  suite_step host (writes_form f) w = on_page (λ p. record p { form = f }) w
  suite_step host (saves a l) w = handle_save_case host a l w
  suite_step host (targets c) w = on_page (λ p. record p { delete_target_case = c }) w
  suite_step host (deletes a l) w = handle_delete_case a l w
  suite_step host (starts_run a) w = handle_start_benchmark_run host a w
  suite_step host (refreshes_runs r) w = refresh_runs r w
  suite_step host (generates a b l) w = handle_generate_synthetic a b l w
  suite_step host (sets_metric k on) w = on_page (set_metric k on) w
  suite_step host (sets_threshold k v) w = on_page (set_threshold host k v) w
  suite_step host (chooses_framework f) w = on_page (λ p. record p { eval_framework = f }) w
  suite_step host (searches q) w = on_page (λ p. record p { search_query = q }) w
  suite_step host (shows_tab t) w = on_page (λ p. record p { active_tab = t }) w
  suite_step host (expands r) w = on_page (expand_run r) w
  suite_step host (shows_run_modal on) w = on_page (λ p. record p { is_run_modal_open = on }) w
  suite_step host closes_case_modal w = on_page (λ p. record p { is_case_modal_open = false }) w

  -- Nothing runs: no spinner, and no button that waits.
  abbrev pub IsIdle : SuitePage Num → Type 0
  IsIdle p =
      (p.loading ≡ false)
      × (p.saving_case ≡ false)
      × (p.running_benchmark ≡ false)
      × (p.generating_synthetic ≡ false)

  fetch_data-IsIdle :
      (s : Answer EvalSuite) (c : Answer (List TestCase)) (r : Answer (List Run))
      (w : SuiteWorld Num)
      → IsIdle w.page
      → IsIdle (fetch_data s c r w).page
  unfolding fetch_data try_catch
  fetch_data-IsIdle (ok s) c r w h = ground arith
  fetch_data-IsIdle (failed s) c r w h = ground arith

  handle_save_case-IsIdle :
      (host : Host Num) (a : Answer (Unit {0})) (l : Answer (List TestCase)) (w : SuiteWorld Num)
      → IsIdle w.page
      → IsIdle (handle_save_case host a l w).page
  unfolding handle_save_case try_catch
  handle_save_case-IsIdle host (failed e) l w h = ground arith
  handle_save_case-IsIdle host (ok _) (failed e) w h = ground arith
  handle_save_case-IsIdle host (ok _) (ok cs) w h = ground arith

  handle_delete_case-IsIdle :
      (a : Answer (Unit {0})) (l : Answer (List TestCase)) (w : SuiteWorld Num)
      → IsIdle w.page
      → IsIdle (handle_delete_case a l w).page
  unfolding handle_delete_case try_catch
  handle_delete_case-IsIdle (failed e) l w h = ground arith
  handle_delete_case-IsIdle (ok _) (failed e) w h = ground arith
  handle_delete_case-IsIdle (ok _) (ok cs) w h = ground arith

  handle_start_benchmark_run-IsIdle :
      (host : Host Num) (a : Answer (Unit {0})) (w : SuiteWorld Num)
      → IsIdle w.page
      → IsIdle (handle_start_benchmark_run host a w).page
  unfolding handle_start_benchmark_run try_catch
  handle_start_benchmark_run-IsIdle host (failed e) w h = ground arith
  handle_start_benchmark_run-IsIdle host (ok _) w h = ground arith

  handle_generate_synthetic-IsIdle :
      (a b : Answer (Unit {0})) (l : Answer (List TestCase)) (w : SuiteWorld Num)
      → IsIdle w.page
      → IsIdle (handle_generate_synthetic a b l w).page
  unfolding handle_generate_synthetic try_catch
  handle_generate_synthetic-IsIdle (failed e) b l w h = ground arith
  handle_generate_synthetic-IsIdle (ok _) (failed e) l w h = ground arith
  handle_generate_synthetic-IsIdle (ok _) (ok _) (failed e) w h = ground arith
  handle_generate_synthetic-IsIdle (ok _) (ok _) (ok cs) w h = ground arith

  refresh_runs-IsIdle :
      (r : Answer (List Run)) (w : SuiteWorld Num) → IsIdle w.page → IsIdle (refresh_runs r w).page
  unfolding refresh_runs
  refresh_runs-IsIdle (failed e) w h = h
  refresh_runs-IsIdle (ok rs) w h = h

  -- A page on which nothing runs is such a page again when a handler has ended, whatever its
  -- requests were answered: every mark that a handler sets is taken back.
  pub suite_step-IsIdle :
      (host : Host Num) (e : SuiteEvent) (w : SuiteWorld Num)
      → IsIdle w.page
      → IsIdle (suite_step host e w).page
  unfolding suite_step handle_open_add_case handle_open_edit_case set_metric set_threshold
      expand_run
  suite_step-IsIdle host (fetches s c r) w h = fetch_data-IsIdle s c r w h
  suite_step-IsIdle host opens_add w h = h
  suite_step-IsIdle host (opens_edit c) w h = h
  suite_step-IsIdle host (writes_form f) w h = h
  suite_step-IsIdle host (saves a l) w h = handle_save_case-IsIdle host a l w h
  suite_step-IsIdle host (targets c) w h = h
  suite_step-IsIdle host (deletes a l) w h = handle_delete_case-IsIdle a l w h
  suite_step-IsIdle host (starts_run a) w h = handle_start_benchmark_run-IsIdle host a w h
  suite_step-IsIdle host (refreshes_runs r) w h = refresh_runs-IsIdle r w h
  suite_step-IsIdle host (generates a b l) w h = handle_generate_synthetic-IsIdle a b l w h
  suite_step-IsIdle host (sets_metric k on) w h = h
  suite_step-IsIdle host (sets_threshold k v) w h = h
  suite_step-IsIdle host (chooses_framework f) w h = h
  suite_step-IsIdle host (searches q) w h = h
  suite_step-IsIdle host (shows_tab t) w h = h
  suite_step-IsIdle host (expands r) w h = h
  suite_step-IsIdle host (shows_run_modal on) w h = h
  suite_step-IsIdle host closes_case_modal w h = h
