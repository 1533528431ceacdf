-- ===== src/Suite/Runs.antt =====
-- frontend/src/components/hubs/eval/SuiteDetailWorkspace.tsx: the runs of a suite, their settings, and
-- the cases that the page writes by itself.
use Prim.Native.String.{◌++◌}
use cont_ained.Base.{
  text_or, String, Bool, true, false, Option, none, some, List, ◌==◌, filter, length, if◌then◌else◌,
}
use cont_ained.Base.Dict.{Dict, insert}
use cont_ained.Base.Action.{Answer, ◌>>=◌, ◌>>◌, update, send, try_catch}
use cont_ained.Suite.Data.{
  Host, TestCase, Payload, EvalFramework, both, ragas, deepeval, Tab, Run, Note, success, error,
  list_cases, list_runs, add_case, create_run, SuitePage,
}
use cont_ained.Suite.{SuiteWorld, is_unrouted, notify}

unfoldable pub framework_name : EvalFramework → String
framework_name both = "both"
framework_name ragas = "ragas"
framework_name deepeval = "deepeval"

-- The two cases of `handleGenerateSynthetic`.
abbrev pub synthetic_case : String → String → String → Payload
synthetic_case query output context = record {
  input_query = query;
  expected_output = some output;
  expected_context = some context;
  node_id = none;
  assertion_type = none;
  expected_value = none;
}

abbrev pub first_auto_case : Payload
first_auto_case =
    synthetic_case "What are the core capabilities and architecture of the system?"
      "The system provides modular agent orchestration, vector retrieval, and multi-tenant isolation."
      "Architecture section of system document."

abbrev pub second_auto_case : Payload
second_auto_case =
    synthetic_case "Explain the error handling and fallback behavior."
      "Fallback completions are triggered automatically upon primary model failure with zero downtime."
      "Reliability and fallback documentation."

-- `Object.keys(enabledMetrics).filter((k) => enabledMetrics[k])`.
abbrev pub active_metrics : Dict Bool → Dict Bool
active_metrics d = filter (λ m. m.1) d

abbrev is_expanded : Option String → String → Bool
is_expanded none id = false
is_expanded (some x) id = x == id

module _ {Num : Type 0} where
  abbrev dispatched_note : Host Num → SuitePage Num → Note
  dispatched_note host p = success "Benchmark Run Dispatched" (
      "Evaluation run started using "
      ++ (host.to_upper_case (framework_name p.eval_framework)
          ++ (" with "
              ++ (host.show_count (length (active_metrics p.enabled_metrics)) ++ " metrics."))))

  -- `handleStartBenchmarkRun`, up to the timer that it starts.
  unfoldable pub handle_start_benchmark_run :
      Host Num → Answer (Unit {0}) → SuiteWorld Num → SuiteWorld Num
  unfolding framework_name
  handle_start_benchmark_run host created w =
      let seen : SuitePage Num = w.page in
      if is_unrouted seen
      then w
      else try_catch
          (do
            send (create_run seen.eval_framework) created
            update λ p. record (notify (dispatched_note host seen) p) {
              is_run_modal_open = false;
              active_tab = Tab.runs;
            })
          (λ message p.
            notify
              (error "Run Failed to Start" (text_or message "Failed to dispatch evaluation run."))
              p)
          (λ p. record p { running_benchmark = false })
          (record w { page = record seen { running_benchmark = true } })

  -- The timer's callback; nothing catches what it throws.
  unfoldable pub refresh_runs : Answer (List Run) → SuiteWorld Num → SuiteWorld Num
  refresh_runs fresh w =
      ((do fresh_runs ← send list_runs fresh; update λ p. record p { runs = fresh_runs }) w).1

  -- `handleGenerateSynthetic`.
  unfoldable pub handle_generate_synthetic :
      Answer (Unit {0})
      → Answer (Unit {0})
      → Answer (List TestCase)
      → SuiteWorld Num
      → SuiteWorld Num
  handle_generate_synthetic first second updated w =
      if is_unrouted w.page
      then w
      else try_catch
          (do
            send (add_case first_auto_case) first
            send (add_case second_auto_case) second
            update (
                notify (
                  success "Synthetic Test Cases Generated"
                    "Added 2 synthetic test cases to the suite."))
            updated_cases ← send list_cases updated
            update λ p. record p { cases = updated_cases })
          (λ message p.
            notify
              (error "Synthetic Generation Failed"
                (text_or message "Could not generate synthetic test cases."))
              p)
          (λ p. record p { generating_synthetic = false })
          (record w { page = record w.page { generating_synthetic = true } })

  -- The boxes and fields of the strategies tab.
  unfoldable pub set_metric : String → Bool → SuitePage Num → SuitePage Num
  set_metric k on p = record p { enabled_metrics = insert k on p.enabled_metrics }

  unfoldable pub set_threshold : Host Num → String → String → SuitePage Num → SuitePage Num
  set_threshold host k value p = record p {
    thresholds =
        insert k
          (if k == "latency_ms"
            then if host.truthy (host.parse_int value)
              then host.parse_int value
              else host.default_latency
            else host.parse_float value)
          p.thresholds;
  }

  -- The button that opens and closes a run.
  unfoldable pub expand_run : Run → SuitePage Num → SuitePage Num
  expand_run r p = record p {
    expanded_run_id = if is_expanded p.expanded_run_id r.id then none else some r.id;
  }
