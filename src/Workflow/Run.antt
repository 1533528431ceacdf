-- ===== src/Workflow/Run.antt =====
-- frontend/src/components/hubs/workflow/WorkflowRunModal.tsx: a run of the workflow and the stream of
-- its events. `V` is the type of what `JSON.parse` returns; the gateway's answers are parameters. A
-- grant that is answered while a run goes on begins a second run, as in the source; the marks tell of
-- the second run alone from then on.
pub mod Ends
pub mod Closed
use cont_ained.Base.{
  or_text, String, Bool, true, false, ◌&&◌, ◌||◌, not, Option, none, some, List, [], ◌∷◌, ◌++◌,
  ◌==◌, if◌then◌else◌,
}

-- What the modal reads of a value: its `status`, unless it has no fields, and the `event` and `data`
-- of a frame, the data as text again.
pub record Values (V : Type 0) : Type 0 where
  pub parse : String → Option V
  pub status : V → Option (Option String)
  pub frame : V → Option (String × String)

-- `NodeEvent`.
pub record NodeEvent (V : Type 0) : Type 0 where
  pub event : String
  pub value : V

-- What `runs.get` returns of a run, as the value that the modal builds of it.
pub record FinishedRun (V : Type 0) : Type 0 where
  pub status : String
  pub summary : V

-- What the modal keeps; `posting`, `streaming`, `asking` and `granting` say what it waits for: the
-- start of a run, the events of an open stream, the run after a lost stream, a grant.
pub record RunModal (V : Type 0) : Type 0 where
  pub is_open : Bool
  pub input_json : String
  pub is_running : Bool
  pub error : Option String
  pub node_events : List (NodeEvent V)
  pub run_end_data : Option V
  pub run_status : Option String
  pub posting : Bool
  pub streaming : Bool
  pub asking : Bool
  pub granting : Bool

module _ {V : Type 0} where
  -- `handleRun` up to its request.
  unfoldable pub handle_run : Values V → RunModal V → RunModal V
  handle_run values m =
      let reset : RunModal V = record m {
        is_running = true;
        error = none;
        node_events = [];
        run_end_data = none;
        run_status = none;
        streaming = false;
      } in
      elim (values.parse m.input_json) [
        | none ↦ record reset { error = some "Invalid JSON input payload!"; is_running = false }
        | some v ↦ record reset { posting = true }
      ]

  -- The rest of `handleRun`: the id of the run, which may be empty, or an error.
  unfoldable pub run_failed : String → RunModal V → RunModal V
  run_failed message m = record m {
    error = some (or_text message "Workflow execution failed!");
    is_running = false;
    posting = false;
  }

  unfoldable pub open_stream : String → RunModal V → RunModal V
  unfolding run_failed
  open_stream run_id m =
      if run_id == ""
      then run_failed "No run_id returned from server" m
      else record m { posting = false; streaming = true }

  -- `handleEvent`.
  unfoldable pub handle_event : Values V → String → String → RunModal V → RunModal V
  handle_event values name raw m = elim (values.parse raw) [
    | none ↦ m
    | some value ↦
        if name == "ping"
        then m
        else if name == "run_end"
        then elim (values.status value) [
          | none ↦ record m { run_end_data = some value }
          | some status ↦ record m {
            run_end_data = some value;
            run_status = status;
            is_running = false;
            streaming = false;
          }
        ]
        else record m { node_events = m.node_events ++ record { event = name; value = value } ∷ [] }
  ]

  -- `onmessage`.
  unfoldable pub on_message : Values V → String → RunModal V → RunModal V
  unfolding handle_event
  on_message values raw m = elim (values.parse raw) [
    | none ↦ m
    | some v ↦ elim (values.frame v) [ none ↦ m | some f ↦ handle_event values f.0 f.1 m ]
  ]

  -- `onerror` up to its request, and after the answer, if there is one.
  unfoldable pub on_error : RunModal V → RunModal V
  on_error m = record m { streaming = false; asking = true }

  unfoldable pub finish_error : Option (FinishedRun V) → RunModal V → RunModal V
  finish_error reply m =
      let lost : RunModal V = record m {
        error = some "SSE stream connection lost. The run may still be completing.";
        is_running = false;
        asking = false;
      } in
      elim reply [
        | none ↦ lost
        | some run ↦
            if (run.status == "succeeded") || (run.status == "failed")
            then record m {
              run_end_data = some run.summary;
              run_status = some run.status;
              is_running = false;
              asking = false;
            }
            else lost
      ]

  -- `handleGrantLink` up to its request, and after the answer.
  unfoldable pub handle_grant_link : RunModal V → RunModal V
  handle_grant_link m = record m { granting = true }

  unfoldable pub finish_grant : Values V → Bool → RunModal V → RunModal V
  unfolding handle_run
  finish_grant values granted m =
      if granted
      then handle_run values (record m { error = none; granting = false })
      else record m { granting = false }

  -- `handleClose`.
  unfoldable pub handle_close : RunModal V → RunModal V
  handle_close m = record m { streaming = false; is_open = false }

-- What happens to the modal.
pub data RunEvent (V : Type 0) : Type 0 where
  opens runs stream_fails grants closes : RunEvent V
  types_input : String → RunEvent V
  run_starts : String → RunEvent V
  run_fails : String → RunEvent V
  named : String → String → RunEvent V
  message : String → RunEvent V
  run_found : Option (FinishedRun V) → RunEvent V
  grant_ends : Bool → RunEvent V

abbrev only_if : {V : Type 0} → Bool → (RunModal V → RunModal V) → RunModal V → RunModal V
only_if b f m = if b then f m else m

abbrev has_text : Option String → Bool
has_text none = false
has_text (some s) = true

-- An event, if what it comes from is there: an enabled control of the open modal, or something that
-- the modal waits for.
unfoldable pub run_step : {V : Type 0} → Values V → RunEvent V → RunModal V → RunModal V
run_step values opens m = record m { is_open = true }
run_step values (types_input v) m =
    only_if (m.is_open && not m.is_running) (λ x. record x { input_json = v }) m
run_step values runs m = only_if (m.is_open && not m.is_running) (handle_run values) m
run_step values (run_starts id) m = only_if m.posting (open_stream id) m
run_step values (run_fails text) m = only_if m.posting (run_failed text) m
run_step values (named name raw) m = only_if m.streaming (handle_event values name raw) m
run_step values (message raw) m = only_if m.streaming (on_message values raw) m
run_step values stream_fails m = only_if m.streaming on_error m
run_step values (run_found reply) m = only_if m.asking (finish_error reply) m
run_step values grants m = only_if (m.is_open && has_text m.error) handle_grant_link m
run_step values (grant_ends granted) m = only_if m.granting (finish_grant values granted) m
run_step values closes m = only_if m.is_open handle_close m

unfoldable pub run_all : {V : Type 0} → Values V → List (RunEvent V) → RunModal V → RunModal V
unfolding run_step
run_all values [] m = m
run_all values (e ∷ events) m = run_all values events (run_step values e m)
