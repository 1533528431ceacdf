-- ===== src/Workflow/Run/Ends.antt =====
-- The end of a run in WorkflowRunModal.tsx.
use cont_ained.Base.{Bool, true, false, ◌||◌, ◌&&◌, ◌≡◌, arith}
use cont_ained.Workflow.Run.{
  Values, RunModal, RunEvent, opens, runs, stream_fails, grants, closes, types_input, run_starts,
  run_fails, named, message, run_found, grant_ends, handle_run, run_failed, open_stream,
  handle_event, on_message, on_error, finish_error, handle_grant_link, finish_grant, handle_close,
  run_step,
}

-- What the modal waits for, as far as a run goes.
abbrev pub waits : {V : Type 0} → RunModal V → Bool
waits m = m.posting || (m.streaming || m.asking)

abbrev pub is_closing : {V : Type 0} → RunEvent V → Bool
is_closing closes = true
is_closing e = false

-- A grant is given while the modal shows a run: the modal then begins a second run.
abbrev pub is_regrant : {V : Type 0} → RunEvent V → RunModal V → Bool
is_regrant (grant_ends granted) m = granted && m.is_running
is_regrant e m = false

-- The modal shows a run exactly while it waits for one thing.
abbrev pub IsServed : {V : Type 0} → RunModal V → Type 0
IsServed m =
    (m.is_running ≡ waits m)
    × (((m.posting && (m.streaming || m.asking)) ≡ false) × ((m.streaming && m.asking) ≡ false))

-- If the modal shows a run exactly while it waits, and waits for one thing at a time, for the run to
-- start, for its events or for its result, then that is so after every event but the close of the
-- modal and a grant that is given while the modal shows a run.
pub run_step-IsServed :
    {V : Type 0} (values : Values V) (e : RunEvent V) (m : RunModal V)
    → is_closing e ≡ false
    → is_regrant e m ≡ false
    → IsServed m
    → IsServed (run_step values e m)
unfolding run_step handle_run run_failed open_stream handle_event on_message on_error finish_error
    handle_grant_link finish_grant handle_close
run_step-IsServed values opens m c g h = h
run_step-IsServed values (types_input v) m c g h = ground arith
run_step-IsServed values runs m c g h = ground arith
run_step-IsServed values (run_starts id) m c g h = ground arith
run_step-IsServed values (run_fails text) m c g h = ground arith
run_step-IsServed values (named name raw) m c g h = ground arith
run_step-IsServed values (message raw) m c g h = ground arith
run_step-IsServed values stream_fails m c g h = ground arith
run_step-IsServed values (run_found reply) m c g h = ground arith
run_step-IsServed values grants m c g h = ground arith
run_step-IsServed values (grant_ends granted) m c g h = ground arith
run_step-IsServed values closes m c g h = ground arith
