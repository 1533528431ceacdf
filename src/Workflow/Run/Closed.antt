-- ===== src/Workflow/Run/Closed.antt =====
-- The close of the modal of WorkflowRunModal.tsx while a run streams.
use cont_ained.Base.{true, false, none, List, [], ◌∷◌, ◌≡◌, arith}
use cont_ained.Workflow.Run.{
  Values, RunModal, RunEvent, opens, runs, stream_fails, grants, closes, types_input, run_starts,
  run_fails, named, message, run_found, grant_ends, handle_close, run_step, run_all,
}

-- The modal shows a run and waits for nothing.
abbrev pub IsStuck : {V : Type 0} → RunModal V → Type 0
IsStuck m =
    ((m.is_running ≡ true) × (m.error ≡ none))
    × ((m.posting ≡ false) × ((m.streaming ≡ false) × ((m.asking ≡ false) × (m.granting ≡ false))))

run_step-IsStuck :
    {V : Type 0} (values : Values V) (e : RunEvent V) (m : RunModal V)
    → IsStuck m
    → IsStuck (run_step values e m)
unfolding run_step handle_close
run_step-IsStuck values opens m h = h
run_step-IsStuck values (types_input v) m h = ground arith
run_step-IsStuck values runs m h = ground arith
run_step-IsStuck values (run_starts id) m h = ground arith
run_step-IsStuck values (run_fails text) m h = ground arith
run_step-IsStuck values (named name raw) m h = ground arith
run_step-IsStuck values (message raw) m h = ground arith
run_step-IsStuck values stream_fails m h = ground arith
run_step-IsStuck values (run_found reply) m h = ground arith
run_step-IsStuck values grants m h = ground arith
run_step-IsStuck values (grant_ends granted) m h = ground arith
run_step-IsStuck values closes m h = ground arith

run_all-IsStuck :
    {V : Type 0} (values : Values V) (events : List (RunEvent V)) (m : RunModal V)
    → IsStuck m
    → IsStuck (run_all values events m)
unfolding run_all
run_all-IsStuck values [] m h = h
run_all-IsStuck values (e ∷ events) m h =
    run_all-IsStuck values events (run_step values e m) (run_step-IsStuck values e m h)

-- If the open modal is closed while a run streams and nothing else is awaited, it shows that run for
-- good: whatever happens then, opening the modal and the button that runs included, it starts no run
-- and receives no event.
pub closes_for_good :
    {V : Type 0} (values : Values V) (events : List (RunEvent V)) (m : RunModal V)
    → m.is_open ≡ true
    → ((m.is_running ≡ true) × (m.error ≡ none))
      × ((m.posting ≡ false) × ((m.asking ≡ false) × (m.granting ≡ false)))
    → IsStuck (run_all values events (run_step values closes m))
unfolding run_step handle_close
closes_for_good values events m o h =
    run_all-IsStuck values events (run_step values closes m) (ground arith)
