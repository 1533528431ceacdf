-- ===== src/Suite/Refresh.antt =====
-- frontend/src/components/hubs/eval/SuiteDetailWorkspace.tsx: what the page shows when a request of
-- `handleSaveCase`, `handleDeleteCase` or `handleGenerateSynthetic` fails.
use cont_ained.Base.{
  text_or, String, Bool, true, false, ◌&&◌, ◌||◌, Option, some, List, [], ◌∷◌, ◌++◌, ◌==◌, ◌≡◌,
  refl, sym, is_some,
}
use mathlib.Core.List.{append-nil}
use cont_ained.Base.Action.{Answer, ok, failed, try_catch}
use cont_ained.Suite.Data.{Host, TestCase, success, error, Request, list_cases, SuitePage}
use cont_ained.Suite.{
  SuiteWorld, is_unrouted, save_request, payload_of, handle_save_case, handle_delete_case,
}

abbrev pub is_failed : {A : Type 0} → Answer A → Bool
is_failed (ok a) = false
is_failed (failed e) = true

-- The cases after a change that is answered so, and the requests that follow it.
abbrev pub listed : Answer (Unit {0}) → Answer (List TestCase) → List TestCase → List TestCase
listed (ok _) (ok cases) old = cases
listed (ok _) (failed e) old = old
listed (failed e) updated old = old

abbrev pub followed : Answer (Unit {0}) → List Request
followed (ok _) = list_cases ∷ []
followed (failed e) = []

module _ {Num : Type 0} where
  -- The dialog shows an error.
  abbrev pub shows_error : SuitePage Num → Bool
  shows_error p = p.is_case_modal_open && is_some p.case_modal_error

  -- If a case with a query is saved in the open dialog, the one request that saves it is sent, and
  -- the list is fetched again exactly if that succeeds. The dialog shows an error exactly if the
  -- first request fails; if only the list fails, the page keeps the old cases and shows no error.
  pub handle_save_case_lem :
      (host : Host Num) (saved : Answer (Unit {0})) (updated : Answer (List TestCase))
      (w : SuiteWorld Num)
      → (is_unrouted w.page || (host.trim w.page.form.input_query == "")) ≡ false
      → w.page.is_case_modal_open ≡ true
      → let q = handle_save_case host saved updated w in
        (q.sent
          ≡ (w.sent ++ save_request w.page.editing_case (payload_of host w.page.form) ∷ [])
            ++ followed saved)
        × (shows_error q.page ≡ is_failed saved)
        × (q.page.cases ≡ listed saved updated w.page.cases)
  unfolding handle_save_case try_catch
  handle_save_case_lem host (failed e) updated w h is_open =
      rw h (sym (append-nil _), rw is_open refl, refl)
  handle_save_case_lem host (ok _) (failed e) w h is_open = rw h (refl, refl, refl)
  handle_save_case_lem host (ok _) (ok cases) w h is_open = rw h (refl, refl, refl)

  -- A deletion that succeeds is reported as failed too, if the list fails after it.
  pub handle_delete_case_notes :
      (c : TestCase) (message : Option String) (w : SuiteWorld Num)
      → w.page.delete_target_case ≡ some c
      → is_unrouted w.page ≡ false
      → let q = handle_delete_case (ok tt) (failed message) w in
        (q.page.notes
          ≡ (w.page.notes ++ success "Test Case Deleted" "Test case removed from suite." ∷ [])
            ++ error "Deletion Failed" (text_or message "Failed to delete test case.") ∷ [])
        × (q.page.cases ≡ w.page.cases)
  unfolding handle_delete_case try_catch
  handle_delete_case_notes c message w target routed = rw (target, routed) (refl, refl)
