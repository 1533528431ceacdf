-- ===== src/Collections/Events.antt =====
-- frontend/src/components/hubs/ingestion/CollectionsWorkspace.tsx: the events of the page, with the answers
-- to the requests that they send.
use cont_ained.Base.{Bool, String, Option, none, List}
use cont_ained.Base.Action.{Answer}
use cont_ained.Collections.Data.{
  Host, Target, Collection, Datastore, EmbeddingModels, SortBy, CollectionsPage, CollectionsWorld,
  DeleteAnswer, NewCollection,
}
use cont_ained.Collections.{
  fetch_data, select_model, handle_create_submit, confirm_delete, confirm_force_delete,
}

pub data CollectionsEvent : Type 0 where
  fetches :
      Answer (List Collection)
      → Answer (List Datastore)
      → Answer (Option EmbeddingModels)
      → CollectionsEvent
  selects_model : String → CollectionsEvent
  writes_form : NewCollection → CollectionsEvent
  submits : Answer (Unit {0}) → CollectionsEvent
  searches filters : String → CollectionsEvent
  sorts : SortBy → CollectionsEvent
  targets : Option Target → CollectionsEvent
  confirms confirms_force : DeleteAnswer → CollectionsEvent
  cancels_force : CollectionsEvent
  shows_form : Bool → CollectionsEvent

abbrev on_page : (CollectionsPage → CollectionsPage) → CollectionsWorld → CollectionsWorld
on_page f w = record w { page = f w.page }

unfoldable pub collections_step : Host → CollectionsEvent → CollectionsWorld → CollectionsWorld
collections_step host (fetches c d m) w = fetch_data host c d m w
collections_step host (selects_model val) w = on_page (select_model host val) w
collections_step host (writes_form f) w = on_page (λ p. record p { form = f }) w
collections_step host (submits a) w = handle_create_submit host a w
collections_step host (searches q) w = on_page (λ p. record p { search_query = q }) w
collections_step host (filters s) w = on_page (λ p. record p { strategy_filter = s }) w
collections_step host (sorts s) w = on_page (λ p. record p { sort_by = s }) w
collections_step host (targets t) w = on_page (λ p. record p { delete_target = t }) w
collections_step host (confirms a) w = confirm_delete host a w
collections_step host (confirms_force a) w = confirm_force_delete host a w
collections_step host cancels_force w = on_page (λ p. record p { force_delete_target = none }) w
collections_step host (shows_form on) w = on_page (λ p. record p { is_create_open = on }) w
