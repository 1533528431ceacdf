-- ===== src/Collections.antt =====
-- frontend/src/components/hubs/ingestion/CollectionsWorkspace.tsx: the collections of an ingestion hub.
-- What the page takes from JavaScript's texts and `sort` is a parameter; handlers run to their end.
pub mod Data
pub mod Events
pub mod Refusals
pub mod Asked
mod Tests
use cont_ained.Base.{
  ℕ, String, Bool, true, false, ◌&&◌, ◌||◌, not, Option, none, some, List, [], ◌∷◌, ◌++◌, ◌==◌, map,
  any, filter, find, get_or, eqb, leb, or_text, if◌then◌else◌,
}
use cont_ained.Collections.Data.{
  Collection, Datastore, Model, EmbeddingModels, Host, SortBy, Note, NewCollection, Target,
  CollectionsPage, Request, CollectionsWorld, DeleteAnswer, vectors, date, deleted, refused,
  list_collections, list_datastores, get_models, create_collection, delete_collection, success,
  error, name,
}
use cont_ained.Base.Action.{
  Answer, ok, failed, World, ◌>>=◌, ◌>>◌, post, await, catch_with, update, send, try_catch,
}

-- `items.some(...)` of `fetchData`, and the models that it offers.
abbrev offered : Host → Model → List Model → Bool
offered host e items =
    any (λ m. m.id == e.id || host.to_lower_case m.name == host.to_lower_case e.name) items

unfoldable pub push_available : Host → List Model → List Model → List Model
push_available host [] items = items
push_available host (e ∷ entries) items =
    push_available host entries (if offered host e items then items else items ++ e ∷ [])

unfoldable pub models_of : Host → Option EmbeddingModels → List Model
unfolding push_available
models_of host none = []
models_of host (some r) =
    push_available host r.available (elim r.active [ none ↦ [] | some e ↦ e ∷ [] ])

-- The datastore and the model that `fetchData` chooses; the dimension stays.
unfoldable pub choose_first : List Datastore → List Model → CollectionsPage → CollectionsPage
choose_first stores models p = record p {
  datastores = stores;
  available_models = elim models [ [] ↦ p.available_models | m ∷ rest ↦ m ∷ rest ];
  form = record p.form {
    datastore_binding_id = elim stores [ [] ↦ p.form.datastore_binding_id | d ∷ rest ↦ d.id ];
    embedding_model = elim models [ [] ↦ p.form.embedding_model | m ∷ rest ↦ m.id ];
  };
}

-- `fetchData`; no answer for the models is taken for an empty one.
unfoldable pub fetch_data :
    Host
    → Answer (List Collection)
    → Answer (List Datastore)
    → Answer (Option EmbeddingModels)
    → CollectionsWorld
    → CollectionsWorld
unfolding models_of choose_first
fetch_data host cols stores models w =
    if w.page.hub_id == ""
    then w
    else try_catch
        (do
          post list_collections
          post list_datastores
          post get_models
          col_res ← await cols
          ds_res ← await stores
          update λ p.
              choose_first ds_res (models_of host (catch_with none models))
                (record p { collections = col_res }))
        (λ message p. record p {
          error = some (or_text (get_or message "") "Failed to load workspace data");
        })
        (λ p. record p { loading = false })
        (record w { page = record w.page { loading = true; error = none } })

-- `setEmbeddingModel` of the selector, with the dimension that the model's name tells.
unfoldable pub dimension_of : Host → String → ℕ
dimension_of host val =
    let has : String → Bool = λ part. host.includes (host.to_lower_case val) part in
    if has "harrier" || (has "bge" || (has "nomic" || has "768"))
    then 768
    else if has "clip" || has "1024"
    then 1024
    else if has "small" || has "1536"
    then 1536
    else if has "large" || has "3072"
    then 3072
    else 768

unfoldable pub select_model : Host → String → CollectionsPage → CollectionsPage
unfolding dimension_of
select_model host val p = record p {
  form = record p.form { embedding_model = val; vector_dimension = dimension_of host val };
}

-- `handleCreateSubmit`, up to the `fetchData` that a success begins.
unfoldable pub handle_create_submit : Host → Answer (Unit {0}) → CollectionsWorld → CollectionsWorld
handle_create_submit host created w =
    let form : NewCollection = w.page.form in
    if w.page.hub_id == "" || host.trim form.name == ""
    then w
    else try_catch
        (do
          send (create_collection (record form { name = host.trim form.name })) created
          update λ p. record p {
            is_create_open = false;
            form = record p.form { name = ""; description = "" };
          })
        (λ message p. record p {
          create_error = some (or_text (get_or message "") "Failed to create collection");
        })
        (λ p. record p { create_submitting = false })
        (record w { page = record w.page { create_submitting = true; create_error = none } })

-- `err?.status === 409 || msg.toLowerCase().includes("not empty")`.
unfoldable pub is_not_empty : Host → Option ℕ → String → Bool
is_not_empty host status message =
    elim status [ none ↦ false | some n ↦ eqb n 409 ]
    || host.includes (host.to_lower_case message) "not empty"

-- The name in the dialog that asks again.
unfoldable pub force_name : String → CollectionsPage → String
force_name id p =
    or_text (elim p.delete_target [ none ↦ "" | some t ↦ t.name ])
      (or_text (elim (find (λ c. c.id == id) p.collections) [ none ↦ "" | some c ↦ c.name ])
        "Collection")

-- `handleDeleteCollection` after the answer to its request, without the `fetchData` that a success
-- begins; what it reads of the page is what it saw when it began.
unfoldable pub after_delete :
    Host → String → Bool → CollectionsPage → DeleteAnswer → CollectionsPage → CollectionsPage
unfolding is_not_empty force_name
after_delete host id force seen deleted p = record p {
  notes =
      p.notes
      ++ success "Collection Deleted" (
          if force
          then "Collection and all contained documents force deleted."
          else "Collection deleted successfully.")
        ∷ [];
  delete_target = none;
  force_delete_target = none;
  is_deleting = false;
}
after_delete host id force seen (refused status message) p =
    if not force && is_not_empty host status message
    then record p {
      delete_target = none;
      force_delete_target = some (record { id = id; name = force_name id seen });
      is_deleting = false;
    }
    else record p {
      notes =
          p.notes
          ++ error "Failed to Delete Collection" (or_text message "An unexpected error occurred")
            ∷ [];
      delete_target = none;
      force_delete_target = none;
      is_deleting = false;
    }

unfoldable pub handle_delete_collection :
    Host → String → Bool → DeleteAnswer → CollectionsWorld → CollectionsWorld
unfolding after_delete
handle_delete_collection host id force answer w = if w.page.hub_id == "" then w else record {
  page = after_delete host id force w.page answer w.page;
  sent = w.sent ++ delete_collection id force ∷ [];
}

-- The confirmations of the two dialogs, which are open where there is a target.
unfoldable pub confirmed :
    Host → Bool → DeleteAnswer → CollectionsWorld → Option Target → CollectionsWorld
unfolding handle_delete_collection
confirmed host force answer w none = w
confirmed host force answer w (some t) = handle_delete_collection host t.id force answer w

unfoldable pub confirm_delete : Host → DeleteAnswer → CollectionsWorld → CollectionsWorld
confirm_delete host answer w = confirmed host false answer w w.page.delete_target

unfoldable pub confirm_force_delete : Host → DeleteAnswer → CollectionsWorld → CollectionsWorld
confirm_force_delete host answer w = confirmed host true answer w w.page.force_delete_target

-- `filteredCollections`.
abbrev may_precede : Host → SortBy → Collection → Collection → Bool
may_precede host name a b = host.by_name a.name b.name
may_precede host vectors a b = leb b.vector_count a.vector_count
may_precede host date a b = leb (host.time b.created_at) (host.time a.created_at)

unfoldable pub filtered_collections : Host → CollectionsPage → List Collection
filtered_collections host p =
    let q : String = host.trim (host.to_lower_case p.search_query) in
    let searched : List Collection =
      if host.trim p.search_query == ""
      then p.collections
      else filter
          (λ c.
            host.includes (host.to_lower_case c.name) q
            || (not (c.description == "") && host.includes (host.to_lower_case c.description) q))
          p.collections in
    let kept : List Collection =
      if p.strategy_filter == "all"
      then searched
      else filter (λ c. or_text c.strategy "vector" == p.strategy_filter) searched in
    host.sort (may_precede host p.sort_by) kept
