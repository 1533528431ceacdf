-- ===== src/Collections/Tests.antt =====
-- The collections of a hub on small inputs; the host trims nothing and sorts nothing.
use cont_ained.Base.{true, false, none, some, [], ◌∷◌, ◌==◌, ◌≡◌, refl}
use cont_ained.Base.Action.{ok, try_catch}
use cont_ained.Collections.Data.{
  Host, Model, Target, CollectionsWorld, name, refused, deleted, delete_collection,
}
use cont_ained.Collections.{
  fetch_data, confirmed, confirm_delete, confirm_force_delete, dimension_of,
}

abbrev plain_host : Host
plain_host = record {
  trim = λ s. s;
  to_lower_case = λ s. s;
  includes = λ s t. s == t;
  by_name = λ s t. true;
  time = λ s. 0;
  sort = λ before l. l;
}

abbrev notes_target : Target
notes_target = record { id = "c1"; name = "Notes" }

-- A page whose first dialog asks about a collection.
abbrev asking : CollectionsWorld
asking = record {
  page = record {
    hub_id = "h1";
    collections = [];
    loading = false;
    error = none;
    search_query = "";
    strategy_filter = "all";
    sort_by = name;
    is_create_open = false;
    form = record {
      name = "";
      description = "";
      embedding_model = "text-embedding-3-small";
      vector_dimension = 1536;
      strategy = "vector";
      datastore_binding_id = "";
    };
    create_submitting = false;
    create_error = none;
    datastores = [];
    available_models = [];
    delete_target = some notes_target;
    force_delete_target = none;
    is_deleting = false;
    notes = [];
  };
  sent = [];
}

-- The page once the deletion was refused.
abbrev asking_again : CollectionsWorld
asking_again = record {
  page = record asking.page { delete_target = none; force_delete_target = some notes_target };
  sent = delete_collection "c1" false ∷ [];
}

refused_test : confirm_delete plain_host (refused (some 409) "") asking ≡ asking_again
unfolding confirm_delete confirmed
refused_test = refl

forced_test :
    (confirm_force_delete plain_host deleted asking_again).sent
    ≡ delete_collection "c1" false ∷ delete_collection "c1" true ∷ []
unfolding confirm_force_delete confirmed
forced_test = refl

abbrev large : Model
large = record { id = "large"; name = "Large" }

-- The model that the page chooses by itself keeps the dimension of another one.
fetch_data_test :
    let q =
      fetch_data plain_host
        (ok [])
        (ok [])
        (ok (some (record { active = some large; available = [] })))
        asking in
    (q.page.form.embedding_model ≡ "large") × (q.page.form.vector_dimension ≡ 1536)
unfolding fetch_data try_catch
fetch_data_test = (refl, refl)

dimension_of_test : dimension_of plain_host "large" ≡ 3072
unfolding dimension_of
dimension_of_test = refl
