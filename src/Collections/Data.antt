-- ===== src/Collections/Data.antt =====
-- frontend/src/components/hubs/ingestion/CollectionsWorkspace.tsx: what the page of the collections keeps,
-- and the requests that it sends.
use cont_ained.Base.{ℕ, String, Bool, Option, List}
use cont_ained.Base.Action.{World}

-- A collection, a datastore and a model of the registry, as far as the page reads them.
pub record Collection : Type 0 where
  pub id : String
  pub name : String
  pub description : String
  pub strategy : String
  pub vector_count : ℕ
  pub created_at : String

pub record Datastore : Type 0 where
  pub id : String

pub record Model : Type 0 where
  pub id : String
  pub name : String

-- `modRes.embedding`.
pub record EmbeddingModels : Type 0 where
  pub active : Option Model
  pub available : List Model

-- What the page takes from JavaScript; `sort` gets the test that an item may stand before another.
pub record Host : Type 0 where
  pub trim : String → String
  pub to_lower_case : String → String
  pub includes : String → String → Bool
  pub by_name : String → String → Bool
  pub time : String → ℕ
  pub sort : (Collection → Collection → Bool) → List Collection → List Collection

pub data SortBy : Type 0 where
  name vectors date : SortBy

pub data Note : Type 0 where
  success error : String → String → Note

-- The form of a new collection, which is also what is sent, with the trimmed name; an empty binding
-- is left out then.
pub record NewCollection : Type 0 where
  pub name : String
  pub description : String
  pub embedding_model : String
  pub vector_dimension : ℕ
  pub strategy : String
  pub datastore_binding_id : String

-- `{ id, name }` of a collection that is to be deleted.
pub record Target : Type 0 where
  pub id : String
  pub name : String

pub record CollectionsPage : Type 0 where
  pub hub_id : String
  pub collections : List Collection
  pub loading : Bool
  pub error : Option String
  pub search_query : String
  pub strategy_filter : String
  pub sort_by : SortBy
  pub is_create_open : Bool
  pub form : NewCollection
  pub create_submitting : Bool
  pub create_error : Option String
  pub datastores : List Datastore
  pub available_models : List Model
  pub delete_target : Option Target
  pub force_delete_target : Option Target
  pub is_deleting : Bool
  pub notes : List Note

pub data Request : Type 0 where
  list_collections list_datastores get_models : Request
  create_collection : NewCollection → Request
  delete_collection : String → Bool → Request

abbrev pub CollectionsWorld : Type 0
CollectionsWorld = World CollectionsPage Request

-- What a deletion is answered: an error has a status, where it has one, and a message.
pub data DeleteAnswer : Type 0 where
  deleted : DeleteAnswer
  refused : Option ℕ → String → DeleteAnswer
