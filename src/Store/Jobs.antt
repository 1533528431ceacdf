-- ===== src/Store/Jobs.antt =====
-- frontend/src/store/ingestionSlice.ts. `N` stands for JavaScript's numbers, which the slice only
-- stores.
pub mod Unique
use cont_ained.Base.{
  ℕ, String, Bool, true, false, Option, none, some, List, [], ◌∷◌, ◌==◌, any, map, get_or,
  if◌then◌else◌,
}

-- `IngestionJobResponse`.
pub record IngestionJobResponse (N : Type 0) : Type 0 where
  pub job_id : String
  pub hub_id : String
  pub document_id : Option String
  pub status : String
  pub progress : N
  pub error_msg : Option String
  pub created_at : Option String
  pub updated_at : Option String

-- `Partial<IngestionJobResponse>`; a field that may be `null` is an option in an option.
pub record JobUpdates (N : Type 0) : Type 0 where
  pub job_id : Option String
  pub hub_id : Option String
  pub document_id : Option (Option String)
  pub status : Option String
  pub progress : Option N
  pub error_msg : Option (Option String)
  pub created_at : Option (Option String)
  pub updated_at : Option (Option String)

pub data ChunkStrategy : Type 0 where
  fixed_size_chunking recursive_character_chunking semantic_chunking : ChunkStrategy

-- `IngestionSettings`.
pub record IngestionSettings (N : Type 0) : Type 0 where
  pub chunk_strategy : ChunkStrategy
  pub chunk_size : N
  pub chunk_overlap : N
  pub ocr_cleanup : Bool
  pub lang_filter : Bool
  pub extract_metadata : Bool
  pub generate_summary : Bool
  pub layout_ocr : Bool
  pub entity_linking : Bool

-- `defaultSettings`.
abbrev pub default_settings : IngestionSettings ℕ
default_settings = record {
  chunk_strategy = recursive_character_chunking;
  chunk_size = 512;
  chunk_overlap = 64;
  ocr_cleanup = true;
  lang_filter = false;
  extract_metadata = true;
  generate_summary = false;
  layout_ocr = true;
  entity_linking = false;
}

-- `Partial<IngestionSettings>`.
pub record SettingsUpdates (N : Type 0) : Type 0 where
  pub chunk_strategy : Option ChunkStrategy
  pub chunk_size : Option N
  pub chunk_overlap : Option N
  pub ocr_cleanup : Option Bool
  pub lang_filter : Option Bool
  pub extract_metadata : Option Bool
  pub generate_summary : Option Bool
  pub layout_ocr : Option Bool
  pub entity_linking : Option Bool

-- `IngestionSliceState`.
pub record IngestionState (N : Type 0) : Type 0 where
  pub active_jobs : List (IngestionJobResponse N)
  pub upload_progress : Option N
  pub settings : IngestionSettings N

-- The state that `createIngestionSlice` starts from.
abbrev pub initial_ingestion : IngestionState ℕ
initial_ingestion = record { active_jobs = []; upload_progress = none; settings = default_settings }

-- `IngestionSliceActions`.
pub data IngestionCall (N : Type 0) : Type 0 where
  adds_job : IngestionJobResponse N → IngestionCall N
  updates_job : String → JobUpdates N → IngestionCall N
  sets_progress : Option N → IngestionCall N
  clears_jobs : IngestionCall N
  updates_settings : SettingsUpdates N → IngestionCall N

module _ {N : Type 0} where
  -- `j.job_id === id`.
  abbrev pub job_has_id : String → IngestionJobResponse N → Bool
  job_has_id id j = j.job_id == id

  -- `{ ...j, ...updates }`.
  abbrev pub merge_job : IngestionJobResponse N → JobUpdates N → IngestionJobResponse N
  merge_job j u = record {
    job_id = get_or u.job_id j.job_id;
    hub_id = get_or u.hub_id j.hub_id;
    document_id = get_or u.document_id j.document_id;
    status = get_or u.status j.status;
    progress = get_or u.progress j.progress;
    error_msg = get_or u.error_msg j.error_msg;
    created_at = get_or u.created_at j.created_at;
    updated_at = get_or u.updated_at j.updated_at;
  }

  -- `addJob`; a job has all its fields, so that `{ ...j, ...job }` is `job`.
  unfoldable pub add_job : IngestionJobResponse N → IngestionState N → IngestionState N
  add_job job s =
      if any (job_has_id job.job_id) s.active_jobs
      then record s {
        active_jobs = map (λ j. if j.job_id == job.job_id then job else j) s.active_jobs;
      }
      else record s { active_jobs = job ∷ s.active_jobs }

  -- `updateJob`.
  unfoldable pub update_job : String → JobUpdates N → IngestionState N → IngestionState N
  update_job job_id updates s = record s {
    active_jobs = map (λ j. if j.job_id == job_id then merge_job j updates else j) s.active_jobs;
  }

  -- `{ ...settings, ...newSettings }`.
  abbrev merge_settings : IngestionSettings N → SettingsUpdates N → IngestionSettings N
  merge_settings o u = record {
    chunk_strategy = get_or u.chunk_strategy o.chunk_strategy;
    chunk_size = get_or u.chunk_size o.chunk_size;
    chunk_overlap = get_or u.chunk_overlap o.chunk_overlap;
    ocr_cleanup = get_or u.ocr_cleanup o.ocr_cleanup;
    lang_filter = get_or u.lang_filter o.lang_filter;
    extract_metadata = get_or u.extract_metadata o.extract_metadata;
    generate_summary = get_or u.generate_summary o.generate_summary;
    layout_ocr = get_or u.layout_ocr o.layout_ocr;
    entity_linking = get_or u.entity_linking o.entity_linking;
  }

  unfoldable pub ingestion_step : IngestionCall N → IngestionState N → IngestionState N
  ingestion_step (adds_job job) s = add_job job s
  ingestion_step (updates_job job_id updates) s = update_job job_id updates s
  ingestion_step (sets_progress progress) s = record s { upload_progress = progress }
  ingestion_step clears_jobs s = record s { active_jobs = [] }
  ingestion_step (updates_settings updates) s = record s {
    settings = merge_settings s.settings updates;
  }
