-- ===== src/Upload.antt =====
-- frontend/src/components/hubs/ingestion/IngestionUploadModal.tsx: the models on offer, the category
-- of a file, and what is sent. `toLowerCase`, `toString` and `JSON.stringify` are parameters.
pub mod Models
pub mod Sent
mod Tests
use Prim.Native.Char.{Char, code}
use cont_ained.Base.{
  ℕ, String, Bool, true, false, ◌||◌, not, Option, none, some, List, [], ◌∷◌, ◌++◌, ◌==◌, any, eqb,
  or_text, is_some, if◌then◌else◌,
}

-- `name.split(".").pop()`: what follows the last dot, or all of it.
unfoldable pub has_dot : String → Bool
has_dot String.[] = false
has_dot (String.◌∷◌ c s) = eqb (code c) b'.' || has_dot s

unfoldable pub last_part : String → String
unfolding has_dot
last_part String.[] = ""
last_part (String.◌∷◌ c s) =
    let rest : String = last_part s in
    if eqb (code c) b'.' || has_dot s then rest else String.◌∷◌ c s

pub data FileCategory : Type 0 where
  media text document : FileCategory

abbrev is_one_of : String → List String → Bool
is_one_of s list = any (λ k. k == s) list

-- The category of an extension.
unfoldable pub category_of : String → FileCategory
category_of ext =
    if is_one_of ext ("mp4" ∷ "mov" ∷ "webm" ∷ "mkv" ∷ "wav" ∷ "mp3" ∷ "flac" ∷ "ogg" ∷ [])
    then media
    else if is_one_of ext ("txt" ∷ "md" ∷ "json" ∷ "csv" ∷ "log" ∷ [])
    then text
    else document

-- `fileCategory`, from the name of the selected file.
unfoldable pub file_category : (String → String) → Option String → FileCategory
unfolding last_part category_of
file_category to_lower_case none = document
file_category to_lower_case (some name) = category_of (to_lower_case (last_part name))

-- What the form keeps; `Num` is the type of the threshold.
pub record UploadForm (Num : Type 0) : Type 0 where
  pub selected_file : Option String
  pub collection_id : String
  pub ocr_engine : String
  pub chunk_strategy : String
  pub chunk_size : ℕ
  pub chunk_overlap : ℕ
  pub embedding_model : String
  pub asr_model : String
  pub ssim_threshold : Num
  pub enable_summary : Bool
  pub summary_model : String
  pub enable_keyphrase : Bool
  pub enable_table_preserve : Bool
  pub enable_kg : Bool
  pub graph_model : String
  pub uploading : Bool
  pub error : Option String

-- `pipelineCfg`.
pub record PipelineConfig (Num : Type 0) : Type 0 where
  pub ocr_engine : String
  pub chunking_strategy : String
  pub chunk_size : ℕ
  pub chunk_overlap : ℕ
  pub embedding_model : String
  pub asr_model : Option String
  pub ssim_threshold : Option Num
  pub summary_model : Option String
  pub graph_model : Option String
  pub post_processors : List String

-- What the modal takes from JavaScript.
pub record Host (Num : Type 0) : Type 0 where
  pub to_lower_case : String → String
  pub show_number : ℕ → String
  pub show_list : List String → String
  pub show_config : PipelineConfig Num → String

-- `if (b) list.push(x)`, and `b ? x : undefined`.
abbrev pushed : Bool → String → List String → List String
pushed b x rest = if b then x ∷ rest else rest

abbrev given : {A : Type 0} → Bool → A → Option A
given b x = if b then some x else none

abbrev is_media : FileCategory → Bool
is_media media = true
is_media c = false

abbrev is_document : FileCategory → Bool
is_document document = true
is_document c = false

-- `if (s) formData.append(k, s)`.
abbrev appended : String → String → List (String × String) → List (String × String)
appended k v rest = if v == "" then rest else (k, v) ∷ rest

module _ {Num : Type 0} where
  -- `postProcs`.
  unfoldable pub post_processors : UploadForm Num → List String
  post_processors f = pushed f.enable_summary "summary_gen" (
      pushed f.enable_keyphrase "keyphrase_extract"
        (pushed f.enable_table_preserve "table_preserve" (pushed f.enable_kg "kg_extract" [])))

  -- The pipeline of a form.
  unfoldable pub pipeline_config : Host Num → UploadForm Num → PipelineConfig Num
  unfolding file_category
  pipeline_config host f =
      let category : FileCategory = file_category host.to_lower_case f.selected_file in
      record {
        ocr_engine = if is_document category then f.ocr_engine else "direct";
        chunking_strategy = f.chunk_strategy;
        chunk_size = f.chunk_size;
        chunk_overlap = f.chunk_overlap;
        embedding_model = f.embedding_model;
        asr_model = given (is_media category) f.asr_model;
        ssim_threshold = given (is_media category) f.ssim_threshold;
        summary_model = given f.enable_summary f.summary_model;
        graph_model = given f.enable_kg f.graph_model;
        post_processors = post_processors f;
      }

  -- `formData`, less the file.
  unfoldable pub form_data : Host Num → UploadForm Num → List (String × String)
  unfolding pipeline_config
  form_data host f =
      let config : PipelineConfig Num = pipeline_config host f in
      ("collection_id", f.collection_id)
      ∷ ("ocr_engine", config.ocr_engine)
      ∷ ("chunk_strategy", f.chunk_strategy)
      ∷ ("chunk_size", host.show_number f.chunk_size)
      ∷ ("chunk_overlap", host.show_number f.chunk_overlap)
      ∷ ("embedding_model", f.embedding_model)
      ∷ appended "summary_model" f.summary_model (
          appended "graph_model" f.graph_model (
            ("post_processors_json", host.show_list (post_processors f))
            ∷ ("pipeline_config_json", host.show_config config)
            ∷ []))

  -- `handleSubmit` up to its request, with what it sends, and after the answer: nothing, or the
  -- message of an error. The flag says that the modal closes.
  unfoldable pub handle_submit :
      Host Num → String → UploadForm Num → UploadForm Num × Option (List (String × String))
  unfolding form_data
  handle_submit host hub_id f =
      if (hub_id == "") || (not (is_some f.selected_file) || (f.collection_id == ""))
      then (record f { error = some "Please select a target collection and file." }, none)
      else (record f { uploading = true; error = none }, some (form_data host f))

  unfoldable pub finish_submit : Option String → UploadForm Num → UploadForm Num × Bool
  finish_submit none f = (record f { uploading = false }, true)
  finish_submit (some message) f = (
    record f { uploading = false; error = some (or_text message "Ingestion submission failed") },
    false,
  )
