-- ===== src/Upload/Tests.antt =====
-- The upload of a document, and a registry with one model.
use cont_ained.Base.{ℕ, true, false, none, some, List, [], ◌∷◌, ◌++◌, ◌≡◌, is_some, arith, refl}
use cont_ained.Upload.{
  UploadForm, Host, PipelineConfig, pipeline_config, file_category, category_of, has_dot, media,
  last_part,
}
use cont_ained.Upload.Sent.{asks, pipeline_config_lem, file_category-append}
use cont_ained.Upload.Models.{RoleModels, Model, load_models, IsUnique, load_models-IsUnique}

abbrev plain_host : Host ℕ
plain_host = record {
  to_lower_case = λ s. s;
  show_number = λ n. "512";
  show_list = λ list. "[]";
  show_config = λ c. "{}";
}

abbrev form : UploadForm ℕ
form = record {
  selected_file = some "talk.v2.mp4";
  collection_id = "c1";
  ocr_engine = "glm-ocr";
  chunk_strategy = "layout-aware";
  chunk_size = 512;
  chunk_overlap = 64;
  embedding_model = "jina-clip-v2";
  asr_model = "sensevoice-small";
  ssim_threshold = 3;
  enable_summary = false;
  summary_model = "m1";
  enable_keyphrase = true;
  enable_table_preserve = true;
  enable_kg = true;
  graph_model = "m1";
  uploading = false;
  error = none;
}

category_test : file_category plain_host.to_lower_case form.selected_file ≡ media
unfolding file_category category_of has_dot last_part
category_test = refl

pipeline_config_lem_test :
    let c : PipelineConfig ℕ = pipeline_config plain_host form in
    (((asks "summary_gen" c ≡ false) × (is_some c.summary_model ≡ false))
      × ((asks "kg_extract" c ≡ true) × (is_some c.graph_model ≡ true)))
    × (is_some c.asr_model ≡ is_some c.ssim_threshold)
pipeline_config_lem_test = pipeline_config_lem plain_host form

file_category-append_test :
    file_category plain_host.to_lower_case
      (some (Prim.Native.String.◌++◌ "talk.v2" (Prim.Native.String.◌++◌ "." "mp4")))
    ≡ category_of "mp4"
unfolding has_dot
file_category-append_test = file_category-append plain_host.to_lower_case "talk.v2" "mp4" refl

abbrev one_default : List Model
one_default = record { id = "m1"; name = "Model 1"; provider = "P" } ∷ []

abbrev one_role : List RoleModels
one_role =
    record {
      active = some (record { model_id = "m2"; display_name = ""; provider = "" });
      available = none;
    }
    ∷ []

one_default-IsUnique : IsUnique one_default
one_default-IsUnique id = ground arith

load_models-IsUnique_test :
    ((rest : List Model) × (load_models one_role one_default ≡ one_default ++ rest))
    × IsUnique (load_models one_role one_default)
load_models-IsUnique_test = load_models-IsUnique one_role one_default one_default-IsUnique
