-- ===== src/Upload/Sent.antt =====
-- What IngestionUploadModal.tsx sends.
use Prim.Native.String.{◌++◌}
use text.Mathlib.TextLemmas.{nil-append, cons-append}
use cont_ained.Base.{String, Bool, true, false, ◌==◌, ◌≡◌, refl, ap, ◌∙◌, arith, some, any, is_some}
use cont_ained.Base.Dict.{lookup}
use cont_ained.Upload.{
  UploadForm, PipelineConfig, Host, has_dot, last_part, category_of, file_category, post_processors,
  pipeline_config, form_data,
}

-- The list asks for the step.
abbrev pub asks : {Num : Type 0} → String → PipelineConfig Num → Bool
asks step c = any (λ k. k == step) c.post_processors

-- The pipeline that is sent asks for a summary exactly if it names a model for it, for a graph
-- exactly if it names a model for that, and both exactly as the form has it; and it has a model for
-- speech exactly if it has a threshold for frames.
pub pipeline_config_lem :
    {Num : Type 0} (host : Host Num) (f : UploadForm Num)
    → let c : PipelineConfig Num = pipeline_config host f in
      (((asks "summary_gen" c ≡ f.enable_summary) × (is_some c.summary_model ≡ f.enable_summary))
        × ((asks "kg_extract" c ≡ f.enable_kg) × (is_some c.graph_model ≡ f.enable_kg)))
      × (is_some c.asr_model ≡ is_some c.ssim_threshold)
unfolding pipeline_config post_processors
pipeline_config_lem host f = ground arith

-- The form names a model for the summary whether one is asked for or not.
form_data-summary_model :
    {Num : Type 0} (host : Host Num) (f : UploadForm Num)
    → (f.summary_model == "") ≡ false
    → lookup "summary_model" (form_data host f) ≡ some f.summary_model
unfolding form_data lookup
form_data-summary_model host f h = rw h refl

dot_append : (e : String) → "." ++ e ≡ String.◌∷◌ "." e
dot_append e = cons-append "." "" e ∙ ap (String.◌∷◌ ".") (nil-append e)

has_dot-append : (s e : String) → has_dot (s ++ ("." ++ e)) ≡ true
unfolding has_dot
has_dot-append String.[] e = rw (nil-append ("." ++ e), dot_append e) refl
has_dot-append (String.◌∷◌ c s) e =
    rw (cons-append c s ("." ++ e)) (ground (arith, has_dot-append s e))

last_part_whole : (e : String) → has_dot e ≡ false → last_part e ≡ e
unfolding last_part has_dot
last_part_whole String.[] h = refl
last_part_whole (String.◌∷◌ c s) h = rw h refl

last_part-append : (s e : String) → has_dot e ≡ false → last_part (s ++ ("." ++ e)) ≡ e
unfolding last_part has_dot
last_part-append String.[] e h = rw (nil-append ("." ++ e), dot_append e) (last_part_whole e h)
last_part-append (String.◌∷◌ c s) e h =
    rw (cons-append c s ("." ++ e)) (ground (arith, has_dot-append s e, last_part-append s e h))

-- What follows the last dot of a file's name decides its category.
pub file_category-append :
    (to_lower_case : String → String) (name ext : String)
    → has_dot ext ≡ false
    → file_category to_lower_case (some (name ++ ("." ++ ext))) ≡ category_of (to_lower_case ext)
unfolding file_category
file_category-append to_lower_case name ext h =
    ap (λ s. category_of (to_lower_case s)) (last_part-append name ext h)
