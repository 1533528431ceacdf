-- ===== src/Store/Settings/Kept.antt =====
-- What comes back from the storage of settingsSlice.ts when the page is loaded again.
use cont_ained.Base.{String, Bool, true, false, Option, some, ◌==◌, ◌≡◌, refl, arith}
use cont_ained.Store.Settings.{
  SettingsState, PartialSettings, Whole, Json, SettingsCall, sets_gateway_url, sets_api_key,
  sets_vram_budget_mb, sets_sidebar_collapsed, sets_density, updates, resets, merge_settings,
  persist_settings, change, settings_step, load_persisted, use_store,
}

-- All of the settings, as the text that was written says them.
abbrev pub all_of : SettingsState → PartialSettings
all_of s = record {
  gateway_url = some s.gateway_url;
  api_key = some s.api_key;
  vram_budget_mb = some s.vram_budget_mb;
  sidebar_collapsed = some s.sidebar_collapsed;
  density = some s.density;
}

-- The text is read as these settings and slices.
pub record Says {E L : Type 0} (json : Json E L) (raw : String) (s : SettingsState) (e : Option E)
    (l : Option L) : Type 0 where
  pub filled : (raw == "") ≡ false
  pub reads : json.parse raw ≡ some (record { settings = all_of s; earlier = e; later = l })

abbrev pub is_reset : SettingsCall → Bool
is_reset resets = true
is_reset c = false

module _ {E L : Type 0} (json : Json E L) where
  load_persisted-Says :
      (api_url raw : String) (s : SettingsState) (e : Option E) (l : Option L)
      → Says json raw s e l
      → load_persisted json api_url (some raw) ≡ (s, e)
  unfolding load_persisted merge_settings
  load_persisted-Says api_url raw s e l h = rw (h.filled, h.reads) refl

  step-stored :
      (api_url : String) (c : SettingsCall) (w : Whole E L)
      → is_reset c ≡ false
      → ((settings_step json true api_url c w).stored
          ≡ some (json.stringify_store w.earlier (change c api_url w.settings) w.later))
        × ((settings_step json true api_url c w).settings ≡ change c api_url w.settings)
  unfolding settings_step persist_settings
  step-stored api_url (sets_gateway_url v) w r = (refl, refl)
  step-stored api_url (sets_api_key v) w r = (refl, refl)
  step-stored api_url (sets_vram_budget_mb n) w r = (refl, refl)
  step-stored api_url (sets_sidebar_collapsed b) w r = (refl, refl)
  step-stored api_url (sets_density d) w r = (refl, refl)
  step-stored api_url (updates p) w r = (refl, refl)
  step-stored api_url resets w r = absurd (ground arith)

  -- If the storage takes what a call writes, and it is read back, then after every call but the
  -- reset, loading the page again brings back the settings, and with them the slices that are spread
  -- before the settings, in place of their initial state; those behind start anew.
  pub use_store-settings_step :
      (api_url : String) (c : SettingsCall) (w : Whole E L) (earlier : E) (later : L)
      → is_reset c ≡ false
      → Says json
          (json.stringify_store w.earlier (change c api_url w.settings) w.later)
          (change c api_url w.settings)
          (some w.earlier)
          (some w.later)
      → let after : Whole E L = settings_step json true api_url c w in
        let again : Whole E L = use_store json api_url earlier later after.stored in
        (again.settings ≡ after.settings) × ((again.earlier ≡ w.earlier) × (again.later ≡ later))
  unfolding use_store
  use_store-settings_step api_url c w earlier later r h =
      rw
        (
          (step-stored api_url c w r).0,
          (step-stored api_url c w r).1,
          load_persisted-Says api_url _ _ _ _ h,
        )
        (refl, (refl, refl))
