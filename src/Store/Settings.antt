-- ===== src/Store/Settings.antt =====
-- frontend/src/store/settingsSlice.ts, and the order in which frontend/src/store/useStore.ts puts
-- the slices together. `E` is the type of the slices before the settings and `L` that of those behind
-- them; `JSON` is a parameter. A call writes the state of the whole store.
pub mod Kept
use cont_ained.Base.{ℕ, String, Bool, false, Option, none, some, ◌==◌, get_or, if◌then◌else◌}

pub data Density : Type 0 where
  comfortable compact : Density

-- `SettingsState`.
pub record SettingsState : Type 0 where
  pub gateway_url : String
  pub api_key : String
  pub vram_budget_mb : ℕ
  pub sidebar_collapsed : Bool
  pub density : Density

-- `Partial<SettingsState>`.
pub record PartialSettings : Type 0 where
  pub gateway_url : Option String
  pub api_key : Option String
  pub vram_budget_mb : Option ℕ
  pub sidebar_collapsed : Option Bool
  pub density : Option Density

-- `DEFAULT_SETTINGS`; the address of the gateway comes from the build.
abbrev pub default_settings : String → SettingsState
default_settings api_url = record {
  gateway_url = if api_url == "" then "http://localhost:8000" else api_url;
  api_key = "sk_live_default_key";
  vram_budget_mb = 8000;
  sidebar_collapsed = false;
  density = comfortable;
}

-- `{ ...settings, ...partial }`.
unfoldable pub merge_settings : SettingsState → PartialSettings → SettingsState
merge_settings s p = record {
  gateway_url = get_or p.gateway_url s.gateway_url;
  api_key = get_or p.api_key s.api_key;
  vram_budget_mb = get_or p.vram_budget_mb s.vram_budget_mb;
  sidebar_collapsed = get_or p.sidebar_collapsed s.sidebar_collapsed;
  density = get_or p.density s.density;
}

-- The store, what stands under the key `contained-settings`, and the attribute `data-density`.
pub record Whole (E L : Type 0) : Type 0 where
  pub earlier : E
  pub settings : SettingsState
  pub later : L
  pub stored : Option String
  pub body_density : Option Density

-- What a text in the storage says: settings, and the slices that were written with them.
pub record Parsed (E L : Type 0) : Type 0 where
  pub settings : PartialSettings
  pub earlier : Option E
  pub later : Option L

-- `JSON.stringify` on the store and on the settings alone, and `JSON.parse`.
pub record Json (E L : Type 0) : Type 0 where
  pub stringify_store : E → SettingsState → L → String
  pub stringify_settings : SettingsState → String
  pub parse : String → Option (Parsed E L)

-- The calls of the slice; the one that is called `updateSettings` is that of another slice in the
-- store that useStore.ts builds.
pub data SettingsCall : Type 0 where
  sets_gateway_url sets_api_key : String → SettingsCall
  sets_vram_budget_mb : ℕ → SettingsCall
  sets_sidebar_collapsed : Bool → SettingsCall
  sets_density : Density → SettingsCall
  updates : PartialSettings → SettingsCall
  resets : SettingsCall

-- The settings after a call.
unfoldable pub change : SettingsCall → String → SettingsState → SettingsState
unfolding merge_settings
change (sets_gateway_url v) api_url s = record s { gateway_url = v }
change (sets_api_key v) api_url s = record s { api_key = v }
change (sets_vram_budget_mb n) api_url s = record s { vram_budget_mb = n }
change (sets_sidebar_collapsed b) api_url s = record s { sidebar_collapsed = b }
change (sets_density d) api_url s = record s { density = d }
change (updates p) api_url s = merge_settings s p
change resets api_url s = default_settings api_url

-- The attribute of the body after a call.
unfoldable pub attribute : SettingsCall → Option Density → Option Density
attribute (sets_density d) before = some d
attribute (updates p) before = elim p.density [ none ↦ before | some d ↦ some d ]
attribute resets before = some comfortable
attribute e before = before

module _ {E L : Type 0} where
  -- `persistSettings` on the state of the store; the flag says that the storage takes it.
  unfoldable pub persist_settings : Json E L → Bool → Whole E L → Whole E L
  persist_settings json stores w =
      if stores
      then record w { stored = some (json.stringify_store w.earlier w.settings w.later) }
      else w

  -- A call of the slice.
  unfoldable pub settings_step : Json E L → Bool → String → SettingsCall → Whole E L → Whole E L
  unfolding persist_settings change attribute
  settings_step json stores api_url resets w = record w {
    settings = change resets api_url w.settings;
    body_density = attribute resets w.body_density;
    stored =
        if stores
        then some (json.stringify_settings (change resets api_url w.settings))
        else w.stored;
  }
  settings_step json stores api_url e w = persist_settings json stores (record w {
    settings = change e api_url w.settings;
    body_density = attribute e w.body_density;
  })

  -- `loadPersistedSettings`, and the slices that it brings back with the settings.
  unfoldable pub load_persisted : Json E L → String → Option String → SettingsState × Option E
  unfolding merge_settings
  load_persisted json api_url none = (default_settings api_url, none)
  load_persisted json api_url (some raw) =
      if raw == "" then (default_settings api_url, none) else elim (json.parse raw) [
        | none ↦ (default_settings api_url, none)
        | some p ↦ (merge_settings (default_settings api_url) p.settings, p.earlier)
      ]

  -- `useStore`: what is spread later wins.
  unfoldable pub use_store : Json E L → String → E → L → Option String → Whole E L
  unfolding load_persisted
  use_store json api_url earlier later stored =
      let initial : SettingsState × Option E = load_persisted json api_url stored in
      record {
        earlier = get_or initial.1 earlier;
        settings = initial.0;
        later = later;
        stored = stored;
        body_density = none;
      }
