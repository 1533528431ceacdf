-- ===== src/Store/SettingsTests.antt =====
-- The settings on a store whose other slices are numbers.
use cont_ained.Base.{ℕ, true, none, some, ◌≡◌, refl}
use cont_ained.Store.Settings.{
  Whole, Json, SettingsState, compact, sets_density, default_settings, settings_step, use_store,
  change,
}
use cont_ained.Store.Settings.Kept.{all_of, use_store-settings_step}

abbrev compact_settings : SettingsState
compact_settings = record (default_settings "") { density = compact }

-- A codec that knows one state of the store.
abbrev one_state : Json ℕ ℕ
one_state = record {
  stringify_store = λ e s l. "{}";
  stringify_settings = λ s. "{}";
  parse =
      λ raw. some (record { settings = all_of compact_settings; earlier = some 1; later = some 2 });
}

abbrev running : Whole ℕ ℕ
running = record {
  earlier = 1;
  settings = default_settings "";
  later = 2;
  stored = none;
  body_density = none;
}

use_store-settings_step_example :
    let after : Whole ℕ ℕ = settings_step one_state true "" (sets_density compact) running in
    let again : Whole ℕ ℕ = use_store one_state "" 0 0 after.stored in
    (again.settings ≡ after.settings) × ((again.earlier ≡ 1) × (again.later ≡ 0))
unfolding change
use_store-settings_step_example =
    use_store-settings_step one_state "" (sets_density compact) running 0 0 refl
      (record { filled = refl; reads = refl })
