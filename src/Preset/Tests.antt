-- ===== src/Preset/Tests.antt =====
-- The presets on concrete versions and documents.
use quick_desk.Base.{ℤ, List, not, ◌&&◌, ◌||◌, pos, ◌≡◌, ◌↔◌, refl, true, false, [], ◌∷◌, some, ℕ}
use quick_desk.Preset.Version.{int_ltb, number_at, is_version_lower, compare_from}
use quick_desk.Preset.Order.{AgreeOn, is_version_lower_iff}
use quick_desk.Preset.StrictOrder.{is_version_lower_strict}
use quick_desk.Preset.Manager.{Preset, PresetManager, World, parse_preset_data}
use quick_desk.Preset.Loading.{parse_preset_data-again}

is_version_lower_iff_example :
    (is_version_lower (pos 1 ∷ pos 9 ∷ []) (pos 1 ∷ pos 10 ∷ pos 0 ∷ []) ≡ true) ↔ (
      (k : ℕ) × AgreeOn (pos 1 ∷ pos 9 ∷ []) (pos 1 ∷ pos 10 ∷ pos 0 ∷ []) 0 k
      × (int_ltb (number_at (pos 1 ∷ pos 9 ∷ []) k) (number_at (pos 1 ∷ pos 10 ∷ pos 0 ∷ []) k)
          ≡ true))
is_version_lower_iff_example =
    is_version_lower_iff (pos 1 ∷ pos 9 ∷ []) (pos 1 ∷ pos 10 ∷ pos 0 ∷ [])

-- 1.10 is not lower than 1.9, and 1.0 is not lower than 1.
later_part : is_version_lower (pos 1 ∷ pos 10 ∷ []) (pos 1 ∷ pos 9 ∷ []) ≡ false
unfolding is_version_lower compare_from
later_part = refl

abbrev world : World
world = record {
  real_language = "zh_CN";
  app_version = "1.0.0";
  numbers_of = λ v. (pos 1 ∷ pos 0 ∷ pos 0 ∷ []);
}

abbrev document : Preset
document = record {
  announcement = ("en_US", "hello") ∷ [];
  links = ("en_US", record { icon = "i"; text = "t"; url = "u" } ∷ []) ∷ [];
  webclient_url = "https://example";
  min_version = "2.0.0";
}

abbrev fresh : PresetManager
fresh = record {
  is_poll_running = true;
  is_initial_running = false;
  first_request_time = some 2000;
  preset_loaded = false;
  started = true;
  announcement = "";
  links = [];
  webclient_url = "";
  last_min_version = "";
  signals = [];
}

parse_preset_data-again_example :
    parse_preset_data world (some document) (parse_preset_data world (some document) fresh)
    ≡ parse_preset_data world (some document) fresh
parse_preset_data-again_example = parse_preset_data-again world document fresh

abbrev v1_9 : List ℤ
v1_9 = pos 1 ∷ pos 9 ∷ []

abbrev v1_10 : List ℤ
v1_10 = pos 1 ∷ pos 10 ∷ []

abbrev v2 : List ℤ
v2 = pos 2 ∷ []

is_version_lower_strict_example :
    (is_version_lower v1_9 v1_9 ≡ false)
    × ((is_version_lower v1_9 v1_10 && is_version_lower v1_10 v1_9) ≡ false)
    × ((not (is_version_lower v1_9 v1_10 && is_version_lower v1_10 v2) || is_version_lower v1_9 v2)
        ≡ true)
is_version_lower_strict_example = is_version_lower_strict v1_9 v1_10 v2
