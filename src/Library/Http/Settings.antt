-- ===== src/Library/Http/Settings.antt =====
-- internal/library/http.go: profiles, settings, the browser's history and filter presets.
use shiori_server.Prelude.{ℕ, Option, none, some, List, if◌then◌else◌}
use shiori_server.Chunker.Text.{trim_space}
use shiori_server.Library.Types.{Call, Result, ok, err}
use shiori_server.Library.Settings.{
  Settings, BrowserHistoryEntry, FilterPreset, Preferences, Profile, list_profiles, list_visits,
  get_settings, update_settings, list_presets, create_preset,
}
use shiori_server.Library.Http.Media.{Reply, json, problem, parse_limit, paged, is_blank_key}
use shiori_server.Library.Http.Features.{all_of}

abbrev pub answered : {A J : Type 0} → ℕ → Result A × Preferences J → Reply A × Preferences J
answered n (err e, d) = (problem 500 "Database Error", d)
answered n (ok a, d) = (json n a, d)

unfoldable pub handle_list_profiles : Reply (List Profile)
unfolding list_profiles
handle_list_profiles = json 200 list_profiles

unfoldable pub handle_list_visits :
    {J : Type 0} → Call → ℕ → Option ℕ → Preferences J → Reply (List BrowserHistoryEntry)
unfolding parse_limit
handle_list_visits c n cursor d = paged (list_visits c (parse_limit n) cursor d)

module _ {J : Type 0} (no_keys : J) where
  unfoldable pub handle_get_settings : Call → Preferences J → Reply (Settings J)
  handle_get_settings c d = all_of (get_settings no_keys c d)

  unfoldable pub handle_update_settings :
      Call → Option (Settings J) → Preferences J → Reply (Settings J) × Preferences J
  handle_update_settings c none d = (problem 400 "Invalid Settings", d)
  handle_update_settings c (some s) d = answered 200 (update_settings no_keys c s d)

  unfoldable pub handle_list_presets : Call → Preferences J → Reply (List (FilterPreset J))
  handle_list_presets c d = all_of (list_presets no_keys c d)

  -- The body is the name and the filters.
  unfoldable pub handle_create_preset :
      Call → Option (List ℕ × Option J) → Preferences J → Reply (FilterPreset J) × Preferences J
  unfolding trim_space
  handle_create_preset c none d = (problem 400 "Invalid Filter Preset", d)
  handle_create_preset c (some (name, filters)) d =
      let name' = trim_space name in
      if is_blank_key name'
      then (problem 400 "Invalid Filter Preset", d)
      else answered 201 (create_preset no_keys c name' filters d)
