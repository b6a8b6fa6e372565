-- ===== src/Library/Settings.antt =====
-- internal/library/sqlite/features.go: profiles, settings, the browser's history and the filter
-- presets. `J` is a JSON object (map[string]any), `none` the nil map; what is stored as JSON text
-- stands as what it was made from, since encoding and decoding an object gives it back.
use shiori_server.Prelude.{
  ℕ, ◌+◌, String, Bool, true, ◌&&◌, ◌||◌, Option, none, some, List, [], ◌∷◌, ◌++◌, ltb, ◌==◌,
  if◌then◌else◌, take, str_eq,
}
use shiori_server.Prelude.Rows.{select, order_by, has}
use shiori_server.Library.Types.{Call, Result, ok, err, query}
use shiori_server.Library.Page.{page_limit, below, cut_page}

pub record Settings (J : Type 0) : Type 0 where
  pub theme : String
  pub adblock_enabled : Bool
  pub keyboard_shortcuts : Option J

pub record BrowserHistoryEntry : Type 0 where
  pub id : ℕ
  pub url : String
  pub title : String
  pub visited_at : ℕ

pub record FilterPreset (J : Type 0) : Type 0 where
  pub id : ℕ
  pub name : List ℕ
  pub filters : Option J

pub record PresetRow (J : Type 0) : Type 0 where
  pub preset : FilterPreset J
  pub created_at : ℕ

-- The tables settings (its row app_settings), browser_history and filter_presets.
pub record Preferences (J : Type 0) : Type 0 where
  pub settings : Option (Settings J)
  pub visits : List BrowserHistoryEntry
  pub presets : List (PresetRow J)

pub record Profile : Type 0 where
  pub id : String
  pub name : String
  pub avatar_url : String

unfoldable pub list_profiles : List Profile
list_profiles = record { id = "default"; name = "Default Profile"; avatar_url = "" } ∷ []

abbrev pub entry_id : BrowserHistoryEntry → ℕ
entry_id e = e.id

abbrev visited_later : BrowserHistoryEntry → BrowserHistoryEntry → Bool
visited_later a b = ltb b.visited_at a.visited_at || (a.visited_at == b.visited_at && ltb b.id a.id)

-- The order is by time and then by id, the cursor an id alone, as in the source.
unfoldable pub list_visits :
    {J : Type 0}
    → Call
    → ℕ
    → Option ℕ
    → Preferences J
    → Result (List BrowserHistoryEntry × Option ℕ)
unfolding page_limit cut_page
list_visits c n cursor d =
    let limit = page_limit n in
    query c.fault (
      ok (
        cut_page entry_id limit
          (take (limit + 1) (select (λ e. below cursor e.id) (order_by visited_later d.visits)))))

module _ {J : Type 0} (no_keys : J) where
  abbrev pub or_no_keys : Option J → Option J
  or_no_keys none = some no_keys
  or_no_keys (some j) = some j

  abbrev pub read_settings : Option (Settings J) → Settings J
  read_settings none = record {
    theme = "system";
    adblock_enabled = true;
    keyboard_shortcuts = some no_keys;
  }
  read_settings (some s) = record s { keyboard_shortcuts = or_no_keys s.keyboard_shortcuts }

  unfoldable pub get_settings : Call → Preferences J → Result (Settings J)
  get_settings c d = query c.fault (ok (read_settings d.settings))

  unfoldable pub filled : Settings J → Settings J
  filled s = record s {
    theme = if str_eq s.theme "" then "system" else s.theme;
    keyboard_shortcuts = or_no_keys s.keyboard_shortcuts;
  }

  abbrev pub stored :
      {A : Type 0} → Option String → Preferences J → A → Preferences J → Result A × Preferences J
  stored none d a d' = (ok a, d')
  stored (some e) d a d' = (err e, d)

  unfoldable pub update_settings :
      Call → Settings J → Preferences J → Result (Settings J) × Preferences J
  unfolding filled
  update_settings c s d = stored c.fault d (filled s) (record d { settings = some (filled s) })

  abbrev made_later : PresetRow J → PresetRow J → Bool
  made_later a b = ltb b.created_at a.created_at

  abbrev pub presets_of : List (PresetRow J) → List (FilterPreset J)
  presets_of [] = []
  presets_of (r ∷ rs) = record r.preset { filters = or_no_keys r.preset.filters } ∷ presets_of rs

  unfoldable pub list_presets : Call → Preferences J → Result (List (FilterPreset J))
  list_presets c d = query c.fault (ok (presets_of (order_by made_later d.presets)))

  abbrev pub preset_id : PresetRow J → ℕ
  preset_id r = r.preset.id

  unfoldable pub create_preset :
      Call → List ℕ → Option J → Preferences J → Result (FilterPreset J) × Preferences J
  create_preset c name filters d =
      let new : FilterPreset J = record {
        id = c.ulid;
        name = name;
        filters = or_no_keys filters;
      } in
      if has preset_id c.ulid d.presets
      then (err "UNIQUE constraint failed: filter_presets.id", d)
      else stored c.fault d new
          (record d { presets = d.presets ++ record { preset = new; created_at = c.now } ∷ [] })
