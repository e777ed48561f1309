-- ===== src/Settings/Fallback.antt =====
-- The server's own file made of its settings, `fallbackRawFromSettings` of frontend/src/App.tsx.
-- The sort by `localeCompare` of the names that the table of fields does not have is a parameter.
use openvpn_control_server.Shared.{
  Bool, not, ◌||◌, List, [], ◌∷◌, ◌++◌, String, ◌==◌, append, map, trim, is_empty, join,
  nonempty_only, if◌then◌else◌, after_prefix,
}
use openvpn_control_server.Settings.Meta.{SettingsFieldMeta}
use openvpn_control_server.Settings.ServerFields.{openvpn_server_settings_fields}
use openvpn_control_server.Settings.Values.{
  Numbers, Value, undefined, null, bool, num, str, arr, get,
}
use openvpn_control_server.Settings.Agent.{build_open_vpn_payload_for_agent}
use openvpn_control_server.Settings.Client.{has_prefix, includes_name}

-- `names.filter((k) => keep(k))`
unfoldable pub filter_names : (String → Bool) → List String → List String
filter_names keep [] = []
filter_names keep (k ∷ ks) = let rest = filter_names keep ks in if keep k then k ∷ rest else rest

-- `OPENVPN_SERVER_SETTINGS_FIELDS.map((f) => f.key)`
unfoldable pub keys_of : List SettingsFieldMeta → List String
keys_of [] = []
keys_of (f ∷ fs) = f.key ∷ keys_of fs

module _ (sort_names : List String → List String) {N : Type 0} (ns : Numbers N) where
  -- `Object.keys(o)`
  unfoldable pub own_keys : List (String × Value N) → List String
  own_keys [] = []
  own_keys ((k, v) ∷ o) = k ∷ own_keys o

  unfoldable pub without_panel_keys : List (String × Value N) → List (String × Value N)
  unfolding after_prefix
  without_panel_keys [] = []
  without_panel_keys ((k, v) ∷ o) =
      let rest = without_panel_keys o in if has_prefix "panel" k then rest else (k, v) ∷ rest

  -- `push` and `route` have their argument in quotes.
  abbrev item_line : String → String → String
  item_line key s =
      if key == "push" || key == "route"
      then append key (append " \"" (append s "\""))
      else append key (append " " s)

  abbrev setting_lines : String → Value N → List String
  setting_lines key undefined = []
  setting_lines key null = []
  setting_lines key (bool b) = if b then key ∷ [] else []
  setting_lines key (num n) = append key (append " " (trim (ns.to_string n))) ∷ []
  setting_lines key (str s) = if is_empty s then [] else append key (append " " (trim s)) ∷ []
  setting_lines key (arr items) = map (item_line key) (nonempty_only (map trim items))

  unfoldable pub lines_of_keys : List String → List (String × Value N) → List String
  unfolding get trim
  lines_of_keys [] payload = []
  lines_of_keys (key ∷ keys) payload =
      setting_lines key (get key payload) ++ lines_of_keys keys payload

  unfoldable pub fallback_raw_from_settings : List (String × Value N) → String
  unfolding filter_names keys_of own_keys without_panel_keys join
  fallback_raw_from_settings settings =
      let payload = without_panel_keys (build_open_vpn_payload_for_agent ns settings) in
      let payload_keys = own_keys payload in
      let preferred_keys = keys_of openvpn_server_settings_fields in
      let rest_keys =
        sort_names (filter_names (λ k. not (includes_name preferred_keys k)) payload_keys) in
      join "\n" (
        lines_of_keys (filter_names (includes_name payload_keys) preferred_keys ++ rest_keys)
          payload)
