-- ===== src/Settings/Panel/Pointwise.antt =====
-- What the panel saves under each name.
use openvpn_control_server.Shared.{Bool, List, String, Option, none, some, ◌&&◌, if◌then◌else◌}
use openvpn_control_server.Settings.Meta.{
  SettingsFieldType, number, select, text, textarea, checkbox,
}
use openvpn_control_server.Settings.ServerFields.{openvpn_server_settings_fields}
use openvpn_control_server.Settings.Values.{Numbers, Value, get, has}
use openvpn_control_server.Settings.Agent.Pointwise.{elem, type_of, sent}
use openvpn_control_server.Settings.Panel.{
  panel_save_extra_keys, panel_client_profile_keys, save_field_of, saved_extra, saved_profile,
  saved_number, saved_select, saved_text,
}

module _ {N : Type 0} (ns : Numbers N) where
  -- What the loop over the fields saves for a field of each type, given what is there before.
  unfoldable pub saved_field : Option SettingsFieldType → Value N → Value N → Value N
  saved_field (some number) raw before = saved_number ns raw
  saved_field (some select) raw before = saved_select ns raw
  saved_field (some text) raw before = saved_text ns raw
  saved_field (some textarea) raw before = before
  saved_field (some checkbox) raw before = before
  saved_field none raw before = before

  abbrev round :
      String
      → SettingsFieldType
      → List (String × Value N)
      → List (String × Value N)
      → List (String × Value N)
  round k t s o = if has k s then save_field_of ns t k (get k s) o else o

  -- What is saved under each name: its value is `raw`, and `given` says whether it is there.
  unfoldable pub saved : String → Value N → Bool → Value N
  saved j raw given =
      if elem j panel_client_profile_keys && given
      then saved_profile ns raw
      else if elem j panel_save_extra_keys && given
      then saved_extra ns raw
      else if given
      then saved_field (type_of j openvpn_server_settings_fields) raw (sent ns j raw)
      else sent ns j raw
