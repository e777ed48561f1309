-- ===== src/Settings/Agent.antt =====
-- What is sent to the agent of a server, `buildOpenVpnPayloadForAgent` of frontend/src/App.tsx.

pub mod Pointwise
use openvpn_control_server.Shared.{
  Bool, true, false, List, [], ◌∷◌, String, Option, none, some, ◌==◌, ◌||◌, map, trim, split_on,
  nonempty_only, if◌then◌else◌,
}
use openvpn_control_server.Settings.Meta.{
  SettingsFieldMeta, SettingsFieldType, number, select, text, textarea, checkbox,
}
use openvpn_control_server.Settings.ServerFields.{openvpn_server_settings_fields}
use openvpn_control_server.Settings.Values.{
  Numbers, Value, undefined, null, bool, num, str, arr, number_of, text_or_empty, is_blank, get,
  put, remove,
}

-- `PANEL_ONLY_OPENVPN_KEYS`: settings that only the panel knows.
abbrev pub panel_only_openvpn_keys : List String
panel_only_openvpn_keys =
    "panelRootCaId" ∷ "panelServerCertId" ∷ "panelDhMaterialId" ∷ "panelTlsAuthMaterialId"
    ∷ "remote" ∷ "resolv-retry" ∷ "nobind" ∷ "key-direction" ∷ "client-verb" ∷ "remote-cert-tls"
    ∷ []

-- `xs.map(trim).filter(Boolean)`
unfoldable pub trimmed_lines : List String → List String
trimmed_lines xs = nonempty_only (map trim xs)

module _ {N : Type 0} (ns : Numbers N) where
  -- `if (Number.isFinite(n)) out[k] = n; else delete out[k]`
  abbrev put_number : String → Option N → List (String × Value N) → List (String × Value N)
  put_number k none out = remove k out
  put_number k (some n) out = put k (num n) out

  abbrev lines_of : Value N → List String
  lines_of (arr xs) = trimmed_lines xs
  lines_of raw = trimmed_lines (split_on 10 (text_or_empty ns raw))

  abbrev is_unset : Value N → Bool
  is_unset undefined = true
  is_unset (str String.[]) = true
  is_unset _ = false

  -- A round of the loop over the fields: by the field's type, with its key and its value.
  abbrev agent_field_of :
      SettingsFieldType → String → Value N → List (String × Value N) → List (String × Value N)
  agent_field_of number k raw out =
      if is_blank raw then remove k out else put_number k (number_of ns raw) out
  agent_field_of textarea k raw out = put k (arr (lines_of raw)) out
  agent_field_of select k raw out = if is_unset raw then remove k out else out
  agent_field_of text k raw out = out
  agent_field_of checkbox k raw out = out

  unfoldable pub agent_fields :
      List SettingsFieldMeta → List (String × Value N) → List (String × Value N)
  unfolding is_blank number_of text_or_empty put remove get trimmed_lines
  agent_fields [] out = out
  agent_fields (f ∷ fs) out = agent_fields fs (agent_field_of f.type f.key (get f.key out) out)

  unfoldable pub remove_all : List String → List (String × Value N) → List (String × Value N)
  unfolding remove
  remove_all [] out = out
  remove_all (k ∷ ks) out = remove_all ks (remove k out)

  unfoldable pub build_open_vpn_payload_for_agent :
      List (String × Value N) → List (String × Value N)
  build_open_vpn_payload_for_agent state_obj =
      remove_all panel_only_openvpn_keys (agent_fields openvpn_server_settings_fields state_obj)
