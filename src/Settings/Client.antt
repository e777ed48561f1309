-- ===== src/Settings/Client.antt =====
-- The profile of a client: `buildOpenVpnClientConfigPayload`, `fallbackRawFromClientSettings`,
-- `normalizeClientDevFromServer` and `fallbackServerDerivedClientLines` of frontend/src/App.tsx.
-- `String.prototype.toLowerCase` is a parameter.
pub mod Pointwise
use openvpn_control_server.Shared.{
  Bool, true, false, not, ◌||◌, ◌&&◌, List, [], ◌∷◌, ◌++◌, String, Option, none, some, ◌==◌, append,
  map, trim, is_empty, or_else, join, nonempty_only, if◌then◌else◌, after_prefix,
}
use openvpn_control_server.Settings.Meta.{
  SettingsFieldMeta, SettingsFieldType, number, select, text, textarea, checkbox,
}
use openvpn_control_server.Settings.ClientFields.{openvpn_client_settings_fields}
use openvpn_control_server.Settings.Values.{
  Numbers, Value, undefined, null, bool, num, str, arr, number_of, string_of, text_or_empty,
  is_blank, is_nullish, is_truthy, get, has, put, remove,
}

abbrev pub has_prefix : String → String → Bool
has_prefix p s = is_some_text (after_prefix p s)
  where
    is_some_text : Option String → Bool
    is_some_text none = false
    is_some_text (some r) = true

abbrev pub includes_name : List String → String → Bool
includes_name [] k = false
includes_name (j ∷ js) k = j == k || includes_name js k

module _ {N : Type 0} (ns : Numbers N) where
  -- `String(v ?? "")`
  unfoldable pub text_or_blank : Value N → String
  unfolding string_of is_nullish
  text_or_blank v = if is_nullish v then "" else string_of ns v

  abbrev put_trunc : String → Option N → List (String × Value N) → List (String × Value N)
  put_trunc k none out = remove k out
  put_trunc k (some n) out = put k (str (ns.to_string (ns.trunc n))) out

  abbrev put_text : String → String → List (String × Value N) → List (String × Value N)
  put_text k t out = if is_empty t then remove k out else put k (str t) out

  -- A round of the loop over the fields.
  abbrev client_field_of :
      SettingsFieldType → String → Value N → List (String × Value N) → List (String × Value N)
  client_field_of number k raw out =
      if is_blank raw then remove k out else put_trunc k (number_of ns raw) out
  client_field_of checkbox k raw out = put k (bool (is_truthy ns raw)) out
  client_field_of select k raw out = put_text k (trim (text_or_blank raw)) out
  client_field_of text k raw out = put_text k (trim (text_or_blank raw)) out
  client_field_of textarea k raw out = put_text k (trim (text_or_blank raw)) out

  unfoldable pub client_fields :
      List SettingsFieldMeta → List (String × Value N) → List (String × Value N)
  unfolding is_blank number_of is_truthy put remove get trim
  client_fields [] out = out
  client_fields (f ∷ fs) out = client_fields fs (client_field_of f.type f.key (get f.key out) out)

  unfoldable pub build_open_vpn_client_config_payload :
      List (String × Value N) → List (String × Value N)
  build_open_vpn_client_config_payload state_obj =
      client_fields openvpn_client_settings_fields state_obj

module _ (to_lower : String → String) where
  unfoldable pub normalize_client_dev : String → String
  unfolding after_prefix trim
  normalize_client_dev dev_raw =
      let v = to_lower (trim dev_raw) in
      if is_empty v then "tun" else if has_prefix "tap" v then "tap" else "tun"

module _ (to_lower : String → String) {N : Type 0} (ns : Numbers N) where
  -- `String(s[key] || "").trim() || d`
  abbrev setting_or : String → String → List (String × Value N) → String
  setting_or key d s = or_else (trim (text_or_empty ns (get key s))) d

  abbrev nobind_line : Value N → List String
  nobind_line v =
      if is_nullish v then "nobind" ∷ [] else if is_truthy ns v then "nobind" ∷ [] else []

  unfoldable pub fallback_server_derived_client_lines : List (String × Value N) → List String
  unfolding get text_or_empty is_nullish is_truthy trim normalize_client_dev
  fallback_server_derived_client_lines s =
      (append "dev " (normalize_client_dev to_lower (text_or_empty ns (get "dev" s)))
        ∷ append "proto " (setting_or "proto" "{{proto}}" s)
        ∷ append "remote " (setting_or "remote" "{{host}} {{port}}" s)
        ∷ append "resolv-retry " (setting_or "resolv-retry" "infinite" s)
        ∷ nobind_line (get "nobind" s))
      ++ (append "key-direction " (setting_or "key-direction" "{{key_direction}}" s) ∷ [])

  abbrev pub server_derived_keys : List String
  server_derived_keys =
      "dev" ∷ "proto" ∷ "remote" ∷ "resolv-retry" ∷ "nobind" ∷ "key-direction" ∷ []

  -- The line of a directive: a switch has its name alone, and none where it is off.
  abbrev directive : String → Value N → List String
  directive key (bool b) = if b then key ∷ [] else []
  directive key v = append key (append " " (string_of ns v)) ∷ []

  unfoldable pub own_lines : List SettingsFieldMeta → List (String × Value N) → List String
  unfolding has get string_of
  own_lines [] payload = []
  own_lines (f ∷ fs) payload =
      (if includes_name server_derived_keys f.key || not (has f.key payload)
        then []
        else directive f.key (get f.key payload))
      ++ own_lines fs payload

  -- `remote-cert-tls` names the other side's certificate.
  abbrev other_side : String → String
  other_side v =
      if v == "client" then "server" else if v == "server" then "client" else or_else v "server"

  abbrev shared_line : String → String → List String
  shared_line key v =
      if is_empty v
      then []
      else if key == "remote-cert-tls"
      then append key (append " " (other_side v)) ∷ []
      else append key (append " " v) ∷ []

  unfoldable pub shared_lines :
      List String → List (String × Value N) → List (String × Value N) → List String
  unfolding has get trim text_or_blank
  shared_lines [] payload s = []
  shared_lines (key ∷ keys) payload s =
      (if includes_name server_derived_keys key || has key payload
        then []
        else shared_line key (trim (text_or_blank ns (get key s))))
      ++ shared_lines keys payload s

  abbrev pub material_lines : List String
  material_lines =
      "" ∷ "<ca>" ∷ "{{ca}}" ∷ "</ca>" ∷ "" ∷ "<cert>" ∷ "{{cert}}" ∷ "</cert>" ∷ "" ∷ "<key>"
      ∷ "{{key}}" ∷ "</key>" ∷ "" ∷ "<tls-auth>" ∷ "{{tls_auth}}" ∷ "</tls-auth>" ∷ "" ∷ []

  unfoldable pub fallback_raw_from_client_settings :
      List (String × Value N) → List (String × Value N) → String
  unfolding join
  fallback_raw_from_client_settings settings server_settings =
      let payload = build_open_vpn_client_config_payload ns settings in
      join "\n" (
        fallback_server_derived_client_lines server_settings
        ++ own_lines openvpn_client_settings_fields payload
        ++ shared_lines ("data-ciphers" ∷ "data-ciphers-fallback" ∷ "auth" ∷ "remote-cert-tls" ∷ [])
            payload server_settings
        ++ material_lines)
