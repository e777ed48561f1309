-- ===== src/Settings/Panel.antt =====
-- What the panel saves and what linking a certificate changes: `buildOpenVpnSettingsForPanelSave`
-- and `openvpnCertPathsPartial` of frontend/src/App.tsx.
pub mod Pointwise
use openvpn_control_server.Shared.{
  Bool, true, false, ◌&&◌, List, [], ◌∷◌, ◌++◌, String, Option, none, some, trim, is_empty,
  if◌then◌else◌,
}
use openvpn_control_server.Settings.Meta.{
  SettingsFieldMeta, SettingsFieldType, number, select, text, textarea, checkbox,
}
use openvpn_control_server.Settings.ServerFields.{openvpn_server_settings_fields}
use openvpn_control_server.Settings.Values.{
  Numbers, Value, undefined, null, bool, num, str, arr, number_of, string_of, is_blank, is_nullish,
  is_truthy, get, has, put,
}
use openvpn_control_server.Settings.Agent.{build_open_vpn_payload_for_agent}

abbrev pub panel_save_extra_keys : List String
panel_save_extra_keys =
    "panelRootCaId" ∷ "panelServerCertId" ∷ "panelDhMaterialId" ∷ "panelTlsAuthMaterialId" ∷ []

abbrev pub panel_client_profile_keys : List String
panel_client_profile_keys =
    "remote" ∷ "resolv-retry" ∷ "nobind" ∷ "key-direction" ∷ "client-verb" ∷ "remote-cert-tls" ∷ []

module _ {N : Type 0} (ns : Numbers N) where
  -- A number that is not finite is saved as the empty text.
  abbrev number_or_text : Option N → Value N
  number_or_text none = str ""
  number_or_text (some n) = num n

  abbrev saved_number : Value N → Value N
  saved_number raw = if is_blank raw then str "" else number_or_text (number_of ns raw)

  abbrev saved_select : Value N → Value N
  saved_select raw = if is_blank raw then str "" else str (trim (string_of ns raw))

  abbrev saved_text : Value N → Value N
  saved_text raw = if is_nullish raw then str "" else str (trim (string_of ns raw))

  -- A round of the loop over the fields that the settings have.
  abbrev save_field_of :
      SettingsFieldType → String → Value N → List (String × Value N) → List (String × Value N)
  save_field_of number k raw base = put k (saved_number raw) base
  save_field_of select k raw base = put k (saved_select raw) base
  save_field_of text k raw base = put k (saved_text raw) base
  save_field_of textarea k raw base = base
  save_field_of checkbox k raw base = base

  unfoldable pub save_fields :
      List SettingsFieldMeta
      → List (String × Value N)
      → List (String × Value N)
      → List (String × Value N)
  unfolding has get put is_blank is_nullish number_of string_of
  save_fields [] state_obj base = base
  save_fields (f ∷ fs) state_obj base =
      save_fields fs state_obj (
        if has f.key state_obj then save_field_of f.type f.key (get f.key state_obj) base else base)

  abbrev saved_extra : Value N → Value N
  saved_extra v = if is_nullish v then str "" else str (string_of ns v)

  abbrev saved_profile : Value N → Value N
  saved_profile (bool b) = bool b
  saved_profile v = saved_extra v

  -- The loops over the two lists of keys.
  unfoldable pub save_keys :
      (Value N → Value N)
      → List String
      → List (String × Value N)
      → List (String × Value N)
      → List (String × Value N)
  unfolding has get put
  save_keys value [] state_obj base = base
  save_keys value (k ∷ ks) state_obj base =
      save_keys value ks state_obj
        (if has k state_obj then put k (value (get k state_obj)) base else base)

  unfoldable pub build_open_vpn_settings_for_panel_save :
      List (String × Value N) → List (String × Value N)
  build_open_vpn_settings_for_panel_save state_obj =
      let base = build_open_vpn_payload_for_agent ns state_obj in
      let with_fields = save_fields openvpn_server_settings_fields state_obj base in
      let with_extras = save_keys saved_extra panel_save_extra_keys state_obj with_fields in
      save_keys saved_profile panel_client_profile_keys state_obj with_extras

  -- `!String(settings?.[key] ?? "").trim()`
  abbrev is_missing : String → List (String × Value N) → Bool
  is_missing key settings =
      let v = get key settings in is_empty (trim (if is_nullish v then "" else string_of ns v))

  -- The paths that go with a linked root CA or server certificate, where none are set; `none` is
  -- an argument that is not given.
  abbrev when_missing :
      String → String → List (String × Value N) → List (String × Value N) → List (String × Value N)
  when_missing key path settings partial =
      if is_missing key settings then put key (str path) partial else partial

  abbrev link :
      String
      → Option (Value N)
      → (List (String × Value N) → List (String × Value N))
      → List (String × Value N)
      → List (String × Value N)
  link key none paths partial = partial
  link key (some id) paths partial =
      let partial' = put key id partial in if is_truthy ns id then paths partial' else partial'

  unfoldable pub openvpn_cert_paths_partial :
      List (String × Value N) → Option (Value N) → Option (Value N) → List (String × Value N)
  unfolding get put is_nullish is_truthy string_of
  openvpn_cert_paths_partial settings panel_root_ca_id panel_server_cert_id =
      let with_ca =
        link "panelRootCaId" panel_root_ca_id
          (λ p.
            when_missing "crl-verify" "/etc/openvpn/crl.pem" settings
              (when_missing "ca" "/etc/openvpn/ca.crt" settings p))
          [] in
      link "panelServerCertId" panel_server_cert_id
        (λ p.
          when_missing "key" "/etc/openvpn/server.key" settings
            (when_missing "cert" "/etc/openvpn/server.crt" settings p))
        with_ca
