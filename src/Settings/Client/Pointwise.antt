-- ===== src/Settings/Client/Pointwise.antt =====
-- The payload of a client's profile, one property at a time.
use openvpn_control_server.Shared.{
  ◌≡◌, refl, ◌∙◌, true, false, List, [], ◌∷◌, String, Option, none, some, ◌==◌, Bool-cases, ◌⊎◌,
  inl, inr, trim, is_empty, if◌then◌else◌, arith, eq_iff,
}
use openvpn_control_server.Settings.Meta.{
  SettingsFieldMeta, SettingsFieldType, number, select, text, textarea, checkbox,
}
use openvpn_control_server.Settings.ClientFields.{openvpn_client_settings_fields}
use openvpn_control_server.Settings.Values.{
  Numbers, Value, undefined, bool, str, number_of, is_blank, is_truthy, get,
}
use openvpn_control_server.Settings.Values.Laws.{get-put, get-remove}
use openvpn_control_server.Settings.Agent.Pointwise.{type_of, distinct_keys, is_none, is_none-eq}
use openvpn_control_server.Settings.Client.{
  text_or_blank, client_field_of, client_fields, put_trunc, put_text,
  build_open_vpn_client_config_payload,
}

client_fields_distinct : distinct_keys openvpn_client_settings_fields ≡ true
unfolding distinct_keys openvpn_client_settings_fields
client_fields_distinct = refl

module _ {N : Type 0} (ns : Numbers N) where
  whole_or_undefined : Option N → Value N
  whole_or_undefined none = undefined
  whole_or_undefined (some n) = str (ns.to_string (ns.trunc n))

  text_or_undefined : String → Value N
  text_or_undefined t = if is_empty t then undefined else str t

  -- What the profile holds for a value of a field of each type: a whole number as a text, a switch
  -- as a Boolean, and any other as a trimmed text; undefined is not in the profile.
  unfoldable pub client_value : Option SettingsFieldType → Value N → Value N
  unfolding whole_or_undefined text_or_undefined
  client_value none v = v
  client_value (some number) v =
      if is_blank v then undefined else whole_or_undefined (number_of ns v)
  client_value (some checkbox) v = bool (is_truthy ns v)
  client_value (some select) v = text_or_undefined (trim (text_or_blank ns v))
  client_value (some text) v = text_or_undefined (trim (text_or_blank ns v))
  client_value (some textarea) v = text_or_undefined (trim (text_or_blank ns v))

  get-put_trunc :
      (j k : String) (r : Option N) (o : List (String × Value N))
      → get j (put_trunc ns k r o) ≡ (if k == j then whole_or_undefined r else get j o)
  unfolding whole_or_undefined
  get-put_trunc j k none o = get-remove j k o
  get-put_trunc j k (some n) o = get-put j k (str (ns.to_string (ns.trunc n))) o

  get-put_text :
      (j k t : String) (o : List (String × Value N))
      → get j (put_text ns k t o) ≡ (if k == j then text_or_undefined t else get j o)
  unfolding text_or_undefined
  get-put_text j k t o = ground (arith, get-remove j k o, get-put j k (str t) o)

  get-client_field_of :
      (j k : String) (t : SettingsFieldType) (o : List (String × Value N))
      → get j (client_field_of ns t k (get k o) o)
        ≡ (if k == j then client_value (some t) (get j o) else get j o)
  unfolding client_value
  get-client_field_of j k number o =
      ground (arith, eq_iff k j, get-remove j k o, get-put_trunc j k (number_of ns (get k o)) o)
  get-client_field_of j k checkbox o =
      ground (arith, eq_iff k j, get-put j k (bool (is_truthy ns (get k o))) o)
  get-client_field_of j k select o =
      ground (arith, eq_iff k j, get-put_text j k (trim (text_or_blank ns (get k o))) o)
  get-client_field_of j k text o =
      ground (arith, eq_iff k j, get-put_text j k (trim (text_or_blank ns (get k o))) o)
  get-client_field_of j k textarea o =
      ground (arith, eq_iff k j, get-put_text j k (trim (text_or_blank ns (get k o))) o)

  client_value-none : (v : Value N) → client_value none v ≡ v
  unfolding client_value
  client_value-none v = refl

  get-client_fields :
      (j : String) (fs : List SettingsFieldMeta) (o : List (String × Value N))
      → distinct_keys fs ≡ true
      → get j (client_fields ns fs o) ≡ client_value (type_of j fs) (get j o)
  unfolding client_fields distinct_keys
  get-client_fields j [] o d = unfold type_of client_value in refl
  get-client_fields j (f ∷ fs) o d =
      get-client_fields j fs (client_field_of ns f.type f.key (get f.key o) o) (ground arith)
      ∙ here (Bool-cases (f.key == j)) (ground arith)
    where
      o' : List (String × Value N)
      o' = client_field_of ns f.type f.key (get f.key o) o

      here :
          ((f.key == j) ≡ true) ⊎ ((f.key == j) ≡ false)
          → is_none (type_of f.key fs) ≡ true
          → client_value (type_of j fs) (get j o') ≡ client_value (type_of j (f ∷ fs)) (get j o)
      here (inl e) n =
          let new : type_of j fs ≡ none =
            rw (← (eq_iff f.key j).0 e) (is_none-eq (type_of f.key fs) n) in
          rw (new, get-client_field_of j f.key f.type o, type_of, e)
            (client_value-none (client_value (some f.type) (get j o)))
      here (inr e) n = rw (get-client_field_of j f.key f.type o, type_of, e)

  -- Each property of the payload for a client's profile is made of that property of the settings
  -- alone: a field by its type, and any other property as it is.
  pub get-build_open_vpn_client_config_payload :
      (j : String) (state_obj : List (String × Value N))
      → get j (build_open_vpn_client_config_payload ns state_obj)
        ≡ client_value (type_of j openvpn_client_settings_fields) (get j state_obj)
  unfolding build_open_vpn_client_config_payload
  get-build_open_vpn_client_config_payload j state_obj =
      get-client_fields j openvpn_client_settings_fields state_obj client_fields_distinct
