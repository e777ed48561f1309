-- ===== src/Settings/Agent/Pointwise.antt =====
-- The payload for the agent, one property at a time.
use openvpn_control_server.Shared.{
  ◌≡◌, refl, ap, ◌∙◌, Bool, true, false, List, [], ◌∷◌, String, Option, none, some, ◌==◌, ◌||◌,
  ◌&&◌, Bool-cases, ◌⊎◌, inl, inr, if◌then◌else◌, arith, nonempty_trim_idem, eq_iff, split_on,
}
use openvpn_control_server.Settings.Meta.{
  SettingsFieldMeta, SettingsFieldType, number, select, text, textarea, checkbox,
}
use openvpn_control_server.Settings.ServerFields.{openvpn_server_settings_fields}
use openvpn_control_server.Settings.Values.{
  Numbers, Value, undefined, num, arr, number_of, text_or_empty, is_blank, get, remove,
}
use openvpn_control_server.Settings.Values.Laws.{get-put, get-remove}
use openvpn_control_server.Settings.Agent.{
  panel_only_openvpn_keys, trimmed_lines, agent_field_of, agent_fields, remove_all,
  build_open_vpn_payload_for_agent, lines_of, is_unset, put_number,
}

-- Whether a list of names holds one.
abbrev pub elem : String → List String → Bool
elem k [] = false
elem k (j ∷ js) = j == k || elem k js

-- The type of the field with that key.
unfoldable pub type_of : String → List SettingsFieldMeta → Option SettingsFieldType
type_of k [] = none
type_of k (f ∷ fs) = if f.key == k then some f.type else type_of k fs

abbrev pub is_none : Option SettingsFieldType → Bool
is_none none = true
is_none (some t) = false

unfoldable pub distinct_keys : List SettingsFieldMeta → Bool
unfolding type_of
distinct_keys [] = true
distinct_keys (f ∷ fs) = is_none (type_of f.key fs) && distinct_keys fs

pub server_fields_distinct : distinct_keys openvpn_server_settings_fields ≡ true
unfolding distinct_keys openvpn_server_settings_fields
server_fields_distinct = refl

pub is_none-eq : (t : Option SettingsFieldType) → is_none t ≡ true → t ≡ none
is_none-eq none h = refl
is_none-eq (some t) h = cc

module _ {N : Type 0} (ns : Numbers N) where
  number_or_undefined : Option N → Value N
  number_or_undefined none = undefined
  number_or_undefined (some n) = num n

  -- What the agent is sent for a value of a field of each type; undefined is not sent.
  unfoldable pub agent_value : Option SettingsFieldType → Value N → Value N
  unfolding number_or_undefined
  agent_value (some number) v =
      if is_blank v then undefined else number_or_undefined (number_of ns v)
  agent_value (some textarea) v = arr (lines_of ns v)
  agent_value (some select) v = if is_unset ns v then undefined else v
  agent_value (some text) v = v
  agent_value (some checkbox) v = v
  agent_value none v = v

  agent_value-none : (v : Value N) → agent_value none v ≡ v
  unfolding agent_value
  agent_value-none v = refl

  get-put_number :
      (j k : String) (r : Option N) (o : List (String × Value N))
      → get j (put_number ns k r o) ≡ (if k == j then number_or_undefined r else get j o)
  unfolding number_or_undefined
  get-put_number j k none o = get-remove j k o
  get-put_number j k (some n) o = get-put j k (num n) o

  get-agent_field_of :
      (j k : String) (t : SettingsFieldType) (o : List (String × Value N))
      → get j (agent_field_of ns t k (get k o) o)
        ≡ (if k == j then agent_value (some t) (get j o) else get j o)
  unfolding agent_value
  get-agent_field_of j k number o =
      ground (arith, eq_iff k j, get-remove j k o, get-put_number j k (number_of ns (get k o)) o)
  get-agent_field_of j k textarea o =
      ground (arith, eq_iff k j, get-put j k (arr (lines_of ns (get k o))) o)
  get-agent_field_of j k select o = ground (arith, eq_iff k j, get-remove j k o)
  get-agent_field_of j k text o = ground arith
  get-agent_field_of j k checkbox o = ground arith

  get-agent_fields :
      (j : String) (fs : List SettingsFieldMeta) (o : List (String × Value N))
      → distinct_keys fs ≡ true
      → get j (agent_fields ns fs o) ≡ agent_value (type_of j fs) (get j o)
  unfolding agent_fields distinct_keys
  get-agent_fields j [] o d = unfold type_of agent_value in refl
  get-agent_fields j (f ∷ fs) o d =
      get-agent_fields j fs (agent_field_of ns f.type f.key (get f.key o) o) (ground arith)
      ∙ here (Bool-cases (f.key == j)) (ground arith)
    where
      o' : List (String × Value N)
      o' = agent_field_of ns f.type f.key (get f.key o) o

      here :
          ((f.key == j) ≡ true) ⊎ ((f.key == j) ≡ false)
          → is_none (type_of f.key fs) ≡ true
          → agent_value (type_of j fs) (get j o') ≡ agent_value (type_of j (f ∷ fs)) (get j o)
      here (inl e) n =
          let new : type_of j fs ≡ none =
            rw (← (eq_iff f.key j).0 e) (is_none-eq (type_of f.key fs) n) in
          rw (new, get-agent_field_of j f.key f.type o, type_of, e)
            (agent_value-none (agent_value (some f.type) (get j o)))
      here (inr e) n = rw (get-agent_field_of j f.key f.type o, type_of, e)

  get-remove_all :
      (j : String) (ks : List String) (o : List (String × Value N))
      → get j (remove_all ns ks o) ≡ (if elem j ks then undefined else get j o)
  unfolding remove_all
  get-remove_all j [] o = refl
  get-remove_all j (k ∷ ks) o = ground (arith, get-remove_all j ks (remove k o), get-remove j k o)

  -- What the agent is sent under each name, on its own.
  unfoldable pub sent : String → Value N → Value N
  unfolding agent_value
  sent j v =
      if elem j panel_only_openvpn_keys
      then undefined
      else agent_value (type_of j openvpn_server_settings_fields) v

  -- Each property of the payload is made of that property of the settings alone: nothing is sent
  -- of what only the panel knows, a field is sent by its type, and any other property as it is.
  pub get-build_open_vpn_payload_for_agent :
      (j : String) (state_obj : List (String × Value N))
      → get j (build_open_vpn_payload_for_agent ns state_obj) ≡ sent j (get j state_obj)
  unfolding build_open_vpn_payload_for_agent sent
  get-build_open_vpn_payload_for_agent j state_obj = rw (
    get-remove_all j panel_only_openvpn_keys
        (agent_fields ns openvpn_server_settings_fields state_obj),
    get-agent_fields j openvpn_server_settings_fields state_obj server_fields_distinct,
  )

  lines_of-arr_idem : (v : Value N) → lines_of ns (arr (lines_of ns v)) ≡ lines_of ns v
  unfolding trimmed_lines
  lines_of-arr_idem (arr xs) = nonempty_trim_idem xs
  lines_of-arr_idem v = nonempty_trim_idem (split_on 10 (text_or_empty ns v))

  agent_value_idem :
      (t : Option SettingsFieldType) (v : Value N)
      → agent_value t (agent_value t v) ≡ agent_value t v
  unfolding agent_value number_of is_blank
  agent_value_idem (some number) v = ground arith
  agent_value_idem (some textarea) v = ap arr (lines_of-arr_idem v)
  agent_value_idem (some select) v = ground arith
  agent_value_idem (some text) v = refl
  agent_value_idem (some checkbox) v = refl
  agent_value_idem none v = refl

  sent_idem : (j : String) (v : Value N) → sent j (sent j v) ≡ sent j v
  unfolding sent
  sent_idem j v = ground (arith, agent_value_idem (type_of j openvpn_server_settings_fields) v)

  -- Making the payload of a payload changes nothing in it.
  pub build_open_vpn_payload_for_agent_idem :
      (j : String) (state_obj : List (String × Value N))
      → get j (build_open_vpn_payload_for_agent ns (build_open_vpn_payload_for_agent ns state_obj))
        ≡ get j (build_open_vpn_payload_for_agent ns state_obj)
  build_open_vpn_payload_for_agent_idem j state_obj =
      rw
        (
          get-build_open_vpn_payload_for_agent j (build_open_vpn_payload_for_agent ns state_obj),
          get-build_open_vpn_payload_for_agent j state_obj,
        )
        (sent_idem j (get j state_obj))
