-- ===== src/Tests/Settings.antt =====
-- Settings of a server and of a client's profile, a certificate, and durations. The numbers are
-- the natural ones, and the only text of one is "0".
use openvpn_control_server.Shared.{
  ℕ, ◌≡◌, refl, true, List, [], ◌∷◌, String, Option, none, some, ◌==◌, eqb, trim, decimal,
  if◌then◌else◌,
}
use openvpn_control_server.Settings.Values.{Numbers, Value, bool, num, str, get}
use openvpn_control_server.Settings.ClientFields.{openvpn_client_settings_fields}
use openvpn_control_server.Settings.Agent.{build_open_vpn_payload_for_agent}
use openvpn_control_server.Settings.Agent.Pointwise.{
  type_of, sent, get-build_open_vpn_payload_for_agent,
}
use openvpn_control_server.Settings.Client.{build_open_vpn_client_config_payload}
use openvpn_control_server.Settings.Client.Pointwise.{
  client_value, get-build_open_vpn_client_config_payload,
}
use openvpn_control_server.Labels.Certificates.{UserCert, user_cert_can_show_config_download}

abbrev numbers : Numbers ℕ
numbers = record {
  of_string = λ s. if s == "0" then some 0 else none;
  of_bool = λ b. if b then 1 else 0;
  to_string = decimal;
  trunc = λ n. n;
  is_zero = λ n. eqb n 0;
}

abbrev settings : List (String × Value ℕ)
settings =
    ("port", num 1194)
    ∷ ("panelRootCaId", str "ca-1")
    ∷ ("keepalive", str " 10 60 ")
    ∷ ("nobind", bool true)
    ∷ ("push", str "route 10.0.0.0 255.0.0.0\n\n dhcp-option DNS 10.8.0.1 ")
    ∷ []

get-build_open_vpn_payload_for_agent_example :
    get "push" (build_open_vpn_payload_for_agent numbers settings)
    ≡ sent numbers "push" (get "push" settings)
get-build_open_vpn_payload_for_agent_example =
    get-build_open_vpn_payload_for_agent numbers "push" settings

abbrev profile : List (String × Value ℕ)
profile = ("verb", num 3) ∷ ("client", str "yes") ∷ ("proto", str " udp ") ∷ []

get-build_open_vpn_client_config_payload_example :
    get "verb" (build_open_vpn_client_config_payload numbers profile)
    ≡ client_value numbers (type_of "verb" openvpn_client_settings_fields) (get "verb" profile)
get-build_open_vpn_client_config_payload_example =
    get-build_open_vpn_client_config_payload numbers "verb" profile

abbrev cert : UserCert
cert = record {
  revoked_at = "";
  expires_at = "2027-01-01";
  has_key_material = none;
  has_cert_pem = true;
  has_key_pem = true;
  agent_node_id = "node-1";
}

abbrev time_of : String → Option ℕ
time_of s = if s == "2027-01-01" then some 1798761600000 else none

cert_shown : user_cert_can_show_config_download time_of 1790000000000 cert ≡ true
unfolding user_cert_can_show_config_download trim
cert_shown = refl
