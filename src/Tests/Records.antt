-- ===== src/Tests/Records.antt =====
-- Certificates, metrics, users, logs and requests.
use openvpn_control_server.Shared.{
  not, ◌&&◌, ℕ, ◌≡◌, ◌≢◌, ◌↔◌, inl, inr, ◌≤◌, ◌<◌, ◌+◌, ◌*◌, max, refl, Bool, true, false, ◌||◌,
  List, [], ◌∷◌, map, Option, none, some, String, apart, is_empty, ◌==◌, IsDistinct, IsPreorder,
  IsSorted, ◌∈◌, leb, trim, arith,
}
use openvpn_control_server.Session.Token.{text_length}
use openvpn_control_server.Certificates.{
  Certificate, root_of, has_key, user_modal_bindable_certificates, new_user_bindable_certificates,
}
use openvpn_control_server.Certificates.Laws.{user_modal_bindable_certificates_lem}
use openvpn_control_server.Certificates.Validity.{days_remaining_until, day_ms}
use openvpn_control_server.Certificates.Validity.Laws.{days_remaining_until_bounds}
use openvpn_control_server.Metrics.Time.{parse_utc_ms, monitoring_x_range}
use openvpn_control_server.Metrics.Chart.{to_chart_series}
use openvpn_control_server.Metrics.Chart.Laws.{to_chart_series-rows}
use openvpn_control_server.Metrics.Live.{Metrics, Sample, by_created, merge_live_metric_samples}
use openvpn_control_server.Metrics.Live.Laws.{last, merge_live_metric_samples-IsSorted}
use openvpn_control_server.Users.Profiles.{VpnUser, Client, map_get, cn_profile_map}
use openvpn_control_server.Users.Profiles.Laws.{last_profile, map_get-cn_profile_map}
use openvpn_control_server.Users.Sessions.{SessionRow, row_key, row_of, load_user_profile_sessions}
use openvpn_control_server.Users.Sessions.Laws.{load_user_profile_sessions_lem}
use openvpn_control_server.Users.Create.{
  NewUser, CertForm, CreateRequest, create_user, Reply, created, finished, user_body, selected_cert,
  new_cn_of, create_vpn_user,
}
use openvpn_control_server.Users.Create.Laws.{is_incomplete, create_vpn_user-finished_iff}
use openvpn_control_server.Users.Disconnect.{
  Disconnecting, closed_modal, done, Event, submitted, answered, shown_sessions, step, run,
}
use openvpn_control_server.Users.Disconnect.Laws.{IsKept, run-shown}
use openvpn_control_server.Tables.History.{
  HistoryRow, sort_rows_by_last_seen_desc, logs_found, is_found,
}
use openvpn_control_server.Tables.History.Laws.{newer, sort_rows_by_last_seen_desc-IsSorted}
use openvpn_control_server.Http.{Body, no_json, unreachable, response, request, is_ok}
use openvpn_control_server.Http.Laws.{HasMessage, is_null, request-HasMessage}

-- Names by their length.
abbrev collate : String → String → Bool
collate a b = leb (text_length a) (text_length b)

collate-IsPreorder : IsPreorder collate
collate-IsPreorder = record { total = λ a b h. ground arith; trans = λ a b c h k. ground arith }

abbrev same : String → String
same s = s

abbrev cert : Certificate
cert = record {
  id = "c1";
  common_name = "anna";
  root_ca_id = "r1";
  root_ca = "";
  vpn_user_id = "";
  agent_node_id = "";
  revoked_at = "";
  has_key_material = some true;
  cert_pem = "";
  key_pem = "";
  created_at = 7;
}

abbrev root : String
root = "r1"

abbrev linked : Certificate
linked = record cert { id = "c2"; vpn_user_id = "u1" }

user_modal_bindable_certificates_lem_example :
    (user_modal_bindable_certificates collate root (linked ∷ cert ∷ [])
      ≡ new_user_bindable_certificates collate root (linked ∷ cert ∷ []))
    × ((cert ∈ user_modal_bindable_certificates collate root (linked ∷ cert ∷ [])) ↔ (
        (cert ∈ (linked ∷ cert ∷ []))
        × (root ≢ "")
        × (root_of cert ≡ root)
        × (cert.revoked_at ≡ "")
        × (cert.vpn_user_id ≡ "")
        × (has_key cert ≡ true)))
user_modal_bindable_certificates_lem_example =
    user_modal_bindable_certificates_lem collate collate-IsPreorder root (linked ∷ cert ∷ []) cert

abbrev noon : String → Option ℕ
noon s = some 1700000000000

days_remaining_until_bounds_example :
    (1700000000000 ≤ 1699900000000 + days_remaining_until noon 1699900000000 "2023" * day_ms)
    × (1699900000000 + days_remaining_until noon 1699900000000 "2023" * day_ms
        < max 1699900000000 1700000000000 + day_ms)
days_remaining_until_bounds_example =
    days_remaining_until_bounds noon 1699900000000 1700000000000 "2023" (apart "2023" "" refl) refl

abbrev value : ℕ
value = 5

abbrev values : List ℕ
values = value ∷ []

abbrev created_at : ℕ → Option String
created_at n = some "2023-11-14 22:13:20"

to_chart_series-rows_example :
    (((1700000000000, value)
        ∈ (to_chart_series noon created_at 1700000001000 values ((λ n. n) ∷ []) none).rows)
      ↔ ((value ∈ values)
          × (parse_utc_ms noon (created_at value) ≡ some 1700000000000)
          × ((monitoring_x_range 1700000001000 none).0 ≤ 1700000000000)))
    × IsSorted leb (to_chart_series noon created_at 1700000001000 values ((λ n. n) ∷ []) none).x
to_chart_series-rows_example =
    to_chart_series-rows noon created_at 1700000001000 values ((λ n. n) ∷ []) none 1700000000000
      value

abbrev idle : Metrics
idle = record {
  cpu_percent = 1;
  memory_percent = 2;
  disk_percent = 3;
  disk_read_bps = 4;
  disk_write_bps = 5;
  network_in_bps = 6;
  network_out_bps = 7;
}

abbrev earlier : Sample
earlier = record { created_at = 1000; metrics = idle }

merge_live_metric_samples-IsSorted_example :
    IsSorted by_created (merge_live_metric_samples 1500 (earlier ∷ []) idle)
    × (last (merge_live_metric_samples 1500 (earlier ∷ []) idle)
        ≡ some (record { created_at = 1500; metrics = idle }))
merge_live_metric_samples-IsSorted_example =
    merge_live_metric_samples-IsSorted 1500 (earlier ∷ []) idle
      (λ s h. elim h [ inl e ↦ rw e (omega arith) | inr k ↦ absurd k ])

abbrev anna : VpnUser
anna = record {
  id = "u1";
  full_name = "Anna";
  position = "";
  email = "";
  phone = "";
  organization_name = "";
}

abbrev client : Client
client = record {
  id = "7";
  node_id = "n1";
  node_name = "";
  common_name = "anna";
  remote_ip = "";
  virtual_ip = "10.8.0.2";
  connected_at = "";
  connected_since = "";
  in_bps = 3;
  out_bps = 4;
}

map_get-cn_profile_map_example :
    map_get "anna" (cn_profile_map (anna ∷ []) (cert ∷ linked ∷ []))
    ≡ last_profile (anna ∷ []) "anna" (cert ∷ linked ∷ []) none
map_get-cn_profile_map_example = map_get-cn_profile_map (anna ∷ []) "anna" (cert ∷ linked ∷ [])

abbrev known : SessionRow
known = record (row_of 9 client) { session_id = "6" }

load_user_profile_sessions_lem_example :
    IsDistinct (
      map row_key
        (load_user_profile_sessions same 10 "u1" (linked ∷ []) (client ∷ []) (some (known ∷ []))))
    × ("n1\t6"
        ∈ map row_key (
            load_user_profile_sessions same 10 "u1"
              (linked ∷ [])
              (client ∷ [])
              (some (known ∷ []))))
load_user_profile_sessions_lem_example =
    load_user_profile_sessions_lem same 10 "u1" (linked ∷ []) (client ∷ []) (known ∷ []) "n1\t6"
      ((λ h. absurd h), tt) (inl (inl refl))

abbrev seen : HistoryRow
seen = record {
  id = "1";
  first_seen_at = "2023";
  last_seen_at = "2023";
  ended_at = none;
  duration_seconds = none;
}

abbrev shown : HistoryRow → List String
shown r = r.id ∷ []

sort_rows_by_last_seen_desc-IsSorted_example :
    IsSorted (newer noon) (
      sort_rows_by_last_seen_desc noon collate
        (logs_found same (λ s t. s == t) shown " 1" (seen ∷ [])))
    × ((seen
          ∈ sort_rows_by_last_seen_desc noon collate
              (logs_found same (λ s t. s == t) shown " 1" (seen ∷ [])))
        ↔ ((seen ∈ (seen ∷ []))
            × (is_empty (same (trim " 1"))
                  || is_found same (λ s t. s == t) shown (same (trim " 1")) seen
                ≡ true)))
sort_rows_by_last_seen_desc-IsSorted_example =
    sort_rows_by_last_seen_desc-IsSorted noon collate collate-IsPreorder same (λ s t. s == t) shown
      " 1" (seen ∷ []) seen

abbrev status : ℕ
status = 401

abbrev token : String
token = "jwt"

abbrev nothing : Body ℕ
nothing = no_json

request-HasMessage_example :
    (HasMessage (request token (response status nothing)).1
      ↔ ((is_ok status ≡ false) × (is_null nothing ≡ false)))
    × (((request token (response status nothing)).0 ≡ true) ↔ ((status ≡ 401) × (token ≢ "")))
    × HasMessage (request {D = ℕ} token unreachable).1
    × ((request {D = ℕ} token unreachable).0 ≡ false)
request-HasMessage_example = request-HasMessage token status nothing

abbrev newcomer : NewUser
newcomer = record {
  full_name = "Boris ";
  position = "";
  email = "b@c";
  phone = "";
  organization_id = "";
  notes = "";
}

-- A new certificate is asked for, and its name is missing.
abbrev unnamed : CertForm
unnamed = record {
  choice = "__create__";
  server_id = "n1";
  new_cn = " ";
  root_ca_id = "r1";
  validity_days = none;
}

abbrev accept : CreateRequest → Reply
accept r = created "7"

abbrev seven : CreateRequest → String
seven r = "7"

unnamed_root : (not (is_empty (new_cn_of unnamed)) && is_empty (trim unnamed.root_ca_id)) ≡ false
unfolding new_cn_of trim
unnamed_root = refl

create_vpn_user-finished_iff_example :
    (create_user (user_body newcomer)
      ∈ (create_vpn_user accept 0 30 (cert ∷ []) newcomer unnamed).0)
    × (((create_vpn_user accept 0 30 (cert ∷ []) newcomer unnamed).1 ≡ finished "7")
        ↔ (is_incomplete (selected_cert (cert ∷ []) unnamed) unnamed ≡ false))
create_vpn_user-finished_iff_example =
    create_vpn_user-finished_iff accept 0 30 seven (cert ∷ []) newcomer unnamed (λ r. refl)
      unnamed_root

abbrev ending : Disconnecting
ending = record {
  keys = "n1-6" ∷ [];
  stored = "n1-6" ∷ [];
  target_node = "n1";
  target_session = "7";
  modal = closed_modal;
}

abbrev ends : List Event
ends = submitted "jwt" ∷ answered ("n1", "7") done ∷ []

abbrev key : String
key = "n1-7"

run-shown_example :
    IsKept (step (shown_sessions (key ∷ [])) (run ends ending))
    × ((key ∈ (step (shown_sessions (key ∷ [])) (run ends ending)).keys)
        ↔ ((key ∈ (run ends ending).keys) × (key ∈ (key ∷ []))))
run-shown_example =
    run-shown ends (key ∷ []) ending key (record { is_stored = refl; is_distinct = ((λ h. h), tt) })
