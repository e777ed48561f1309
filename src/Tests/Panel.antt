-- ===== src/Tests/Panel.antt =====
-- A refresh of the servers page, and the lists of keys.
use openvpn_control_server.Shared.{
  apart, ◌≡◌, refl, ◌↔◌, ◌⊎◌, inl, inr, true, false, List, [], ◌∷◌, ◌∈◌, in-append_iff, String,
  Option, none, some, if◌then◌else◌,
}
use openvpn_control_server.Routes.State.{AppRouteState}
use openvpn_control_server.Routes.Parse.{base}
use openvpn_control_server.PanelData.Keys.{
  PanelDataKey, overview, nodes, admins, same_key, unique_keys, panel_data_endpoints,
}
use openvpn_control_server.PanelData.Poll.{
  PanelDataFetchContext, endpoint_for_key, panel_data_keys_for_route, panel_data_fetch_context,
  on_monitoring,
}
use openvpn_control_server.PanelData.Poll.Laws.{panel_data_keys_for_route-overview}
use openvpn_control_server.PanelData.Fetch.{
  PanelRequest, Settled, fulfilled, rejected, PanelState, panel_request, fetch_panel_data_keys,
  from_entries, get,
}
use openvpn_control_server.PanelData.Fetch.Laws.{
  IsAnswer, fetch_panel_data_keys-eq, fetch_panel_data_keys-rejected,
}
use openvpn_control_server.PanelData.Refresh.{
  RefreshState, PendingFetch, World, begin_refresh, settle_refresh, load_data, refresh, here, next,
  started,
}
use openvpn_control_server.PanelData.Refresh.Laws.{
  IsGuarded, Reach-IsGuarded, settle_refresh-get, load_data-begins,
}

abbrev blank : PanelState String
blank = record {
  overview = "";
  admins = "";
  certificates = "";
  clients = "";
  nodes = "";
  ip_history = "";
  source_ip_history = "";
  admin_action_logs = "";
  root_cas = "";
  organizations = "";
  vpn_users = "";
}

abbrev idle : RefreshState String
idle = record { token = "jwt"; in_flight = false; error = "timeout"; panel = blank }

abbrev idle_world : World String
idle_world = record { app = idle; pending = [] }

Reach-IsGuarded_example : IsGuarded (record {
  app = (begin_refresh base none idle).0;
  pending = started (begin_refresh base none idle).1 [];
})
Reach-IsGuarded_example =
    Reach-IsGuarded (next here (refresh idle_world base none)) (inr (refl, refl))

-- A server that answers each request with its path.
abbrev echo : PanelRequest → Settled String String
echo r = fulfilled r.path

abbrev same_text : String → String
same_text s = s

abbrev context : PanelDataFetchContext
context = record { selected_server_id = "" }

abbrev asked : List PanelDataKey
asked = overview ∷ nodes ∷ overview ∷ []

abbrev pending_fetch : PendingFetch
pending_fetch = record { token = "jwt"; keys = asked; ctx = context }

abbrev patch : PanelDataKey → Option String
patch = from_entries ((overview, "/api/monitoring/overview") ∷ (nodes, "/api/agent/nodes") ∷ [])

patch_fetched : (fetch_panel_data_keys same_text echo "jwt" asked context).1 ≡ fulfilled patch
unfolding fetch_panel_data_keys unique_keys same_key endpoint_for_key panel_data_endpoints
patch_fetched = refl

settle_refresh-get_example :
    ((k : PanelDataKey)
      → ((k ∈ asked)
          × (echo (panel_request same_text "jwt" context k)
              ≡ fulfilled (get k (settle_refresh (fulfilled patch) idle).panel)))
        ⊎ ((¬ (k ∈ asked)) × (get k (settle_refresh (fulfilled patch) idle).panel ≡ get k blank)))
    × ((settle_refresh (fulfilled patch) idle).error ≡ "")
    × ((settle_refresh (fulfilled patch) idle).in_flight ≡ false)
settle_refresh-get_example =
    settle_refresh-get same_text echo pending_fetch idle patch patch_fetched

abbrev jwt : String
jwt = "jwt"

load_data-begins_example :
    (p : PendingFetch) × (load_data base (admins ∷ []) idle
      ≡ (record idle { in_flight = true }, some p))
    × ((j : PanelDataKey)
        → (j ∈ p.keys) ↔ ((j ∈ panel_data_keys_for_route base) ⊎ (j ∈ (admins ∷ []))))
load_data-begins_example =
    load_data-begins base (admins ∷ []) idle (apart jwt "" refl) refl admins
      ((in-append_iff admins (panel_data_keys_for_route base) (admins ∷ [])).1 (inr (inl refl)))

fetch_panel_data_keys-eq_example :
    ((nodes ∈ asked) × IsAnswer same_text echo "jwt" asked context patch nodes)
    ⊎ ((¬ (nodes ∈ asked)) × (patch nodes ≡ none))
fetch_panel_data_keys-eq_example =
    fetch_panel_data_keys-eq same_text echo "jwt" asked context patch patch_fetched nodes

-- A server that is down.
abbrev down : PanelRequest → Settled String String
down r = rejected "unavailable"

down_fetched : (fetch_panel_data_keys same_text down "jwt" asked context).1 ≡ rejected "unavailable"
unfolding fetch_panel_data_keys unique_keys same_key
down_fetched = refl

fetch_panel_data_keys-rejected_example :
    (k : PanelDataKey) × (k ∈ asked)
    × (down (panel_request same_text "jwt" context k) ≡ rejected "unavailable")
fetch_panel_data_keys-rejected_example =
    fetch_panel_data_keys-rejected same_text down "jwt" asked context "unavailable" down_fetched

abbrev monitoring : AppRouteState
monitoring = record base {
  servers_view = "detail";
  selected_server_id = "node-1";
  server_detail_tab = "monitoring";
}

panel_data_keys_for_route-overview_example :
    ((overview ∈ panel_data_keys_for_route monitoring) ↔ (on_monitoring monitoring ≡ true))
    × ((panel_data_fetch_context monitoring).selected_server_id
        ≡ (if on_monitoring monitoring then "node-1" else ""))
panel_data_keys_for_route-overview_example = panel_data_keys_for_route-overview monitoring
