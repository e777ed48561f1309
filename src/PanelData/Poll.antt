-- ===== src/PanelData/Poll.antt =====
-- What a page polls and how often: `panelDataKeysForRoute`, `panelDataPollIntervalMs` and
-- `panelDataFetchContext` of frontend/src/panelData.ts.
pub mod Laws
use openvpn_control_server.Shared.{
  ℕ, Bool, true, false, List, [], ◌∷◌, String, Option, none, some, ◌&&◌, ◌||◌, not, ◌==◌, is_empty,
  leb, length, append, join, if◌then◌else◌,
}
use openvpn_control_server.Routes.State.{AppRouteState}
use openvpn_control_server.PanelData.Keys.{
  PanelDataKey, overview, admins, certificates, clients, nodes, ip_history, source_ip_history,
  admin_action_logs, root_cas, organizations, vpn_users, includes, panel_data_endpoints, same_key,
}

-- `PanelDataFetchContext`: an empty text stands for an absent field, which the code treats alike.
pub record PanelDataFetchContext : Type 0 where
  pub selected_server_id : String

unfoldable pub user_profile_keys : String → List PanelDataKey
user_profile_keys tab =
    if tab == "certs" || tab == "vpn"
    then vpn_users ∷ certificates ∷ root_cas ∷ []
    else if tab == "ccd" || tab == "firewall"
    then vpn_users ∷ organizations ∷ []
    else if tab == "sessions"
    then vpn_users ∷ clients ∷ certificates ∷ []
    else vpn_users ∷ organizations ∷ []

unfoldable pub server_detail_keys : String → List PanelDataKey
server_detail_keys tab =
    if tab == "monitoring"
    then overview ∷ []
    else if tab == "sessions"
    then nodes ∷ clients ∷ vpn_users ∷ certificates ∷ []
    else if tab == "certificates" || tab == "ca-center"
    then nodes ∷ certificates ∷ root_cas ∷ []
    else nodes ∷ []

unfoldable pub logs_keys : AppRouteState → List PanelDataKey
logs_keys route =
    if route.logs_view == "source-ip"
    then source_ip_history ∷ []
    else if route.logs_view == "admin"
    then admin_action_logs ∷ []
    else ip_history ∷ []

unfoldable pub users_keys : AppRouteState → List PanelDataKey
users_keys route =
    if route.users_sub == "list"
    then vpn_users ∷ clients ∷ certificates ∷ []
    else if route.users_sub == "add"
    then root_cas ∷ []
    else if route.users_sub == "profile"
    then user_profile_keys route.user_profile_tab
    else vpn_users ∷ []

unfoldable pub servers_keys : AppRouteState → List PanelDataKey
servers_keys route =
    if route.servers_view == "list"
    then nodes ∷ []
    else if route.servers_view == "add"
    then []
    else if route.servers_view == "detail"
    then server_detail_keys route.server_detail_tab
    else nodes ∷ []

unfoldable pub panel_data_keys_for_route : AppRouteState → List PanelDataKey
panel_data_keys_for_route route =
    let nav = route.primary_nav in
    if nav == "inviteAdmin" || nav == "resetAdminPassword"
    then []
    else if nav == "documentation" || nav == "tasks" || nav == "myProfile"
    then []
    else if nav == "settings"
    then if route.settings_section == "admins" then admins ∷ [] else []
    else if nav == "logs"
    then logs_keys route
    else if nav == "organizations"
    then if route.organizations_view == "list" || route.organizations_view == "edit"
      then organizations ∷ []
      else []
    else if nav == "users"
    then users_keys route
    else if nav == "servers"
    then servers_keys route
    else []

-- `!keys.length`
abbrev pub is_nil : List PanelDataKey → Bool
is_nil [] = true
is_nil (k ∷ ks) = false

-- The monitoring tab of one server is open.
abbrev pub on_monitoring : AppRouteState → Bool
on_monitoring route =
    route.primary_nav == "servers"
    && route.servers_view == "detail"
    && route.server_detail_tab == "monitoring"

unfoldable pub panel_data_poll_interval_ms : AppRouteState → ℕ
panel_data_poll_interval_ms route =
    let keys = panel_data_keys_for_route route in
    if is_nil keys
    then 0
    else if on_monitoring route
    then 2000
    else if route.primary_nav == "servers" && route.servers_view == "list"
    then 3000
    else if includes certificates keys && leb 3 (length keys)
    then 4000
    else if route.primary_nav == "logs"
    then 5000
    else 3000

unfoldable pub panel_data_fetch_context : AppRouteState → PanelDataFetchContext
panel_data_fetch_context route =
    if on_monitoring route && not (is_empty route.selected_server_id)
    then record { selected_server_id = route.selected_server_id }
    else record { selected_server_id = "" }

-- `panelDataRouteKey`: the key on which the polling effect depends.
unfoldable pub panel_data_route_key : AppRouteState → String
unfolding join
panel_data_route_key route = join "|" (
    route.primary_nav ∷ route.servers_view ∷ route.selected_server_id ∷ route.server_detail_tab
    ∷ route.organizations_view ∷ route.organization_edit_id ∷ route.users_sub
    ∷ route.selected_user_id ∷ route.user_profile_tab ∷ route.admins_page ∷ route.settings_section
    ∷ route.logs_view ∷ [])

-- `endpointForKey`, given the browser's `encodeURIComponent`.
unfoldable pub endpoint_for_key : (String → String) → PanelDataKey → PanelDataFetchContext → String
endpoint_for_key encode key ctx =
    if same_key key overview && not (is_empty ctx.selected_server_id)
    then append (panel_data_endpoints overview)
        (append "?agentNodeId=" (encode ctx.selected_server_id))
    else panel_data_endpoints key
