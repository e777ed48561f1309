-- ===== src/PanelData/Poll/Laws.antt =====
-- What `panelDataKeysForRoute` and `panelDataPollIntervalMs` give on every route.
use openvpn_control_server.Shared.{
  ◌≡◌, refl, ap, is_empty_iff, ◌≤◌, ◌↔◌, ◌⊎◌, Bool, true, false, List, [], String, arith, ◌==◌, ◌∈◌,
  IsDistinct, if◌then◌else◌, ◌||◌, ◌&&◌, ◌≢◌,
}
use text.Mathlib.TextEquality.{eq_iff}
use openvpn_control_server.Routes.State.{AppRouteState}
use openvpn_control_server.PanelData.Keys.{PanelDataKey, overview}
use openvpn_control_server.PanelData.Poll.{
  panel_data_keys_for_route, panel_data_poll_interval_ms, panel_data_fetch_context, on_monitoring,
  user_profile_keys, server_detail_keys, logs_keys, users_keys, servers_keys,
}

user_profile_keys-IsDistinct : (tab : String) → IsDistinct (user_profile_keys tab)
unfolding user_profile_keys
user_profile_keys-IsDistinct tab = ground arith

server_detail_keys-IsDistinct : (tab : String) → IsDistinct (server_detail_keys tab)
unfolding server_detail_keys
server_detail_keys-IsDistinct tab = ground arith

logs_keys-IsDistinct : (route : AppRouteState) → IsDistinct (logs_keys route)
unfolding logs_keys
logs_keys-IsDistinct route = ground arith

users_keys-IsDistinct : (route : AppRouteState) → IsDistinct (users_keys route)
unfolding users_keys
users_keys-IsDistinct route = ground (arith, user_profile_keys-IsDistinct route.user_profile_tab)

servers_keys-IsDistinct : (route : AppRouteState) → IsDistinct (servers_keys route)
unfolding servers_keys
servers_keys-IsDistinct route =
    ground (arith, server_detail_keys-IsDistinct route.server_detail_tab)

-- No page polls an entity twice.
pub panel_data_keys_for_route-IsDistinct :
    (route : AppRouteState) → IsDistinct (panel_data_keys_for_route route)
unfolding panel_data_keys_for_route
panel_data_keys_for_route-IsDistinct route =
    ground (
      arith,
      logs_keys-IsDistinct route,
      users_keys-IsDistinct route,
      servers_keys-IsDistinct route,
    )

-- A route polls nothing exactly when its interval is 0, and any other interval lies between two
-- and five seconds.
pub panel_data_poll_interval_ms_bounds :
    (route : AppRouteState)
    → ((panel_data_keys_for_route route ≡ []) × (panel_data_poll_interval_ms route ≡ 0))
      ⊎ ((panel_data_keys_for_route route ≢ [])
          × (2000 ≤ panel_data_poll_interval_ms route)
          × (panel_data_poll_interval_ms route ≤ 5000))
unfolding panel_data_poll_interval_ms
panel_data_poll_interval_ms_bounds route = ground arith

if_cases :
    (P : List PanelDataKey → Type 0) (b : Bool) {x y : List PanelDataKey}
    → (b ≡ true → P x)
    → (b ≡ false → P y)
    → P (if b then x else y)
if_cases P true p q = p refl
if_cases P false p q = q refl

-- The test of a text against a second literal, where it has passed one against a first.
eq_other : (s t u : String) → (s == t) ≡ true → (s == u) ≡ (t == u)
eq_other s t u e = ap (λ x. x == u) ((eq_iff s t).0 e)

servers_keys_monitoring :
    (route : AppRouteState)
    → (overview ∈ servers_keys route)
      ↔ ((route.servers_view == "detail" && route.server_detail_tab == "monitoring") ≡ true)
unfolding servers_keys server_detail_keys
servers_keys_monitoring route =
    if_cases P (view == "list") (λ e. rw (eq_other view _ "detail" e) (ground arith))
      λ _.
        if_cases P (view == "add") (λ e. rw (eq_other view _ "detail" e) (ground arith))
          λ _.
            if_cases P (view == "detail")
              (λ e. rw e (
                if_cases P' (tab == "monitoring") (λ f. rw f (ground arith))
                  λ f. rw f (
                    if_cases P'' (tab == "sessions") (λ _. ground arith)
                      λ _.
                        if_cases P'' (tab == "certificates" || tab == "ca-center")
                          (λ _. ground arith) (λ _. ground arith))))
              (λ e. rw e (ground arith))
  where
    view : String
    view = route.servers_view

    tab : String
    tab = route.server_detail_tab

    P : List PanelDataKey → Type 0
    P ks = (overview ∈ ks) ↔ ((view == "detail" && tab == "monitoring") ≡ true)

    P' : List PanelDataKey → Type 0
    P' ks = (overview ∈ ks) ↔ ((true && tab == "monitoring") ≡ true)

    P'' : List PanelDataKey → Type 0
    P'' ks = (overview ∈ ks) ↔ (false ≡ true)

monitoring_only :
    (route : AppRouteState)
    → overview ∈ panel_data_keys_for_route route
    → on_monitoring route ≡ true
unfolding panel_data_keys_for_route logs_keys users_keys user_profile_keys
monitoring_only route =
    if_cases P (nav == "inviteAdmin" || nav == "resetAdminPassword") (λ _ m. absurd m)
      λ _.
        if_cases P (nav == "documentation" || nav == "tasks" || nav == "myProfile")
          (λ _ m. absurd m)
          λ _.
            if_cases P (nav == "settings") (λ _. ground arith)
              λ _.
                if_cases P (nav == "logs") (λ _. ground arith)
                  λ _.
                    if_cases P (nav == "organizations") (λ _. ground arith)
                      λ _.
                        if_cases P (nav == "users") (λ _. ground arith)
                          λ _.
                            if_cases P (nav == "servers")
                              (λ e m. rw e ((servers_keys_monitoring route).0 m)) (λ _ m. absurd m)
  where
    nav : String
    nav = route.primary_nav

    P : List PanelDataKey → Type 0
    P ks = overview ∈ ks → on_monitoring route ≡ true

monitoring_always :
    (route : AppRouteState)
    → on_monitoring route ≡ true
    → overview ∈ panel_data_keys_for_route route
unfolding panel_data_keys_for_route servers_keys
monitoring_always route h =
    let nav = (eq_iff route.primary_nav "servers").0 (ground arith) in
    rw nav ((servers_keys_monitoring route).1 (ground arith))

-- The metrics of a server are polled exactly while its monitoring tab is open, and the poll is
-- narrowed to the selected server in that case alone.
pub panel_data_keys_for_route-overview :
    (route : AppRouteState)
    → ((overview ∈ panel_data_keys_for_route route) ↔ (on_monitoring route ≡ true))
      × ((panel_data_fetch_context route).selected_server_id
          ≡ (if on_monitoring route then route.selected_server_id else ""))
unfolding panel_data_fetch_context
panel_data_keys_for_route-overview route = (
  (monitoring_only route, monitoring_always route),
  ground (arith, is_empty_iff route.selected_server_id),
)
