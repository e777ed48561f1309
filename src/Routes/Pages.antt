-- ===== src/Routes/Pages.antt =====
-- The pages of frontend/src/appRoutes.ts whose URLs hold an id or a tab, together.
use openvpn_control_server.Shared.{◌≡◌, true, String, some}
use openvpn_control_server.Routes.Url.{UrlPlatform, IsUrlPlatform, IsId}
use openvpn_control_server.Routes.Parse.{
  user_tabs, organization_tabs, logs_views, documentation_sections, elem, base, settings_admins,
  route_of,
}
use openvpn_control_server.Routes.Paths
use openvpn_control_server.Routes.RoundTrip.{
  user_profile-route, organization_edit-route, logs-route, documentation-route,
  settings_admin-route,
}

-- On a platform that behaves as documented, the URLs of a tab of a user, a tab of an
-- organization, an administrator, a view of the logs and a section of the documentation open the
-- pages that they are made for, for tabs that the panel knows and an id that is not empty, "new",
-- "." or "..".
pub page_routes :
    (p : UrlPlatform)
    → IsUrlPlatform p
    → (id user_tab organization_tab view section : String) → IsId id
    → elem user_tab user_tabs ≡ true
    → elem organization_tab organization_tabs ≡ true
    → elem view logs_views ≡ true
    → elem section documentation_sections ≡ true
    → (route_of p (Paths.user_profile p id user_tab)
        ≡ some (record base {
          primary_nav = "users";
          users_sub = "profile";
          selected_user_id = id;
          user_profile_tab = user_tab;
        }))
      × (route_of p (Paths.organization_edit p id organization_tab)
          ≡ some (record base {
            primary_nav = "organizations";
            organizations_view = "edit";
            organization_edit_id = id;
            organization_edit_tab = organization_tab;
          }))
      × (route_of p (Paths.settings_admin p id)
          ≡ some (record settings_admins { admins_page = "detail"; selected_admin_id = id }))
      × (route_of p (Paths.logs p view)
          ≡ some (record base { primary_nav = "logs"; logs_view = view }))
      × (route_of p (Paths.documentation p section)
          ≡ some (record base { primary_nav = "documentation"; docs_section = section }))
page_routes p laws id user_tab organization_tab view section h u o v s = (
  user_profile-route p laws id user_tab h u,
  organization_edit-route p laws id organization_tab h o,
  settings_admin-route p laws id h,
  logs-route p laws view v,
  documentation-route p laws section s,
)
