-- ===== src/Tests/Routes.antt =====
-- Routes of the panel, under a small percent-encoding.
use openvpn_control_server.Shared.{apart, ◌≡◌, refl, String, some}
use openvpn_control_server.Routes.Parse.{base, settings_admins, elem, route_of}
use openvpn_control_server.Routes.Paths
use openvpn_control_server.Routes.Url.{IsId}
use openvpn_control_server.Routes.RoundTrip.{server_detail-route}
use openvpn_control_server.Routes.Pages.{page_routes}
use openvpn_control_server.Routes.Tokens.{token_routes}
use openvpn_control_server.Tests.Codec.{platform, platform-IsUrlPlatform}

abbrev node : String
node = "node/1"

node-IsId : IsId node
node-IsId = (
  (apart "node/1" "" refl, apart "node/1" "." refl, apart "node/1" ".." refl),
  apart "node/1" "new" refl,
)

server_detail-route_example :
    route_of platform (Paths.server_detail platform node "monitoring")
    ≡ some (record base {
      servers_view = "detail";
      selected_server_id = node;
      server_detail_tab = "monitoring";
    })
unfolding elem
server_detail-route_example =
    server_detail-route platform platform-IsUrlPlatform node "monitoring" node-IsId refl

token_routes_example :
    (route_of platform (Paths.invite_admin platform "a&b=c#'d")
      ≡ some (record base { primary_nav = "inviteAdmin"; invite_admin_token = "a&b=c#'d" }))
    × (route_of platform (Paths.reset_admin_password platform "a&b=c#'d")
        ≡ some (record base {
          primary_nav = "resetAdminPassword";
          reset_admin_password_token = "a&b=c#'d";
        }))
token_routes_example = token_routes platform platform-IsUrlPlatform "a&b=c#'d"

page_routes_example :
    (route_of platform (Paths.user_profile platform node "sessions")
      ≡ some (record base {
        primary_nav = "users";
        users_sub = "profile";
        selected_user_id = node;
        user_profile_tab = "sessions";
      }))
    × (route_of platform (Paths.organization_edit platform node "overview")
        ≡ some (record base {
          primary_nav = "organizations";
          organizations_view = "edit";
          organization_edit_id = node;
          organization_edit_tab = "overview";
        }))
    × (route_of platform (Paths.settings_admin platform node)
        ≡ some (record settings_admins { admins_page = "detail"; selected_admin_id = node }))
    × (route_of platform (Paths.logs platform "vpn-ip")
        ≡ some (record base { primary_nav = "logs"; logs_view = "vpn-ip" }))
    × (route_of platform (Paths.documentation platform "intro")
        ≡ some (record base { primary_nav = "documentation"; docs_section = "intro" }))
unfolding elem
page_routes_example =
    page_routes platform platform-IsUrlPlatform node "sessions" "overview" "vpn-ip" "intro"
      node-IsId refl refl refl refl
