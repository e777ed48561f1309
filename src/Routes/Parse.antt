-- ===== src/Routes/Parse.antt =====
-- `parseAppRoute` of frontend/src/appRoutes.ts. A segment that cannot be decoded makes
-- `decodeURIComponent` throw, and the result is none.
use openvpn_control_server.Shared.{
  Bool, true, false, ◌&&◌, ◌||◌, List, [], ◌∷◌, String, Option, none, some, ◌==◌, trim, or_else,
  nonempty_only, split_on, strip_end, if◌then◌else◌,
}
use openvpn_control_server.Routes.State.{AppRouteState}
use openvpn_control_server.Routes.Url.{UrlPlatform, search_get}

abbrev pub server_tabs : List String
server_tabs =
    "overview" ∷ "agent" ∷ "monitoring" ∷ "sessions" ∷ "certificates" ∷ "ca-center" ∷ "keys"
    ∷ "settings" ∷ "firewall" ∷ "service" ∷ "services" ∷ "dns" ∷ "journal" ∷ []

abbrev pub user_tabs : List String
user_tabs = "overview" ∷ "sessions" ∷ "certs" ∷ "vpn" ∷ "ccd" ∷ "firewall" ∷ []

abbrev pub organization_tabs : List String
organization_tabs = "overview" ∷ "firewall" ∷ []

abbrev pub logs_views : List String
logs_views = "vpn-ip" ∷ "source-ip" ∷ "admin" ∷ []

abbrev pub documentation_sections : List String
documentation_sections =
    "intro" ∷ "concepts" ∷ "interface" ∷ "servers" ∷ "working-with-node" ∷ "dns-firewall"
    ∷ "users-organizations" ∷ "logs-tasks" ∷ "panel-settings" ∷ "agent-security" ∷ "troubleshooting"
    ∷ []

-- `allowed.has(v)`
unfoldable pub elem : String → List String → Bool
elem v [] = false
elem v (t ∷ ts) = t == v || elem v ts

-- `value || ""`
abbrev pub text_or_empty : Option String → String
text_or_empty none = ""
text_or_empty (some s) = s

unfoldable pub pick_tab : Option String → List String → String → String
unfolding elem
pick_tab value allowed fallback =
    let v = trim (text_or_empty value) in if elem v allowed then v else fallback

-- The route that all others are made from.
abbrev pub base : AppRouteState
base = record {
  primary_nav = "servers";
  servers_view = "list";
  selected_server_id = "";
  server_detail_tab = "overview";
  server_center_cert_id = "";
  organizations_view = "list";
  organization_edit_id = "";
  organization_edit_tab = "overview";
  users_sub = "list";
  selected_user_id = "";
  user_profile_tab = "overview";
  ca_root_wizard = none;
  selected_root_ca_id = "";
  selected_cert_id = "";
  root_ca_profile_tab = "overview";
  cert_profile_tab = "overview";
  admins_page = "list";
  selected_admin_id = "";
  tasks_view = "list";
  logs_view = "vpn-ip";
  docs_section = "intro";
  settings_section = "admins";
  invite_admin_token = "";
  reset_admin_password_token = "";
}

abbrev pub settings_admins : AppRouteState
settings_admins = record base { primary_nav = "settings" }

-- `decodeURIComponent(seg)`, and the route made of it.
abbrev decoded : Option String → (String → AppRouteState) → Option AppRouteState
decoded none route = none
decoded (some id) route = some (route id)

-- `sp.get` is `get`.
module _ (p : UrlPlatform) (get : String → Option String) where
  -- The segments after the first one.
  unfoldable pub parse_servers : List String → Option AppRouteState
  parse_servers [] = some base
  parse_servers (s ∷ rest) =
      if s == "new"
      then some (record base { servers_view = "add" })
      else decoded (p.decode s) λ id. record base {
        servers_view = "detail";
        selected_server_id = id;
        server_detail_tab = pick_tab (get "tab") server_tabs "overview";
        server_center_cert_id = text_or_empty (get "certId");
      }

  abbrev is_edit : List String → Bool
  is_edit [] = false
  is_edit (t ∷ rest) = t == "edit"

  unfoldable pub parse_organizations : List String → Option AppRouteState
  parse_organizations [] = some (record base { primary_nav = "organizations" })
  parse_organizations (s ∷ rest) =
      if s == "new"
      then some (record base { primary_nav = "organizations"; organizations_view = "add" })
      else if is_edit rest
      then decoded (p.decode s) (λ id. organization_edit id)
      else some base
    where
      organization_edit : String → AppRouteState
      organization_edit id = record base {
        primary_nav = "organizations";
        organizations_view = "edit";
        organization_edit_id = id;
        organization_edit_tab = pick_tab (get "tab") organization_tabs "overview";
      }

  unfoldable pub parse_users : List String → Option AppRouteState
  parse_users [] = some (record base { primary_nav = "users" })
  parse_users (s ∷ rest) =
      if s == "new"
      then some (record base { primary_nav = "users"; users_sub = "add" })
      else decoded (p.decode s) λ id. record base {
        primary_nav = "users";
        users_sub = "profile";
        selected_user_id = id;
        user_profile_tab = pick_tab (get "tab") user_tabs "overview";
      }

  abbrev parse_admins : List String → Option AppRouteState
  parse_admins [] = some settings_admins
  parse_admins (a ∷ rest) =
      if a == "new"
      then some settings_admins
      else decoded (p.decode a)
          λ id. record settings_admins { admins_page = "detail"; selected_admin_id = id }

  unfoldable pub parse_settings : List String → Option AppRouteState
  parse_settings [] = some settings_admins
  parse_settings (s ∷ rest) =
      if s == "profile"
      then some (record base { primary_nav = "myProfile" })
      else if s == "backup"
      then some (record settings_admins { settings_section = "backup" })
      else if s == "restore"
      then some (record settings_admins { settings_section = "restore" })
      else if s == "admins"
      then parse_admins rest
      else some settings_admins

  abbrev is_last : List String → Bool
  is_last [] = true
  is_last (t ∷ rest) = false

  unfoldable pub parse_segments : List String → Option AppRouteState
  unfolding pick_tab
  parse_segments [] = some base
  parse_segments (s ∷ rest) =
      if s == "reset-admin-password"
      then some (record base {
        primary_nav = "resetAdminPassword";
        reset_admin_password_token = text_or_empty (get "token");
      })
      else if s == "invite-admin"
      then some (record base {
        primary_nav = "inviteAdmin";
        invite_admin_token = text_or_empty (get "token");
      })
      else if is_last rest && s == "profile"
      then some (record base { primary_nav = "myProfile" })
      else if s == "servers"
      then parse_servers rest
      else if s == "organizations"
      then parse_organizations rest
      else if s == "users"
      then parse_users rest
      else if s == "ca"
      then some base
      else if s == "settings"
      then parse_settings rest
      else if s == "logs"
      then some (record base {
        primary_nav = "logs";
        logs_view = pick_tab (get "tab") logs_views "vpn-ip";
      })
      else if s == "tasks"
      then some (record base { primary_nav = "tasks" })
      else if s == "documentation" || s == "docs"
      then some (record base {
        primary_nav = "documentation";
        docs_section = pick_tab (get "section") documentation_sections "intro";
      })
      else some base

-- `pathname.replace(/\/+$/, "") || "/"`, split at "/" without the empty parts.
unfoldable pub segments : String → List String
segments pathname = nonempty_only (split_on 47 (or_else (strip_end 47 pathname) "/"))

unfoldable pub parse_app_route : UrlPlatform → String → String → Option AppRouteState
unfolding segments
parse_app_route p pathname search = parse_segments p (search_get p search) (segments pathname)

-- The route of a URL, as `App` computes it from the router's location.
unfoldable pub route_of : UrlPlatform → String → Option AppRouteState
unfolding parse_app_route
route_of p url = let (pathname, search) = p.location url in parse_app_route p pathname search
