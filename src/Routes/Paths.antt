-- ===== src/Routes/Paths.antt =====
-- `paths` of frontend/src/appRoutes.ts: the URL of each page.
use openvpn_control_server.Shared.{◌||◌, String, ◌==◌, is_empty, append, if◌then◌else◌}
use openvpn_control_server.Routes.Url.{UrlPlatform, query_string}

module _ (p : UrlPlatform) where
  unfoldable pub with_query : String → String → String → String → String
  with_query base tab_key tab_val default_tab =
      if is_empty tab_val || tab_val == default_tab
      then base
      else append base (append "?" (query_string p tab_key tab_val))

  unfoldable pub server_detail : String → String → String
  unfolding with_query
  server_detail id tab = with_query (append "/servers/" (p.encode id)) "tab" tab "overview"

  unfoldable pub server_ca_center_cert : String → String → String
  server_ca_center_cert id cert_id =
      append (append "/servers/" (p.encode id)) (append "?tab=ca-center&certId=" (p.encode cert_id))

  unfoldable pub organization_edit : String → String → String
  unfolding with_query
  organization_edit id tab =
      with_query (append "/organizations/" (append (p.encode id) "/edit")) "tab" tab "overview"

  unfoldable pub user_profile : String → String → String
  unfolding with_query
  user_profile id tab = with_query (append "/users/" (p.encode id)) "tab" tab "overview"

  unfoldable pub settings_admin : String → String
  settings_admin id = append "/settings/admins/" (p.encode id)

  unfoldable pub logs : String → String
  unfolding with_query
  logs tab = with_query "/logs" "tab" tab "vpn-ip"

  unfoldable pub documentation : String → String
  unfolding with_query
  documentation section = with_query "/documentation" "section" section "intro"

  unfoldable pub invite_admin : String → String
  invite_admin token = append "/invite-admin?token=" (p.encode token)

  unfoldable pub reset_admin_password : String → String
  reset_admin_password token = append "/reset-admin-password?token=" (p.encode token)

-- The pages whose URL takes no argument.
abbrev pub home : String
home = "/servers"

abbrev pub servers : String
servers = "/servers"

abbrev pub server_new : String
server_new = "/servers/new"

abbrev pub organizations : String
organizations = "/organizations"

abbrev pub organization_new : String
organization_new = "/organizations/new"

abbrev pub users : String
users = "/users"

abbrev pub user_new : String
user_new = "/users/new"

abbrev pub settings : String
settings = "/settings"

abbrev pub profile : String
profile = "/profile"

abbrev pub settings_backup : String
settings_backup = "/settings/backup"

abbrev pub settings_restore : String
settings_restore = "/settings/restore"

abbrev pub settings_admin_new : String
settings_admin_new = "/settings/admins/new"

abbrev pub tasks : String
tasks = "/tasks"
