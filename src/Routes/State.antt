-- ===== src/Routes/State.antt =====
-- The state of a route in frontend/src/appRoutes.ts: which page is open, and what it shows.
use openvpn_control_server.Shared.{String, Option}

pub record AppRouteState : Type 0 where
  pub primary_nav : String
  pub servers_view : String
  pub selected_server_id : String
  pub server_detail_tab : String
  pub server_center_cert_id : String
  pub organizations_view : String
  pub organization_edit_id : String
  pub organization_edit_tab : String
  pub users_sub : String
  pub selected_user_id : String
  pub user_profile_tab : String
  pub ca_root_wizard : Option String
  pub selected_root_ca_id : String
  pub selected_cert_id : String
  pub root_ca_profile_tab : String
  pub cert_profile_tab : String
  pub admins_page : String
  pub selected_admin_id : String
  pub tasks_view : String
  pub logs_view : String
  pub docs_section : String
  pub settings_section : String
  pub invite_admin_token : String
  pub reset_admin_password_token : String
