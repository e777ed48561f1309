-- ===== src/Settings/ServerFields.antt =====
-- The settings of server.conf, frontend/src/openvpnServerSettingsMeta.ts.
mod Transport
mod Materials
mod Session
mod Limits
unfoldable pub use Transport.*
unfoldable pub use Materials.*
unfoldable pub use Session.*
unfoldable pub use Limits.*
use openvpn_control_server.Shared.{List, ◌++◌}
use openvpn_control_server.Settings.Meta.{SettingsFieldMeta}

unfoldable pub openvpn_server_settings_fields : List SettingsFieldMeta
unfolding transport_fields material_fields session_fields limit_fields
openvpn_server_settings_fields =
    transport_fields ++ (material_fields ++ (session_fields ++ limit_fields))
