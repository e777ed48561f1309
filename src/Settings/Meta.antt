-- ===== src/Settings/Meta.antt =====
-- The descriptions of settings, frontend/src/types/settingsMeta.ts.
use openvpn_control_server.Shared.{String, Option, List}

pub data SettingsFieldType : Type 0 where
  number select text textarea checkbox : SettingsFieldType

pub record SelectOption : Type 0 where
  pub value : String
  pub label : String

pub record SettingsFieldMeta : Type 0 where
  pub key : String
  pub label : String
  pub description : String
  pub type : SettingsFieldType
  pub placeholder : Option String
  pub options : Option (List SelectOption)

abbrev pub option : String → String → SelectOption
option value label = record { value = value; label = label }
