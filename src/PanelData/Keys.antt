-- ===== src/PanelData/Keys.antt =====
-- The entities of frontend/src/panelData.ts, their endpoints and the lists of them.
pub mod Unique
use openvpn_control_server.Shared.{
  ℕ, ◌≡◌, refl, ◌↔◌, Bool, true, false, List, [], ◌∷◌, ◌++◌, ◌||◌, ◌∈◌, String, Option, some, none,
  append, is_empty, if◌then◌else◌, arith,
}

pub data PanelDataKey : Type 0 where
  overview admins certificates clients nodes ip_history source_ip_history admin_action_logs root_cas
        organizations vpn_users :
      PanelDataKey

pub PanelDataKey-discrete : Discrete PanelDataKey
PanelDataKey-discrete = hlevel

-- `===` of two keys.
unfoldable pub same_key : PanelDataKey → PanelDataKey → Bool
unfolding PanelDataKey-discrete
same_key j k = elim (PanelDataKey-discrete j k) [ yes _ ↦ true | no _ ↦ false ]

pub same_key_iff : (j k : PanelDataKey) → (same_key j k ≡ true) ↔ (j ≡ k)
unfolding same_key
same_key_iff j k =
    elim (PanelDataKey-discrete j k)
      as (λ d. ((elim d [ yes _ ↦ true | no _ ↦ false ]) ≡ true) ↔ (j ≡ k)) [
        | yes e ↦ ((λ _. e), (λ _. refl))
        | no n ↦ ((λ h. cc), (λ e. absurd (n e)))
      ]

unfoldable pub panel_data_endpoints : PanelDataKey → String
panel_data_endpoints overview = "/api/monitoring/overview"
panel_data_endpoints admins = "/api/admins"
panel_data_endpoints certificates = "/api/certificates"
panel_data_endpoints clients = "/api/clients"
panel_data_endpoints nodes = "/api/agent/nodes"
panel_data_endpoints ip_history = "/api/clients/history"
panel_data_endpoints source_ip_history = "/api/clients/source-history"
panel_data_endpoints admin_action_logs = "/api/monitoring/admin-actions?limit=300"
panel_data_endpoints root_cas = "/api/certificates/root-ca"
panel_data_endpoints organizations = "/api/organizations"
panel_data_endpoints vpn_users = "/api/vpn-users"

-- `keys.includes(k)`
unfoldable pub includes : PanelDataKey → List PanelDataKey → Bool
includes k [] = false
includes k (j ∷ js) = same_key j k || includes k js

-- `[...new Set(keys)]`: a set keeps the order of first insertion.
unique_from : List PanelDataKey → List PanelDataKey → List PanelDataKey
unfolding includes
unique_from seen [] = seen
unique_from seen (k ∷ ks) = unique_from (if includes k seen then seen else seen ++ k ∷ []) ks

unfoldable pub unique_keys : List PanelDataKey → List PanelDataKey
unfolding unique_from
unique_keys keys = unique_from [] keys

-- `mergePanelDataKeys`
pub flat : List (List PanelDataKey) → List PanelDataKey
flat [] = []
flat (g ∷ gs) = g ++ flat gs

pub merge_panel_data_keys : List (List PanelDataKey) → List PanelDataKey
merge_panel_data_keys groups = unique_keys (flat groups)

-- `Object.keys(PANEL_DATA_ENDPOINTS)`, in the order of the source.
abbrev pub endpoint_keys : List PanelDataKey
endpoint_keys =
    overview ∷ admins ∷ certificates ∷ clients ∷ nodes ∷ ip_history ∷ source_ip_history
    ∷ admin_action_logs ∷ root_cas ∷ organizations ∷ vpn_users ∷ []

unfoldable pub all_panel_data_keys : List PanelDataKey
unfolding unique_keys
all_panel_data_keys = unique_keys endpoint_keys

-- `PANEL_DATA_REFRESH`: what to fetch again after a change.
pub record PanelDataRefresh : Type 0 where
  pub servers : List PanelDataKey
  pub admins : List PanelDataKey
  pub organizations : List PanelDataKey
  pub vpn_users : List PanelDataKey
  pub certificates : List PanelDataKey
  pub clients : List PanelDataKey

abbrev pub panel_data_refresh : PanelDataRefresh
panel_data_refresh = record {
  servers = nodes ∷ overview ∷ [];
  admins = admins ∷ [];
  organizations = organizations ∷ [];
  vpn_users = vpn_users ∷ certificates ∷ clients ∷ [];
  certificates = certificates ∷ root_cas ∷ nodes ∷ clients ∷ vpn_users ∷ [];
  clients = clients ∷ nodes ∷ [];
}

pub includes_iff : (k : PanelDataKey) (ks : List PanelDataKey) → (includes k ks ≡ true) ↔ (k ∈ ks)
unfolding includes
includes_iff k [] = ground arith
includes_iff k (j ∷ js) = ground (arith, includes_iff k js, same_key_iff j k)
