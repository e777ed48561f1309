-- ===== src/PanelData/Fetch.antt =====
-- How entities are fetched and applied: `fetchPanelDataKeys` and `applyPanelDataPatch` of
-- frontend/src/panelData.ts. The answers of the server are an argument, a function of the request.
-- Where several requests fail, `Promise.all` reports the one that fails first in time; the model
-- reports the first in the list.
pub mod Laws
use openvpn_control_server.Shared.{
  Bool, true, false, List, [], ◌∷◌, String, Option, none, some, map, if◌then◌else◌,
}
use openvpn_control_server.PanelData.Keys.{
  PanelDataKey, overview, admins, certificates, clients, nodes, ip_history, source_ip_history,
  admin_action_logs, root_cas, organizations, vpn_users, same_key, unique_keys,
}
use openvpn_control_server.PanelData.Poll.{PanelDataFetchContext, endpoint_for_key}

pub record PanelRequest : Type 0 where
  pub path : String
  pub method : String
  pub token : String

-- A settled promise.
pub data Settled (E D : Type 0) : Type 0 where
  fulfilled : D → Settled E D
  rejected : E → Settled E D

-- A `Partial<Record<PanelDataKey, unknown>>` is a function to options.
module _ {D : Type 0} where
  -- `Object.fromEntries`: of two entries for one key the later one counts.
  unfoldable pub from_entries : List (PanelDataKey × D) → PanelDataKey → Option D
  from_entries [] k = none
  from_entries ((j, v) ∷ es) k = elim (from_entries es k) [
    | some w ↦ some w
    | none ↦ if same_key j k then some v else none
  ]

module _ {E D : Type 0} where
  cons_entry :
      PanelDataKey
      → Settled E D
      → Settled E (List (PanelDataKey × D))
      → Settled E (List (PanelDataKey × D))
  cons_entry k (rejected e) rest = rejected e
  cons_entry k (fulfilled v) (rejected e) = rejected e
  cons_entry k (fulfilled v) (fulfilled es) = fulfilled ((k, v) ∷ es)

  -- `Promise.all` over the keys.
  unfoldable pub promise_all :
      (PanelDataKey → Settled E D) → List PanelDataKey → Settled E (List (PanelDataKey × D))
  unfolding cons_entry
  promise_all answer [] = fulfilled []
  promise_all answer (k ∷ ks) = cons_entry k (answer k) (promise_all answer ks)

  abbrev to_patch : Settled E (List (PanelDataKey × D)) → Settled E (PanelDataKey → Option D)
  to_patch (rejected e) = rejected e
  to_patch (fulfilled es) = fulfilled (from_entries es)

-- What is asked for a key, given the browser's `encodeURIComponent`.
abbrev pub panel_request :
    (String → String) → String → PanelDataFetchContext → PanelDataKey → PanelRequest
panel_request encode token ctx key = record {
  path = endpoint_for_key encode key ctx;
  method = "GET";
  token = token;
}

-- The requests that one call makes, and what it answers for them.
module _ {E D : Type 0} (encode : String → String) (request_fn : PanelRequest → Settled E D) where
  unfoldable pub fetch_panel_data_keys :
      String
      → List PanelDataKey
      → PanelDataFetchContext
      → List PanelRequest × Settled E (PanelDataKey → Option D)
  unfolding promise_all from_entries
  fetch_panel_data_keys token keys ctx = (
    map (panel_request encode token ctx) (unique_keys keys),
    to_patch (promise_all (λ k. request_fn (panel_request encode token ctx k)) (unique_keys keys)),
  )

-- The states of the application that the setters of `PanelDataSetters` write.
pub record PanelState (D : Type 0) : Type 0 where
  pub overview : D
  pub admins : D
  pub certificates : D
  pub clients : D
  pub nodes : D
  pub ip_history : D
  pub source_ip_history : D
  pub admin_action_logs : D
  pub root_cas : D
  pub organizations : D
  pub vpn_users : D

module _ {D : Type 0} where
  -- `if (key in patch) set(patch[key])`, for the state that the setter writes.
  abbrev when_present : Option D → D → D
  when_present none old = old
  when_present (some v) old = v

  -- The setters write different states, so their order does not matter.
  unfoldable pub apply_panel_data_patch : (PanelDataKey → Option D) → PanelState D → PanelState D
  apply_panel_data_patch patch s = record {
    overview = when_present (patch overview) s.overview;
    admins = when_present (patch admins) s.admins;
    certificates = when_present (patch certificates) s.certificates;
    clients = when_present (patch clients) s.clients;
    nodes = when_present (patch nodes) s.nodes;
    ip_history = when_present (patch ip_history) s.ip_history;
    source_ip_history = when_present (patch source_ip_history) s.source_ip_history;
    admin_action_logs = when_present (patch admin_action_logs) s.admin_action_logs;
    root_cas = when_present (patch root_cas) s.root_cas;
    organizations = when_present (patch organizations) s.organizations;
    vpn_users = when_present (patch vpn_users) s.vpn_users;
  }

  -- The state that a key stands for.
  abbrev pub get : PanelDataKey → PanelState D → D
  get overview s = s.overview
  get admins s = s.admins
  get certificates s = s.certificates
  get clients s = s.clients
  get nodes s = s.nodes
  get ip_history s = s.ip_history
  get source_ip_history s = s.source_ip_history
  get admin_action_logs s = s.admin_action_logs
  get root_cas s = s.root_cas
  get organizations s = s.organizations
  get vpn_users s = s.vpn_users
