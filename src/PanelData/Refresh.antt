-- ===== src/PanelData/Refresh.antt =====
-- The refresh of the panel's data, `refreshPanelData` and `loadData` of frontend/src/App.tsx: at
-- most one fetch is under way, which a flag guards. A refresh runs in two parts, up to its wait
-- for the answers and after it, and anything may happen between.
pub mod Laws
use openvpn_control_server.Shared.{
  Bool, true, false, List, [], ◌∷◌, ◌++◌, String, Option, none, some, is_empty, ◌||◌, if◌then◌else◌,
  ◌≡◌,
}
use openvpn_control_server.Routes.State.{AppRouteState}
use openvpn_control_server.PanelData.Keys.{PanelDataKey, unique_keys}
use openvpn_control_server.PanelData.Poll.{
  PanelDataFetchContext, is_nil, panel_data_keys_for_route, panel_data_fetch_context,
}
use openvpn_control_server.PanelData.Fetch.{
  Settled, fulfilled, rejected, PanelState, apply_panel_data_patch,
}

-- The parts of the application's state that a refresh reads and writes; an empty token means that
-- nobody is logged in.
pub record RefreshState (D : Type 0) : Type 0 where
  pub token : String
  pub in_flight : Bool
  pub error : String
  pub panel : PanelState D

-- The arguments of `fetchPanelDataKeys` of a fetch that is under way.
pub record PendingFetch : Type 0 where
  pub token : String
  pub keys : List PanelDataKey
  pub ctx : PanelDataFetchContext

abbrev keys_or : Option (List PanelDataKey) → List PanelDataKey → List PanelDataKey
keys_or none d = d
keys_or (some ks) d = ks

-- The keys of `loadData`: those of the page and, after a change, those that it concerns.
unfoldable pub wanted_keys : AppRouteState → List PanelDataKey → List PanelDataKey
wanted_keys route after_mutation_keys =
    let route_keys = panel_data_keys_for_route route in
    if is_nil after_mutation_keys
    then route_keys
    else unique_keys (route_keys ++ after_mutation_keys)

module _ {D : Type 0} where
  -- `refreshPanelData` up to its `await`.
  unfoldable pub begin_refresh :
      AppRouteState
      → Option (List PanelDataKey)
      → RefreshState D
      → RefreshState D × Option PendingFetch
  begin_refresh route keys s =
      if is_empty s.token || s.in_flight
      then (s, none)
      else let to_fetch = keys_or keys (panel_data_keys_for_route route) in
        if is_nil to_fetch then (s, none) else (
          record s { in_flight = true },
          some (record { token = s.token; keys = to_fetch; ctx = panel_data_fetch_context route }),
        )

  -- The rest of it, for the settled fetch.
  unfoldable pub settle_refresh :
      Settled String (PanelDataKey → Option D) → RefreshState D → RefreshState D
  settle_refresh (fulfilled patch) s = record s {
    panel = apply_panel_data_patch patch s.panel;
    error = "";
    in_flight = false;
  }
  settle_refresh (rejected message) s = record s { error = message; in_flight = false }

  -- `loadData`
  unfoldable pub load_data :
      AppRouteState → List PanelDataKey → RefreshState D → RefreshState D × Option PendingFetch
  unfolding begin_refresh
  load_data route after_mutation_keys =
      begin_refresh route (some (wanted_keys route after_mutation_keys))

-- The application with the fetches that wait for their answers.
pub record World (D : Type 0) : Type 0 where
  pub app : RefreshState D
  pub pending : List PendingFetch

abbrev pub started : Option PendingFetch → List PendingFetch → List PendingFetch
started none ps = ps
started (some p) ps = p ∷ ps

-- What may happen next: a poll or a reload is called, a fetch is answered, somebody logs in or
-- out. Nothing is said of the order in which fetches are answered.
pub data Step {D : Type 0} : World D → World D → Type 0 where
  refresh :
      (w : World D) (route : AppRouteState) (keys : Option (List PanelDataKey))
      → Step w (record {
        app = (begin_refresh route keys w.app).0;
        pending = started (begin_refresh route keys w.app).1 w.pending;
      })
  load :
      (w : World D) (route : AppRouteState) (keys : List PanelDataKey)
      → Step w (record {
        app = (load_data route keys w.app).0;
        pending = started (load_data route keys w.app).1 w.pending;
      })
  settle :
      (w : World D) (before : List PendingFetch) (p : PendingFetch) (after : List PendingFetch)
      (answer : Settled String (PanelDataKey → Option D))
      → w.pending ≡ before ++ p ∷ after
      → Step w (record { app = settle_refresh answer w.app; pending = before ++ after })
  set_token :
      (w : World D) (token : String)
      → Step w (record { app = record (w.app) { token = token }; pending = w.pending })

pub data Reach {D : Type 0} (start : World D) : World D → Type 0 where
  here : Reach start start
  next : {v w : World D} → Reach start v → Step v w → Reach start w
