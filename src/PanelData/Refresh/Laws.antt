-- ===== src/PanelData/Refresh/Laws.antt =====
-- At most one fetch is under way, and what a refresh does to the data from its call to its answer.
use openvpn_control_server.Shared.{
  true, false, List, [], ◌∷◌, ◌++◌, String, Option, some, ◌≡◌, ◌≢◌, refl, ◌⊎◌, ◌↔◌, inl, inr, arith,
  length, length-append, ◌∈◌, in-append_iff,
}
use openvpn_control_server.Routes.State.{AppRouteState}
use openvpn_control_server.PanelData.Keys.{PanelDataKey}
use openvpn_control_server.PanelData.Keys.Unique.{unique_keys-IsDistinct}
use openvpn_control_server.PanelData.Poll.{
  panel_data_keys_for_route, panel_data_fetch_context, is_nil,
}
use openvpn_control_server.PanelData.Fetch.{
  Settled, fulfilled, rejected, get, PanelRequest, fetch_panel_data_keys, panel_request,
}
use openvpn_control_server.PanelData.Fetch.Laws.{
  get-apply_panel_data_patch, fetch_panel_data_keys-eq,
}
use openvpn_control_server.PanelData.Refresh.{
  RefreshState, PendingFetch, begin_refresh, settle_refresh, load_data, World, Step, refresh, load,
  settle, set_token, Reach, here, next, wanted_keys,
}

-- The flag is up exactly while one fetch waits, and never do two.
abbrev pub IsGuarded : {D : Type 0} → World D → Type 0
IsGuarded w =
    ((w.app.in_flight ≡ true) × (length w.pending ≡ 1))
    ⊎ ((w.app.in_flight ≡ false) × (length w.pending ≡ 0))

wanted_keys-in_iff :
    (route : AppRouteState) (keys : List PanelDataKey) (k : PanelDataKey)
    → (k ∈ wanted_keys route keys) ↔ ((k ∈ panel_data_keys_for_route route) ⊎ (k ∈ keys))
unfolding wanted_keys
wanted_keys-in_iff route [] k = (inl, elim [ inl m ↦ m | inr m ↦ absurd m ])
wanted_keys-in_iff route (j ∷ js) k = ground (
  arith,
  (unique_keys-IsDistinct (panel_data_keys_for_route route ++ j ∷ js)).1 k,
  in-append_iff k (panel_data_keys_for_route route) (j ∷ js),
)

not_nil : (ks : List PanelDataKey) (k : PanelDataKey) → k ∈ ks → is_nil ks ≡ false
not_nil [] k m = absurd m
not_nil (j ∷ ks) k m = refl

module _ {D : Type 0} where
  Step-IsGuarded : {v w : World D} → Step v w → IsGuarded v → IsGuarded w
  unfolding begin_refresh load_data settle_refresh
  Step-IsGuarded (refresh w route keys) g = ground arith
  Step-IsGuarded (load w route keys) g = ground arith
  Step-IsGuarded (settle w before p after (fulfilled patch) e) g =
      ground (arith, length-append {0} before (p ∷ after), length-append {0} before after)
  Step-IsGuarded (settle w before p after (rejected m) e) g =
      ground (arith, length-append {0} before (p ∷ after), length-append {0} before after)
  Step-IsGuarded (set_token w token) g = ground arith

  -- From a state in which the flag is up exactly while one fetch waits for its answer, and no
  -- more than one waits, every sequence of polls, reloads, answers in any order and logins leads
  -- to such a state.
  pub Reach-IsGuarded : {v w : World D} → Reach v w → IsGuarded v → IsGuarded w
  Reach-IsGuarded here g = g
  Reach-IsGuarded (next r st) g = Step-IsGuarded st (Reach-IsGuarded r g)

  -- When the fetch that a refresh has begun succeeds, every entity that it asked for is what the
  -- server has answered to the request for it, every other is what it was when the answer came,
  -- the error is cleared and the flag is down.
  pub settle_refresh-get :
      (encode : String → String) (request_fn : PanelRequest → Settled String D) (p : PendingFetch)
      (s : RefreshState D) (patch : PanelDataKey → Option D)
      → (fetch_panel_data_keys encode request_fn p.token p.keys p.ctx).1 ≡ fulfilled patch
      → ((k : PanelDataKey)
          → ((k ∈ p.keys)
              × (request_fn (panel_request encode p.token p.ctx k)
                  ≡ fulfilled (get k (settle_refresh (fulfilled patch) s).panel)))
            ⊎ ((¬ (k ∈ p.keys))
                × (get k (settle_refresh (fulfilled patch) s).panel ≡ get k s.panel)))
        × ((settle_refresh (fulfilled patch) s).error ≡ "")
        × ((settle_refresh (fulfilled patch) s).in_flight ≡ false)
  unfolding settle_refresh
  settle_refresh-get encode request_fn p s patch h =
      let fetched = fetch_panel_data_keys-eq encode request_fn p.token p.keys p.ctx patch h in
      (
        λ k. elim (fetched k) [
          | inl (m, (v, a, e)) ↦ inl (m, rw (get-apply_panel_data_patch patch s.panel k, e) a)
          | inr (n, e) ↦ inr (n, rw (get-apply_panel_data_patch patch s.panel k, e))
        ],
        refl,
        refl,
      )

  -- A reload begins a fetch of the page's keys and those that a change concerns, and of no other,
  -- if somebody is logged in, no fetch is under way and there is a key at all.
  pub load_data-begins :
      (route : AppRouteState) (keys : List PanelDataKey) (s : RefreshState D)
      → s.token ≢ ""
      → s.in_flight ≡ false
      → (k : PanelDataKey) → k ∈ (panel_data_keys_for_route route ++ keys)
      → (p : PendingFetch) × (load_data route keys s ≡ (record s { in_flight = true }, some p))
        × ((j : PanelDataKey) → (j ∈ p.keys) ↔ ((j ∈ panel_data_keys_for_route route) ⊎ (j ∈ keys)))
  unfolding load_data
  load_data-begins route keys s logged_in idle k m = (
    record { token = s.token; keys = wanted_keys route keys; ctx = panel_data_fetch_context route },
    ground (
      arith,
      not_nil (wanted_keys route keys) k (
          (wanted_keys-in_iff route keys k).1
            ((in-append_iff k (panel_data_keys_for_route route) keys).0 m)),
    ),
    wanted_keys-in_iff route keys,
  )
