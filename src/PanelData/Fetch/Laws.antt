-- ===== src/PanelData/Fetch/Laws.antt =====
-- A fetched patch holds the answers for the keys asked for, and applying it changes those alone.
use mathlib.Core.Option.{get_or}
use openvpn_control_server.Shared.{
  List, [], ◌∷◌, String, Option, none, some, if◌then◌else◌, ◌≡◌, refl, ◌∈◌, arith, inl, inr, ◌⊎◌,
  true, Bool-cases, ap, ◌∙◌,
}
use openvpn_control_server.PanelData.Keys.{
  PanelDataKey, overview, same_key_iff, unique_keys, includes, includes_iff,
}
use openvpn_control_server.PanelData.Keys.Unique.{unique_keys-IsDistinct}
use openvpn_control_server.PanelData.Poll.{PanelDataFetchContext}
use openvpn_control_server.PanelData.Fetch.{
  PanelRequest, Settled, fulfilled, rejected, from_entries, promise_all, cons_entry, panel_request,
  fetch_panel_data_keys, PanelState, apply_panel_data_patch, get, to_patch,
}

-- Each state is the patch's value for its key, or what it was.
pub get-apply_panel_data_patch :
    {D : Type 0} (patch : PanelDataKey → Option D) (s : PanelState D) (k : PanelDataKey)
    → get k (apply_panel_data_patch patch s) ≡ get_or (patch k) (get k s)
unfolding apply_panel_data_patch
get-apply_panel_data_patch patch s overview = ground arith
get-apply_panel_data_patch patch s _ = ground arith

abbrev pub to_option : {E D : Type 0} → Settled E D → Option D
to_option (fulfilled v) = some v
to_option (rejected e) = none

module _ {E D : Type 0} (answer : PanelDataKey → Settled E D) where
  pub promise_all_fulfilled :
      (ks : List PanelDataKey) (es : List (PanelDataKey × D))
      → promise_all answer ks ≡ fulfilled es
      → (k : PanelDataKey)
      → from_entries es k ≡ (if includes k ks then to_option (answer k) else none)
  unfolding promise_all from_entries includes
  promise_all_fulfilled [] es h k = ground arith
  promise_all_fulfilled (j ∷ ks) es h k =
      step (answer j) (promise_all answer ks) refl refl h
        (λ rest er. promise_all_fulfilled ks rest er k)
    where
      step :
          (a : Settled E D) (r : Settled E (List (PanelDataKey × D)))
          → answer j ≡ a
          → promise_all answer ks ≡ r
          → cons_entry j a r ≡ fulfilled es
          → ((rest : List (PanelDataKey × D))
              → promise_all answer ks ≡ fulfilled rest
              → from_entries rest k ≡ (if includes k ks then to_option (answer k) else none))
          → from_entries es k ≡ (if includes k (j ∷ ks) then to_option (answer k) else none)
      step (rejected e) r ea er q ih = cc
      step (fulfilled v) (rejected e) ea er q ih = cc
      step (fulfilled v) (fulfilled rest) ea er q ih = ground (arith, ih rest er, same_key_iff j k)

  -- Where all succeed, each request was answered.
  pub promise_all_answered :
      (ks : List PanelDataKey) (es : List (PanelDataKey × D))
      → promise_all answer ks ≡ fulfilled es
      → (k : PanelDataKey) → k ∈ ks
      → (v : D) × (answer k ≡ fulfilled v)
  unfolding promise_all
  promise_all_answered [] es h k m = absurd m
  promise_all_answered (j ∷ ks) es h k m =
      step (answer j) (promise_all answer ks) refl refl h
        (λ rest er. promise_all_answered ks rest er k) m
    where
      step :
          (a : Settled E D) (r : Settled E (List (PanelDataKey × D)))
          → answer j ≡ a
          → promise_all answer ks ≡ r
          → cons_entry j a r ≡ fulfilled es
          → ((rest : List (PanelDataKey × D))
              → promise_all answer ks ≡ fulfilled rest
              → k ∈ ks
              → (v : D) × (answer k ≡ fulfilled v))
          → k ∈ j ∷ ks
          → (v : D) × (answer k ≡ fulfilled v)
      step (rejected e) r ea er q ih m' = cc
      step (fulfilled v) (rejected e) ea er q ih m' = cc
      step (fulfilled v) (fulfilled rest) ea er q ih (inl e) = (v, ap answer e ∙ ea)
      step (fulfilled v) (fulfilled rest) ea er q ih (inr n) = ih rest er n

  -- A failed answer is that of one of the requests.
  pub promise_all_rejected :
      (ks : List PanelDataKey) (e : E)
      → promise_all answer ks ≡ rejected e
      → (k : PanelDataKey) × (k ∈ ks) × (answer k ≡ rejected e)
  unfolding promise_all
  promise_all_rejected [] e h = cc
  promise_all_rejected (j ∷ ks) e h =
      step (answer j) (promise_all answer ks) refl refl h (promise_all_rejected ks e)
    where
      step :
          (a : Settled E D) (r : Settled E (List (PanelDataKey × D)))
          → answer j ≡ a
          → promise_all answer ks ≡ r
          → cons_entry j a r ≡ rejected e
          → (promise_all answer ks ≡ rejected e
              → (k : PanelDataKey) × (k ∈ ks) × (answer k ≡ rejected e))
          → (k : PanelDataKey) × (k ∈ j ∷ ks) × (answer k ≡ rejected e)
      step (rejected e') r ea er q ih = (j, inl refl, ground arith)
      step (fulfilled v) (rejected e') ea er q ih =
          let (k, m, f) = ih (ground arith) in (k, inr m, f)
      step (fulfilled v) (fulfilled rest) ea er q ih = cc

  promise_all_total :
      (ks : List PanelDataKey)
      → ((k : PanelDataKey) → k ∈ ks → (v : D) × (answer k ≡ fulfilled v))
      → (es : List (PanelDataKey × D)) × (promise_all answer ks ≡ fulfilled es)
  unfolding promise_all
  promise_all_total [] all = ([], refl)
  promise_all_total (j ∷ ks) all =
      let (v, e) = all j (inl refl) in
      let (es, h) = promise_all_total ks (λ k m. all k (inr m)) in ((j, v) ∷ es, rw (e, h))

to_patch-rejected :
    {E D : Type 0} (r : Settled E (List (PanelDataKey × D))) (e : E)
    → to_patch r ≡ rejected e
    → r ≡ rejected e
to_patch-rejected (rejected e') e h = ground arith
to_patch-rejected (fulfilled es) e h = cc

includes-unique_keys :
    (k : PanelDataKey) (keys : List PanelDataKey) → includes k (unique_keys keys) ≡ includes k keys
includes-unique_keys k keys = ground (
  arith,
  includes_iff k keys,
  includes_iff k (unique_keys keys),
  (unique_keys-IsDistinct keys).1 k,
)

module _ {E D : Type 0} (encode : String → String) (request_fn : PanelRequest → Settled E D) where
  module _ (token : String) (keys : List PanelDataKey) (ctx : PanelDataFetchContext) where
    -- The patch holds what the request for the key was answered with.
    abbrev pub IsAnswer : (PanelDataKey → Option D) → PanelDataKey → Type 0
    IsAnswer patch k =
        (v : D) × (request_fn (panel_request encode token ctx k) ≡ fulfilled v) × (patch k ≡ some v)

    -- A fetch that succeeds holds the server's answer for each key asked for, however often it is
    -- listed, so that every request for one of them has succeeded; and nothing for any other key.
    pub fetch_panel_data_keys-eq :
        (patch : PanelDataKey → Option D)
        → (fetch_panel_data_keys encode request_fn token keys ctx).1 ≡ fulfilled patch
        → (k : PanelDataKey) → ((k ∈ keys) × IsAnswer patch k) ⊎ ((¬ (k ∈ keys)) × (patch k ≡ none))
    unfolding fetch_panel_data_keys
    fetch_panel_data_keys-eq patch h k = step (promise_all answer (unique_keys keys)) refl h
      where
        answer : PanelDataKey → Settled E D
        answer j = request_fn (panel_request encode token ctx j)

        listed :
            (es : List (PanelDataKey × D))
            → promise_all answer (unique_keys keys) ≡ fulfilled es
            → from_entries es ≡ patch
            → includes k keys ≡ true
            → IsAnswer patch k
        listed es er e c =
            let m : k ∈ unique_keys keys =
              ((unique_keys-IsDistinct keys).1 k).1 ((includes_iff k keys).0 c) in
            let (v, a) = promise_all_answered answer (unique_keys keys) es er k m in
            let fetched = promise_all_fulfilled answer (unique_keys keys) es er k in
            (v, a, rw (← e) (fetched ∙ rw (includes-unique_keys k keys, c, a)))

        step :
            (r : Settled E (List (PanelDataKey × D)))
            → promise_all answer (unique_keys keys) ≡ r
            → to_patch r ≡ fulfilled patch
            → ((k ∈ keys) × IsAnswer patch k) ⊎ ((¬ (k ∈ keys)) × (patch k ≡ none))
        step (rejected e) er q = cc
        step (fulfilled es) er q =
            let e : from_entries es ≡ patch = ground arith in
            elim (Bool-cases (includes k keys)) [
              | inl c ↦ inl ((includes_iff k keys).0 c, listed es er e c)
              | inr c ↦ inr (
                (λ m. cc ((includes_iff k keys).1 m)),
                rw (← e) (
                    promise_all_fulfilled answer (unique_keys keys) es er k
                    ∙ rw (includes-unique_keys k keys, c)),
              )
            ]

    -- A fetch succeeds where every request for a listed key does.
    pub fetch_panel_data_keys-fulfilled :
        ((k : PanelDataKey)
          → k ∈ keys
          → (v : D) × (request_fn (panel_request encode token ctx k) ≡ fulfilled v))
        → (patch : PanelDataKey → Option D) × ((fetch_panel_data_keys encode request_fn token keys
              ctx).1
            ≡ fulfilled patch)
    unfolding fetch_panel_data_keys
    fetch_panel_data_keys-fulfilled all =
        let listed = λ (k : PanelDataKey). ((unique_keys-IsDistinct keys).1 k).0 in
        let (es, h) =
          promise_all_total (λ j. request_fn (panel_request encode token ctx j)) (unique_keys keys)
            (λ k m. all k (listed k m)) in
        (from_entries es, rw h)

    -- Where a fetch fails, its error is that of the request for one of the listed keys.
    pub fetch_panel_data_keys-rejected :
        (e : E)
        → (fetch_panel_data_keys encode request_fn token keys ctx).1 ≡ rejected e
        → (k : PanelDataKey) × (k ∈ keys)
          × (request_fn (panel_request encode token ctx k) ≡ rejected e)
    unfolding fetch_panel_data_keys
    fetch_panel_data_keys-rejected e h =
        let (k, m, f) =
          promise_all_rejected answer (unique_keys keys) e
            (to_patch-rejected (promise_all answer (unique_keys keys)) e h) in
        (k, ((unique_keys-IsDistinct keys).1 k).0 m, f)
      where
        answer : PanelDataKey → Settled E D
        answer j = request_fn (panel_request encode token ctx j)
