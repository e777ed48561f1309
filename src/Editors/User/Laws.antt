-- ===== src/Editors/User/Laws.antt =====
-- What the editors of a user's page hold after any sequence of polls and edits.
use openvpn_control_server.Shared.{
  ◌≡◌, ◌≢◌, refl, ap, ◌∙◌, true, false, List, [], ◌∷◌, Option, none, some, String, ◌==◌, eq_iff,
  is_empty, is_empty_iff, arith,
}
use openvpn_control_server.Firewall.Stored.{Policy, user_policy_of}
use openvpn_control_server.Editors.User.{
  VpnUser, ProfileDraft, CcdDraft, UserEditor, UserPage, user_of, is_hydrated, ccd_or_blank,
  load_firewall, load_ccd, hydrate_firewall, hydrate_ccd, load_profile, fill_profile, user_effects,
  Event, polled, typed_policy, typed_ccd, typed_profile, step, run, select,
}

-- The rules and the options typed last, and the profile typed or polled last.
unfoldable pub last_policy : List Event → Policy → Policy
last_policy [] p = p
last_policy (typed_policy q ∷ es) p = last_policy es q
last_policy (polled us ∷ es) p = last_policy es p
last_policy (typed_ccd d ∷ es) p = last_policy es p
last_policy (typed_profile d ∷ es) p = last_policy es p

unfoldable pub last_ccd : List Event → CcdDraft → CcdDraft
last_ccd [] d = d
last_ccd (typed_ccd c ∷ es) d = last_ccd es c
last_ccd (polled us ∷ es) d = last_ccd es d
last_ccd (typed_policy p ∷ es) d = last_ccd es d
last_ccd (typed_profile p ∷ es) d = last_ccd es d

abbrev pub profile_or : Option VpnUser → ProfileDraft → ProfileDraft
profile_or none d = d
profile_or (some u) d = u.profile

unfoldable pub last_profile : String → List Event → ProfileDraft → ProfileDraft
unfolding user_of
last_profile i [] d = d
last_profile i (typed_profile p ∷ es) d = last_profile i es p
last_profile i (polled us ∷ es) d = last_profile i es (profile_or (user_of i us) d)
last_profile i (typed_policy p ∷ es) d = last_profile i es d
last_profile i (typed_ccd c ∷ es) d = last_profile i es d

-- The editors are those of the selected user.
record IsOpen (s : UserPage) : Type 0 where
  is_selected : is_empty s.selected_user_id ≡ false
  has_firewall : s.editor.firewall_hydrated_for ≡ some s.selected_user_id
  has_ccd : s.editor.ccd_hydrated_for ≡ some s.selected_user_id

abbrev with_profile : ProfileDraft → UserEditor → UserEditor
with_profile d e = record e { profile_draft = d }

module _ (to_lower : String → String) where
  load_firewall_stays :
      (i : String) (u : Option VpnUser) (e : UserEditor)
      → is_hydrated e.firewall_hydrated_for i ≡ true
      → load_firewall to_lower i u e ≡ e
  load_firewall_stays i none e h = refl
  load_firewall_stays i (some u) e h = rw h refl

  load_ccd_stays :
      (i : String) (u : Option VpnUser) (e : UserEditor)
      → is_hydrated e.ccd_hydrated_for i ≡ true
      → load_ccd to_lower i u e ≡ e
  load_ccd_stays i none e h = refl
  load_ccd_stays i (some u) e h = rw h refl

  fill_profile-or :
      (u : Option VpnUser) (e : UserEditor)
      → fill_profile to_lower u e ≡ with_profile (profile_or u e.profile_draft) e
  fill_profile-or none e = refl
  fill_profile-or (some u) e = refl

  is_hydrated_self : (i : String) → is_hydrated (some i) i ≡ true
  is_hydrated_self i = (eq_iff i i).1 refl

  not_hydrated : (r : Option String) (i : String) → r ≢ some i → is_hydrated r i ≡ false
  not_hydrated none i n = refl
  not_hydrated (some j) i n = ground (arith, eq_iff j i, n)

  -- A poll changes nothing but the profile, once the editors are those of the user.
  user_effects_open :
      (i : String) (us : List VpnUser) (e : UserEditor)
      → is_empty i ≡ false
      → e.firewall_hydrated_for ≡ some i
      → e.ccd_hydrated_for ≡ some i
      → user_effects to_lower i us e ≡ with_profile (profile_or (user_of i us) e.profile_draft) e
  unfolding user_effects hydrate_firewall hydrate_ccd load_profile
  user_effects_open i us e n f c =
      rw
        (
          n,
          load_firewall_stays i (user_of i us) e (rw f (is_hydrated_self i)),
          load_ccd_stays i (user_of i us) e (rw c (is_hydrated_self i)),
        )
        (fill_profile-or (user_of i us) e)

  run_open :
      (es : List Event) (i : String) (us : List VpnUser) (e : UserEditor)
      → IsOpen (record { selected_user_id = i; vpn_users = us; editor = e })
      → (run to_lower es (record { selected_user_id = i; vpn_users = us; editor = e })).editor
        ≡ record e {
          policy = last_policy es e.policy;
          ccd_draft = last_ccd es e.ccd_draft;
          profile_draft = last_profile i es e.profile_draft;
        }
  unfolding run step last_policy last_ccd last_profile
  run_open [] i us e h = refl
  run_open (polled vs ∷ es) i us e h =
      ap
        (λ (f : UserEditor).
          (run to_lower es (record { selected_user_id = i; vpn_users = vs; editor = f })).editor)
        (user_effects_open i vs e h.is_selected h.has_firewall h.has_ccd)
      ∙ (run_open es i vs (with_profile (profile_or (user_of i vs) e.profile_draft) e) (record {
        is_selected = h.is_selected;
        has_firewall = h.has_firewall;
        has_ccd = h.has_ccd;
      }))
  run_open (typed_policy p ∷ es) i us e h =
      run_open es i us (record e { policy = p })
        (record { is_selected = h.is_selected; has_firewall = h.has_firewall; has_ccd = h.has_ccd })
  run_open (typed_ccd d ∷ es) i us e h =
      run_open es i us (record e { ccd_draft = d })
        (record { is_selected = h.is_selected; has_firewall = h.has_firewall; has_ccd = h.has_ccd })
  run_open (typed_profile d ∷ es) i us e h =
      run_open es i us (with_profile d e)
        (record { is_selected = h.is_selected; has_firewall = h.has_firewall; has_ccd = h.has_ccd })

  -- The editors when the page of a stored user is opened.
  abbrev pub opened : VpnUser → String → UserEditor
  opened u i = record {
    policy = user_policy_of to_lower u.firewall_rules;
    firewall_hydrated_for = some i;
    ccd_draft = ccd_or_blank u.ccd_settings;
    ccd_result = "";
    ccd_hydrated_for = some i;
    profile_draft = u.profile;
  }

  user_effects_other :
      (i : String) (us : List VpnUser) (u : VpnUser) (e : UserEditor)
      → is_empty i ≡ false
      → user_of i us ≡ some u
      → is_hydrated e.firewall_hydrated_for i ≡ false
      → is_hydrated e.ccd_hydrated_for i ≡ false
      → user_effects to_lower i us e ≡ opened u i
  unfolding user_effects hydrate_firewall hydrate_ccd load_profile
  user_effects_other i us u e n k f c = rw (n, k, f, c) refl

  select-opened :
      (i : String) (u : VpnUser) (s : UserPage)
      → i ≢ ""
      → s.selected_user_id ≢ i
      → user_of i s.vpn_users ≡ some u
      → is_hydrated s.editor.firewall_hydrated_for i ≡ false
      → is_hydrated s.editor.ccd_hydrated_for i ≡ false
      → select to_lower i s
        ≡ record { selected_user_id = i; vpn_users = s.vpn_users; editor = opened u i }
  unfolding select
  select-opened i u s n m k f c =
      let full : is_empty i ≡ false = ground (arith, is_empty_iff i) in
      let other : (s.selected_user_id == i) ≡ false = ground (arith, eq_iff s.selected_user_id i) in
      rw (other, user_effects_other i s.vpn_users u s.editor full k f c) refl

  -- After the page of a listed user is opened, from a page whose editors are not that user's, and
  -- any sequence of polls and edits, the rules and the options of the client are those typed last
  -- or else that user's own, and the profile is the one typed or polled last: a poll keeps edits
  -- of the first two and undoes those of the profile.
  pub run-select :
      (es : List Event) (i : String) (u : VpnUser) (s : UserPage)
      → i ≢ ""
      → s.selected_user_id ≢ i
      → user_of i s.vpn_users ≡ some u
      → s.editor.firewall_hydrated_for ≢ some i
      → s.editor.ccd_hydrated_for ≢ some i
      → (run to_lower es (select to_lower i s)).editor ≡ record (opened u i) {
        policy = last_policy es (user_policy_of to_lower u.firewall_rules);
        ccd_draft = last_ccd es (ccd_or_blank u.ccd_settings);
        profile_draft = last_profile i es u.profile;
      }
  run-select es i u s n m k f c =
      let full : is_empty i ≡ false = ground (arith, is_empty_iff i) in
      rw
        (select-opened i u s n m k (not_hydrated s.editor.firewall_hydrated_for i f)
          (not_hydrated s.editor.ccd_hydrated_for i c))
        (run_open es i s.vpn_users (opened u i)
          (record { is_selected = full; has_firewall = refl; has_ccd = refl }))
