-- ===== src/Editors/Organization/Laws.antt =====
-- What the editor of an organization holds after any sequence of polls and edits.
use openvpn_control_server.Shared.{
  ◌≡◌, ◌≢◌, refl, ap, ◌∙◌, true, false, List, [], ◌∷◌, Option, none, some, String, eq_iff, is_empty,
  is_empty_iff, arith,
}
use openvpn_control_server.Firewall.Stored.{
  FirewallJson, missing, malformed, plain, object, Policy, no_policy, organization_policy_of,
}
use openvpn_control_server.Editors.User.{is_hydrated}
use openvpn_control_server.Editors.Organization.{
  OrganizationForm, Organization, OrganizationEditor, organization_of, load_organization,
  hydrate_organization, Event, polled, typed_policy, typed_form, step, run,
}

-- The rules typed last, and the form typed or polled last.
unfoldable pub last_policy : List Event → Policy → Policy
last_policy [] p = p
last_policy (typed_policy q ∷ es) p = last_policy es q
last_policy (polled os ∷ es) p = last_policy es p
last_policy (typed_form f ∷ es) p = last_policy es p

abbrev pub form_or : Option Organization → OrganizationForm → OrganizationForm
form_or none d = d
form_or (some o) d = o.form

unfoldable pub last_form : String → List Event → OrganizationForm → OrganizationForm
unfolding organization_of
last_form i [] d = d
last_form i (typed_form f ∷ es) d = last_form i es f
last_form i (polled os ∷ es) d = last_form i es (form_or (organization_of i os) d)
last_form i (typed_policy p ∷ es) d = last_form i es d

is_hydrated-other : (h : Option String) (i : String) → h ≢ some i → is_hydrated h i ≡ false
is_hydrated-other none i n = refl
is_hydrated-other (some j) i n = ground (arith, eq_iff j i)

module _ (to_lower : String → String) where
  load_organization_stays :
      (i : String) (o : Option Organization) (e : OrganizationEditor)
      → e.hydrated_for ≡ some i
      → load_organization to_lower i o e ≡ record e { form = form_or o e.form }
  load_organization_stays i none e h = refl
  load_organization_stays i (some o) e h = rw (h, (eq_iff i i).1 refl) refl

  step-polled :
      (i : String) (os : List Organization) (e : OrganizationEditor)
      → is_empty i ≡ false
      → e.hydrated_for ≡ some i
      → step to_lower i (polled os) e ≡ record e { form = form_or (organization_of i os) e.form }
  unfolding step hydrate_organization
  step-polled i os e n h = rw n (load_organization_stays i (organization_of i os) e h)

  run_open :
      (vs : List Event) (i : String) (e : OrganizationEditor)
      → is_empty i ≡ false
      → e.hydrated_for ≡ some i
      → run to_lower i vs e
        ≡ record e { policy = last_policy vs e.policy; form = last_form i vs e.form }
  unfolding run last_policy last_form
  run_open [] i e n h = refl
  run_open (polled os ∷ vs) i e n h =
      ap (run to_lower i vs) (step-polled i os e n h)
      ∙ run_open vs i (record e { form = form_or (organization_of i os) e.form }) n h
  run_open (typed_policy p ∷ vs) i e n h = run_open vs i (step to_lower i (typed_policy p) e) n h
  run_open (typed_form f ∷ vs) i e n h = run_open vs i (step to_lower i (typed_form f) e) n h

  -- A stored value of a form that the panel knows does not depend on the rules of before.
  organization_policy_of-known :
      (j : FirewallJson) (old new : Policy)
      → j ≢ malformed
      → organization_policy_of to_lower j old ≡ organization_policy_of to_lower j new
  unfolding organization_policy_of
  organization_policy_of-known missing old new k = refl
  organization_policy_of-known malformed old new k = absurd (k refl)
  organization_policy_of-known (plain rules) old new k = refl
  organization_policy_of-known (object mode rules nat_rules) old new k = refl

  hydrate_organization_other :
      (i : String) (os : List Organization) (o : Organization) (e : OrganizationEditor)
      → is_empty i ≡ false
      → organization_of i os ≡ some o
      → is_hydrated e.hydrated_for i ≡ false
      → o.firewall_rules ≢ malformed
      → hydrate_organization to_lower true i os e ≡ record {
        form = o.form;
        policy = organization_policy_of to_lower o.firewall_rules no_policy;
        hydrated_for = some i;
      }
  unfolding hydrate_organization
  hydrate_organization_other i os o e n k h m =
      rw (n, k, h, organization_policy_of-known o.firewall_rules e.policy no_policy m) refl

  -- After the page of a listed organization is opened and any sequence of polls and edits, the
  -- rules are those typed last or else the organization's own, and the form is the one typed or
  -- polled last: a poll keeps edits of the rules and undoes those of the form. The organization
  -- is not the one whose rules were loaded last, and its stored rules are none, a list or an
  -- object.
  pub run-hydrate_organization :
      (vs : List Event) (i : String) (os : List Organization) (o : Organization)
      (e : OrganizationEditor)
      → i ≢ ""
      → organization_of i os ≡ some o
      → e.hydrated_for ≢ some i
      → o.firewall_rules ≢ malformed
      → run to_lower i vs (hydrate_organization to_lower true i os e) ≡ record {
        form = last_form i vs o.form;
        policy = last_policy vs (organization_policy_of to_lower o.firewall_rules no_policy);
        hydrated_for = some i;
      }
  run-hydrate_organization vs i os o e n k h m =
      let full : is_empty i ≡ false = ground (arith, is_empty_iff i) in
      let loaded : OrganizationEditor = record {
        form = o.form;
        policy = organization_policy_of to_lower o.firewall_rules no_policy;
        hydrated_for = some i;
      } in
      ap (run to_lower i vs)
        (hydrate_organization_other i os o e full k (is_hydrated-other e.hydrated_for i h) m)
      ∙ run_open vs i loaded full refl
