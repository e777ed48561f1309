-- ===== src/Tests/Editors.antt =====
-- The editors of a user and of an organization.
use mathlib.Core.Option.{some-injective}
use openvpn_control_server.Shared.{◌≡◌, ◌≢◌, refl, true, List, [], ◌∷◌, none, some, String, apart}
use openvpn_control_server.Firewall.Stored.{
  missing, Policy, no_policy, user_policy_of, organization_policy_of,
}
use openvpn_control_server.Editors.User.{
  ProfileDraft, VpnUser, UserPage, blank_ccd, user_of, Event, polled, typed_policy, typed_profile,
  run, select,
}
use openvpn_control_server.Editors.User.Laws.{
  opened, last_policy, last_ccd, last_profile, run-select,
}
use openvpn_control_server.Editors.Organization
use openvpn_control_server.Editors.Organization.Laws

abbrev same : String → String
same s = s

abbrev anna : ProfileDraft
anna = record {
  full_name = "Anna";
  position = "";
  email = "a@b";
  phone = "";
  organization_id = "";
  notes = "";
}

abbrev user : VpnUser
user = record { id = "u1"; profile = anna; firewall_rules = missing; ccd_settings = none }

abbrev start : UserPage
start = record {
  selected_user_id = "";
  vpn_users = user ∷ [];
  editor = record {
    policy = no_policy;
    firewall_hydrated_for = none;
    ccd_draft = blank_ccd;
    ccd_result = "";
    ccd_hydrated_for = none;
    profile_draft = record anna { full_name = "" };
  };
}

abbrev strict : Policy
strict = record no_policy { mode = "replace" }

-- Rules are edited, the name is edited, and then the list is polled.
abbrev edits : List Event
edits =
    typed_policy strict
    ∷ typed_profile (record anna { full_name = "Anna K." })
    ∷ polled (user ∷ [])
    ∷ []

run-select_example :
    (run same edits (select same "u1" start)).editor ≡ record (opened same user "u1") {
      policy = last_policy edits no_policy;
      ccd_draft = last_ccd edits blank_ccd;
      profile_draft = last_profile "u1" edits anna;
    }
unfolding user_of user_policy_of
run-select_example =
    run-select same edits "u1" user start (apart "u1" "" refl) (apart "" "u1" refl) refl (λ e. cc)
      (λ e. cc)

abbrev form : Organization.OrganizationForm
form = record {
  id = "o1";
  name = "Org";
  inn = "";
  legal_address = "";
  general_director = "";
  phone = "";
  email = "";
}

abbrev organization : Organization.Organization
organization = record { form = form; firewall_rules = missing }

abbrev blank : Organization.OrganizationEditor
blank = record {
  form = record form { id = ""; name = "" };
  policy = strict;
  hydrated_for = some "o2";
}

from_other : blank.hydrated_for ≢ some "o1"
from_other e = apart "o2" "o1" refl (some-injective _ _ e)

abbrev changes : List Organization.Event
changes =
    Organization.typed_form (record form { name = "New" })
    ∷ Organization.typed_policy strict
    ∷ Organization.polled (organization ∷ [])
    ∷ []

run-hydrate_organization_example :
    Organization.run same "o1" changes
      (Organization.hydrate_organization same true "o1" (organization ∷ []) blank)
    ≡ record {
      form = Laws.last_form "o1" changes form;
      policy = Laws.last_policy changes no_policy;
      hydrated_for = some "o1";
    }
unfolding Organization.organization_of organization_policy_of
run-hydrate_organization_example =
    Laws.run-hydrate_organization same changes "o1" (organization ∷ []) organization blank
      (apart "o1" "" refl) refl from_other (λ e. cc)
