-- ===== src/Editors/Organization.antt =====
-- The editor of an organization: the effect of frontend/src/App.tsx on the organization that is
-- edited and the polled organizations.
pub mod Laws
use openvpn_control_server.Shared.{
  Bool, true, false, List, [], ◌∷◌, Option, none, some, String, ◌==◌, ◌||◌, not, is_empty,
  if◌then◌else◌,
}
use openvpn_control_server.Firewall.Stored.{FirewallJson, Policy, organization_policy_of}
use openvpn_control_server.Editors.User.{is_hydrated}

pub record OrganizationForm : Type 0 where
  pub id : String
  pub name : String
  pub inn : String
  pub legal_address : String
  pub general_director : String
  pub phone : String
  pub email : String

-- A property that is not there is the empty text.
pub record Organization : Type 0 where
  pub form : OrganizationForm
  pub firewall_rules : FirewallJson

pub record OrganizationEditor : Type 0 where
  pub form : OrganizationForm
  pub policy : Policy
  pub hydrated_for : Option String

unfoldable pub organization_of : String → List Organization → Option Organization
organization_of i [] = none
organization_of i (o ∷ os) = if o.form.id == i then some o else organization_of i os

module _ (to_lower : String → String) where
  abbrev pub load_organization :
      String → Option Organization → OrganizationEditor → OrganizationEditor
  load_organization edit_id none e = e
  load_organization edit_id (some o) e =
      if is_hydrated e.hydrated_for edit_id then record e { form = o.form } else record e {
        form = o.form;
        hydrated_for = some edit_id;
        policy = organization_policy_of to_lower o.firewall_rules e.policy;
      }

  -- `on_edit_page` tells whether the page of one organization is open.
  unfoldable pub hydrate_organization :
      Bool → String → List Organization → OrganizationEditor → OrganizationEditor
  unfolding organization_of organization_policy_of
  hydrate_organization on_edit_page edit_id organizations e =
      if not on_edit_page || is_empty edit_id
      then record e { hydrated_for = none }
      else load_organization edit_id (organization_of edit_id organizations) e

-- What may happen while the page of an organization is open.
pub data Event : Type 0 where
  polled : (organizations : List Organization) → Event
  typed_policy : (policy : Policy) → Event
  typed_form : (form : OrganizationForm) → Event

module _ (to_lower : String → String) where
  unfoldable pub step : String → Event → OrganizationEditor → OrganizationEditor
  unfolding hydrate_organization
  step edit_id (polled organizations) e = hydrate_organization to_lower true edit_id organizations e
  step edit_id (typed_policy p) e = record e { policy = p }
  step edit_id (typed_form f) e = record e { form = f }

  unfoldable pub run : String → List Event → OrganizationEditor → OrganizationEditor
  unfolding step
  run edit_id [] e = e
  run edit_id (v ∷ vs) e = run edit_id vs (step edit_id v e)
