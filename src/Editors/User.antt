-- ===== src/Editors/User.antt =====
-- The editors of a user's page: the three effects of frontend/src/App.tsx on the selected user and
-- the polled users, for the rules of the firewall, for the options of the client (CCD), and for the
-- profile.
pub mod Laws
use openvpn_control_server.Shared.{
  Bool, true, false, List, [], ◌∷◌, Option, none, some, String, ◌==◌, is_empty, if◌then◌else◌,
}
use openvpn_control_server.Firewall.Stored.{FirewallJson, Policy, no_policy, user_policy_of}

pub record ProfileDraft : Type 0 where
  pub full_name : String
  pub position : String
  pub email : String
  pub phone : String
  pub organization_id : String
  pub notes : String

pub record CcdDraft : Type 0 where
  pub ifconfig_push_local : String
  pub ifconfig_push_remote : String
  pub push_routes : String
  pub iroutes : String
  pub dns_servers : String
  pub custom_directives : String

abbrev pub blank_ccd : CcdDraft
blank_ccd = record {
  ifconfig_push_local = "";
  ifconfig_push_remote = "";
  push_routes = "";
  iroutes = "";
  dns_servers = "";
  custom_directives = "";
}

-- What the effects read of a user; a property that is not there is the empty text, and options of
-- the client that are no object are none.
pub record VpnUser : Type 0 where
  pub id : String
  pub profile : ProfileDraft
  pub firewall_rules : FirewallJson
  pub ccd_settings : Option CcdDraft

pub record UserEditor : Type 0 where
  pub policy : Policy
  pub firewall_hydrated_for : Option String
  pub ccd_draft : CcdDraft
  pub ccd_result : String
  pub ccd_hydrated_for : Option String
  pub profile_draft : ProfileDraft

-- `vpnUsers.find((u) => u.id === selectedUserId)`
unfoldable pub user_of : String → List VpnUser → Option VpnUser
user_of i [] = none
user_of i (u ∷ us) = if u.id == i then some u else user_of i us

-- `ref.current === id`
abbrev pub is_hydrated : Option String → String → Bool
is_hydrated none i = false
is_hydrated (some j) i = j == i

abbrev pub ccd_or_blank : Option CcdDraft → CcdDraft
ccd_or_blank none = blank_ccd
ccd_or_blank (some c) = c

module _ (to_lower : String → String) where
  abbrev pub load_firewall : String → Option VpnUser → UserEditor → UserEditor
  load_firewall selected none e = e
  load_firewall selected (some u) e =
      if is_hydrated e.firewall_hydrated_for selected then e else record e {
        firewall_hydrated_for = some selected;
        policy = user_policy_of to_lower u.firewall_rules;
      }

  unfoldable pub hydrate_firewall : String → List VpnUser → UserEditor → UserEditor
  unfolding user_of user_policy_of
  hydrate_firewall selected users e =
      if is_empty selected
      then record e { firewall_hydrated_for = none; policy = no_policy }
      else load_firewall selected (user_of selected users) e

  abbrev pub load_ccd : String → Option VpnUser → UserEditor → UserEditor
  load_ccd selected none e = e
  load_ccd selected (some u) e = if is_hydrated e.ccd_hydrated_for selected then e else record e {
    ccd_hydrated_for = some selected;
    ccd_draft = ccd_or_blank u.ccd_settings;
    ccd_result = "";
  }

  unfoldable pub hydrate_ccd : String → List VpnUser → UserEditor → UserEditor
  unfolding user_of
  hydrate_ccd selected users e =
      if is_empty selected
      then record e { ccd_hydrated_for = none; ccd_draft = blank_ccd; ccd_result = "" }
      else load_ccd selected (user_of selected users) e

  abbrev pub fill_profile : Option VpnUser → UserEditor → UserEditor
  fill_profile none e = e
  fill_profile (some u) e = record e { profile_draft = u.profile }

  unfoldable pub load_profile : String → List VpnUser → UserEditor → UserEditor
  unfolding user_of
  load_profile selected users e =
      if is_empty selected then e else fill_profile (user_of selected users) e

  -- The effects, in the order in which they are declared. Each runs when the selected user or the
  -- list of users has changed.
  unfoldable pub user_effects : String → List VpnUser → UserEditor → UserEditor
  unfolding hydrate_firewall hydrate_ccd load_profile
  user_effects selected users e =
      load_profile selected users (hydrate_ccd selected users (hydrate_firewall selected users e))

-- What may happen while the selected user stays.
pub data Event : Type 0 where
  -- The answer of a poll; it is another list than before, whatever it holds.
  polled : (users : List VpnUser) → Event
  typed_policy : (policy : Policy) → Event
  typed_ccd : (draft : CcdDraft) → Event
  typed_profile : (draft : ProfileDraft) → Event

pub record UserPage : Type 0 where
  pub selected_user_id : String
  pub vpn_users : List VpnUser
  pub editor : UserEditor

module _ (to_lower : String → String) where
  unfoldable pub step : Event → UserPage → UserPage
  unfolding user_effects
  step (polled users) s = record s {
    vpn_users = users;
    editor = user_effects to_lower s.selected_user_id users s.editor;
  }
  step (typed_policy p) s = record s { editor = record (s.editor) { policy = p } }
  step (typed_ccd d) s = record s { editor = record (s.editor) { ccd_draft = d } }
  step (typed_profile d) s = record s { editor = record (s.editor) { profile_draft = d } }

  unfoldable pub run : List Event → UserPage → UserPage
  unfolding step
  run [] s = s
  run (e ∷ es) s = run es (step e s)

  -- The page of another user is opened; the same user is no change.
  unfoldable pub select : String → UserPage → UserPage
  unfolding user_effects
  select i s =
      if s.selected_user_id == i
      then s
      else record s { selected_user_id = i; editor = user_effects to_lower i s.vpn_users s.editor }
