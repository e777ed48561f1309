-- ===== src/Firewall/Stored.antt =====
-- The rules that are stored with a user or an organization, as the effects of frontend/src/App.tsx
-- read them: they have had several forms.
use openvpn_control_server.Shared.{
  List, [], Option, none, some, String, ◌==◌, or_else, if◌then◌else◌,
}
use openvpn_control_server.Firewall.Rules.{FilterRule, NatRule}

-- `firewallRules`: not there or null, a list of rules, an object with a mode and two lists, or any
-- other value. A mode that is not there is the empty text, and a list that is no array is none.
pub data FirewallJson : Type 0 where
  missing malformed : FirewallJson
  plain : (rules : List FilterRule) → FirewallJson
  object :
      (mode : String) (rules : Option (List FilterRule)) (nat_rules : Option (List NatRule))
      → FirewallJson

-- The states of an editor that hold what is stored.
pub record Policy : Type 0 where
  pub mode : String
  pub rules : List FilterRule
  pub nat_rules : List NatRule

abbrev pub no_policy : Policy
no_policy = record { mode = "merge"; rules = []; nat_rules = [] }

-- `Array.isArray(xs) ? xs : ys`
abbrev pub list_or : {A : Type 0} → Option (List A) → List A → List A
list_or none d = d
list_or (some xs) d = xs

module _ (to_lower : String → String) where
  abbrev pub mode_of : String → String
  mode_of m = if to_lower m == "replace" then "replace" else "merge"

  -- What the effect of a user makes of it.
  unfoldable pub user_policy_of : FirewallJson → Policy
  user_policy_of missing = no_policy
  user_policy_of malformed = no_policy
  user_policy_of (plain rules) = record no_policy { rules = rules }
  user_policy_of (object mode rules nat_rules) = record {
    mode = mode_of (or_else mode "merge");
    rules = list_or rules [];
    nat_rules = list_or nat_rules [];
  }

  -- What the effect of an organization makes of it; a value of another form changes nothing.
  unfoldable pub organization_policy_of : FirewallJson → Policy → Policy
  organization_policy_of missing old = no_policy
  organization_policy_of malformed old = old
  organization_policy_of (plain rules) old = record no_policy { rules = rules }
  organization_policy_of (object mode rules nat_rules) old = record {
    mode = mode_of mode;
    rules = list_or rules [];
    nat_rules = list_or nat_rules [];
  }
