-- ===== src/Firewall/Modal.antt =====
-- The dialog of a rule, `openFirewallRuleModal` and `submitFirewallRuleModal` of
-- frontend/src/App.tsx, with the six lists of rules that it writes to. The lists are filled and
-- saved by the functions of Firewall/User and Firewall/Saved.
pub mod Laws
use openvpn_control_server.Shared.{
  ℕ, Bool, true, false, ◌&&◌, not, List, [], ◌∷◌, Option, none, some, String, append, ◌==◌, or_else,
  is_empty, trim, decimal, if◌then◌else◌,
}
use openvpn_control_server.Firewall.Rules.{FilterRule, NatRule, put_rule}

-- The fields of the dialog; a rule of either kind has some of them.
pub record RuleDraft : Type 0 where
  pub action : String
  pub proto : String
  pub destination : String
  pub ports : String
  pub note : String
  pub type : String
  pub src : String
  pub dst : String
  pub out_interface : String
  pub to_address : String

pub record RuleModal : Type 0 where
  pub is_open : Bool
  pub scope : String
  pub section : String
  pub kind : String
  pub edit_id : String
  pub draft : RuleDraft
  pub error : String

pub record FirewallEditor : Type 0 where
  pub server_rules : List FilterRule
  pub server_nat_rules : List NatRule
  pub organization_rules : List FilterRule
  pub organization_nat_rules : List NatRule
  pub user_rules : List FilterRule
  pub user_nat_rules : List NatRule
  pub modal : RuleModal
  pub nat_out_interface_input_mode : String
  pub nat_to_address_input_mode : String

abbrev pub blank_draft : RuleDraft
blank_draft = record {
  action = "";
  proto = "";
  destination = "";
  ports = "";
  note = "";
  type = "";
  src = "";
  dst = "";
  out_interface = "";
  to_address = "";
}

-- What the dialog gets of a rule to edit: its id and its fields, those that it does not have as
-- empty texts. A new rule has none.
pub record GivenRule : Type 0 where
  pub id : String
  pub fields : RuleDraft

abbrev pub filter_fields : FilterRule → GivenRule
filter_fields r = record {
  id = r.id;
  fields = record blank_draft {
    action = r.action;
    proto = r.proto;
    destination = r.destination;
    ports = r.ports;
    note = r.note;
  };
}

abbrev pub nat_fields : NatRule → GivenRule
nat_fields r = record {
  id = r.id;
  fields = record blank_draft {
    type = r.type;
    src = r.src;
    dst = r.dst;
    out_interface = r.out_interface;
    to_address = r.to_address;
    note = r.note;
  };
}

abbrev given_or_blank : Option GivenRule → GivenRule
given_or_blank none = record { id = ""; fields = blank_draft }
given_or_blank (some g) = g

unfoldable pub open_firewall_rule_modal :
    String → Option GivenRule → String → String → FirewallEditor → FirewallEditor
unfolding trim
open_firewall_rule_modal scope rule section kind s =
    let g = given_or_blank rule in
    record s {
      nat_out_interface_input_mode =
          if is_empty (trim g.fields.out_interface) then "manual" else "preset";
      nat_to_address_input_mode =
          if is_empty (trim g.fields.to_address) then "manual" else "preset";
      modal = record {
        is_open = true;
        scope = scope;
        section = section;
        kind = kind;
        edit_id = g.id;
        draft = record (g.fields) {
          action = or_else g.fields.action "allow";
          proto = or_else g.fields.proto "tcp";
          type = or_else g.fields.type "masquerade";
        };
        error = "";
      };
    }

-- The rules that the dialog makes of its draft at a time in milliseconds.
unfoldable pub next_filter_rule : ℕ → RuleModal → FilterRule
unfolding trim decimal
next_filter_rule now m = record {
  id = or_else m.edit_id (append "rule-" (decimal now));
  action = or_else m.draft.action "allow";
  proto = or_else m.draft.proto "tcp";
  destination = trim m.draft.destination;
  ports = trim m.draft.ports;
  note = trim m.draft.note;
}

unfoldable pub next_nat_rule : ℕ → RuleModal → NatRule
unfolding trim decimal
next_nat_rule now m = record {
  id = or_else m.edit_id (append "nat-" (decimal now));
  type = or_else m.draft.type "masquerade";
  src = trim m.draft.src;
  dst = trim m.draft.dst;
  out_interface = trim m.draft.out_interface;
  to_address = trim m.draft.to_address;
  note = trim m.draft.note;
}

abbrev pub closed_modal : RuleModal
closed_modal = record {
  is_open = false;
  scope = "server";
  section = "tunnel";
  kind = "filter";
  edit_id = "";
  draft = record blank_draft { action = "allow"; proto = "tcp"; type = "masquerade" };
  error = "";
}

abbrev pub put_filter : FilterRule → List FilterRule → List FilterRule
put_filter r rs = put_rule (λ (x : FilterRule). x.id) r rs

abbrev pub put_nat : NatRule → List NatRule → List NatRule
put_nat r rs = put_rule (λ (x : NatRule). x.id) r rs

-- The list that a rule goes to is that of the dialog's scope and kind; any scope but a server's and
-- an organization's is a user's.
unfoldable pub store_rule : ℕ → FirewallEditor → FirewallEditor
unfolding next_filter_rule next_nat_rule put_rule
store_rule now s =
    let filter_rule = next_filter_rule now s.modal in
    let nat_rule = next_nat_rule now s.modal in
    if s.modal.scope == "server"
    then if s.modal.kind == "nat"
      then record s { server_nat_rules = put_nat nat_rule s.server_nat_rules }
      else record s { server_rules = put_filter filter_rule s.server_rules }
    else if s.modal.scope == "organization" && s.modal.kind == "nat"
    then record s { organization_nat_rules = put_nat nat_rule s.organization_nat_rules }
    else if s.modal.scope == "organization"
    then record s { organization_rules = put_filter filter_rule s.organization_rules }
    else if s.modal.kind == "nat"
    then record s { user_nat_rules = put_nat nat_rule s.user_nat_rules }
    else record s { user_rules = put_filter filter_rule s.user_rules }

unfoldable pub submit_firewall_rule_modal : ℕ → FirewallEditor → FirewallEditor
unfolding store_rule trim
submit_firewall_rule_modal now s =
    if not (s.modal.kind == "nat") && is_empty (trim s.modal.draft.destination)
    then record s { modal = record (s.modal) { error = "Укажите destination (IP/CIDR)." } }
    else record (store_rule now s) { modal = closed_modal }
