-- ===== src/Tests/Firewall.antt =====
-- The rules of a server and of a user.
use openvpn_control_server.Shared.{
  ◌≡◌, inl, inr, refl, true, false, [], ◌∷◌, none, some, String, apart, trim,
}
use openvpn_control_server.Firewall.Rules.{FilterRule, put_rule, drop_rule}
use openvpn_control_server.Firewall.Rules.Laws.{rule_of, rule_of-put_rule}
use openvpn_control_server.Firewall.Modal.{
  FirewallEditor, blank_draft, closed_modal, filter_fields, open_firewall_rule_modal,
  submit_firewall_rule_modal,
}
use openvpn_control_server.Firewall.Modal.Laws.{
  AllDistinct, IsTidy, lists, rules_of, submit-AllDistinct, submit-open_firewall_rule_modal,
}
use openvpn_control_server.Firewall.Stored.{no_policy}
use openvpn_control_server.Firewall.Saved.{
  FirewallPage, load_server_firewall, apply_server_firewall, apply_user_firewall,
  apply_organization_firewall,
}
use openvpn_control_server.Firewall.Saved.Laws.{policies, server_answer, answer_of, apply-echo}

abbrev ssh : FilterRule
ssh = record {
  id = "a";
  action = "allow";
  proto = "tcp";
  destination = "10.0.0.1";
  ports = "22";
  note = "";
}

abbrev web : FilterRule
web = record {
  id = "b";
  action = "deny";
  proto = "tcp";
  destination = "10.0.0.0/8";
  ports = "80";
  note = "web";
}

rule_of-put_rule_example :
    (rule_of (λ (r : FilterRule). r.id) "b" (put_rule (λ (r : FilterRule). r.id) web (ssh ∷ []))
      ≡ some web)
    × (rule_of (λ (r : FilterRule). r.id) "b" (drop_rule (λ (r : FilterRule). r.id) "a" (ssh ∷ []))
        ≡ none)
unfolding rule_of
rule_of-put_rule_example = rule_of-put_rule (λ (r : FilterRule). r.id) "b" "a" web (ssh ∷ [])

abbrev editor : FirewallEditor
editor = record {
  server_rules = ssh ∷ web ∷ [];
  server_nat_rules = [];
  organization_rules = [];
  organization_nat_rules = [];
  user_rules = ssh ∷ [];
  user_nat_rules = [];
  modal = record closed_modal {
    is_open = true;
    scope = "user";
    draft = record blank_draft { destination = "10.0.0.9" };
  };
  nat_out_interface_input_mode = "manual";
  nat_to_address_input_mode = "manual";
}

editor-AllDistinct : AllDistinct editor
editor-AllDistinct = (
  ((λ h. elim h [ inl e ↦ apart "a" "b" refl e | inr k ↦ absurd k ]), ((λ h. absurd h), tt)),
  tt,
  tt,
  tt,
  ((λ h. absurd h), tt),
  tt,
)

submit-AllDistinct_example : AllDistinct (submit_firewall_rule_modal 1700000000000 editor)
submit-AllDistinct_example = submit-AllDistinct 1700000000000 editor editor-AllDistinct

web-IsTidy : IsTidy web
web-IsTidy = (
  apart "b" "" refl,
  apart "deny" "" refl,
  apart "tcp" "" refl,
  apart "10.0.0.0/8" "" refl,
  unfold trim in refl,
  unfold trim in refl,
  unfold trim in refl,
)

web_there : rule_of (λ (r : FilterRule). r.id) "b" (rules_of "server" editor) ≡ some web
unfolding rule_of
web_there = refl

submit-open_firewall_rule_modal_example :
    lists (
      submit_firewall_rule_modal 1700000000000
        (open_firewall_rule_modal "server" (some (filter_fields web)) "tunnel" "filter" editor))
    ≡ lists editor
submit-open_firewall_rule_modal_example =
    submit-open_firewall_rule_modal 1700000000000 "server" "tunnel" web editor editor-AllDistinct
      web-IsTidy web_there

abbrev page : FirewallPage
page = record {
  server_policy = record { default_policy = "deny"; rules = ssh ∷ []; nat_rules = [] };
  server_loading = false;
  server_busy = true;
  user_policy = no_policy;
  user_busy = false;
  organization_policy = no_policy;
  organization_busy = false;
  error = "";
}

abbrev same : String → String
same s = s

apply-echo_example :
    (policies (apply_server_firewall (λ sent. server_answer sent.policy) "n" "jwt" page)
      ≡ policies page)
    × (policies (load_server_firewall (λ i. server_answer page.server_policy) "n" "jwt" page)
        ≡ policies page)
    × (policies (apply_user_firewall (λ sent. answer_of sent.policy) "n" "jwt" page)
        ≡ policies page)
    × (policies (apply_organization_firewall same (λ sent. answer_of sent.policy) "n" "jwt" page)
        ≡ policies page)
apply-echo_example = apply-echo same "n" "jwt" page (apart "deny" "" refl) (refl, inl refl)
