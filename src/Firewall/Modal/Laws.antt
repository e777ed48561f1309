-- ===== src/Firewall/Modal/Laws.antt =====
-- What the dialog of a rule does to the six lists.
use openvpn_control_server.Shared.{
  ℕ, ◌≡◌, ◌≢◌, refl, false, ◌&&◌, not, List, some, String, ap, append, decimal, is_empty_iff, ◌==◌,
  or_else_first, is_empty, trim, IsDistinct, Bool-cases, inl, inr, if◌then◌else◌, arith,
}
use openvpn_control_server.Firewall.Rules.{FilterRule, NatRule}
use openvpn_control_server.Firewall.Rules.Laws.{ids, rule_of, put_rule-IsDistinct, put_rule_same}
use openvpn_control_server.Firewall.Modal.{
  FirewallEditor, RuleModal, filter_fields, open_firewall_rule_modal, next_filter_rule,
  next_nat_rule, store_rule, submit_firewall_rule_modal, put_filter, put_nat,
}

-- No list holds two rules of one id.
abbrev pub AllDistinct : FirewallEditor → Type 0
AllDistinct s =
    IsDistinct (ids (λ (r : FilterRule). r.id) s.server_rules)
    × IsDistinct (ids (λ (r : NatRule). r.id) s.server_nat_rules)
    × IsDistinct (ids (λ (r : FilterRule). r.id) s.organization_rules)
    × IsDistinct (ids (λ (r : NatRule). r.id) s.organization_nat_rules)
    × IsDistinct (ids (λ (r : FilterRule). r.id) s.user_rules)
    × IsDistinct (ids (λ (r : NatRule). r.id) s.user_nat_rules)

filters_stay :
    (r : FilterRule) (rs : List FilterRule)
    → IsDistinct (ids (λ (x : FilterRule). x.id) rs)
    → IsDistinct (ids (λ (x : FilterRule). x.id) (put_filter r rs))
filters_stay r rs d = put_rule-IsDistinct (λ (x : FilterRule). x.id) r rs d

nats_stay :
    (r : NatRule) (rs : List NatRule)
    → IsDistinct (ids (λ (x : NatRule). x.id) rs)
    → IsDistinct (ids (λ (x : NatRule). x.id) (put_nat r rs))
nats_stay r rs d = put_rule-IsDistinct (λ (x : NatRule). x.id) r rs d

store_rule-AllDistinct :
    (now : ℕ) (s : FirewallEditor) → AllDistinct s → AllDistinct (store_rule now s)
unfolding store_rule
store_rule-AllDistinct now s (a, b, c, d, e, f) =
    let filter = next_filter_rule now s.modal in
    let nat = next_nat_rule now s.modal in
    elim (Bool-cases (s.modal.scope == "server")) [
      | inl p ↦ elim (Bool-cases (s.modal.kind == "nat")) [
        | inl k ↦ rw (p, k) (a, nats_stay nat s.server_nat_rules b, c, d, e, f)
        | inr k ↦ rw (p, k) (filters_stay filter s.server_rules a, b, c, d, e, f)
      ]
      | inr p ↦ elim (Bool-cases (s.modal.scope == "organization")) [
        | inl o ↦ elim (Bool-cases (s.modal.kind == "nat")) [
          | inl k ↦ rw (p, o, k) (a, b, c, nats_stay nat s.organization_nat_rules d, e, f)
          | inr k ↦ rw (p, o, k) (a, b, filters_stay filter s.organization_rules c, d, e, f)
        ]
        | inr o ↦ elim (Bool-cases (s.modal.kind == "nat")) [
          | inl k ↦ rw (p, o, k) (a, b, c, d, e, nats_stay nat s.user_nat_rules f)
          | inr k ↦ rw (p, o, k) (a, b, c, d, filters_stay filter s.user_rules e, f)
        ]
      ]
    ]

-- If no list of rules holds an id twice, none does after the dialog is submitted, whatever it
-- holds.
pub submit-AllDistinct :
    (now : ℕ) (s : FirewallEditor) → AllDistinct s → AllDistinct (submit_firewall_rule_modal now s)
unfolding submit_firewall_rule_modal
submit-AllDistinct now s h =
    elim (Bool-cases (not (s.modal.kind == "nat") && is_empty (trim s.modal.draft.destination))) [
      | inl e ↦ rw e h
      | inr e ↦ rw e (store_rule-AllDistinct now s h)
    ]

-- The fields of a rule that a dialog may have made: no space at either end, and no empty action,
-- protocol, destination or id.
abbrev pub IsTidy : FilterRule → Type 0
IsTidy r =
    (r.id ≢ "")
    × (r.action ≢ "")
    × (r.proto ≢ "")
    × (r.destination ≢ "")
    × (trim r.destination ≡ r.destination)
    × (trim r.ports ≡ r.ports)
    × (trim r.note ≡ r.note)

next_filter_rule-opened :
    (now : ℕ) (scope section : String) (r : FilterRule) (s : FirewallEditor)
    → IsTidy r
    → next_filter_rule now
        (open_firewall_rule_modal scope (some (filter_fields r)) section "filter" s).modal
      ≡ r
unfolding next_filter_rule open_firewall_rule_modal
next_filter_rule-opened now scope section r s (i, a, p, d, td, tp, tn) =
    rw
      (
        or_else_first r.action "allow" a,
        or_else_first r.proto "tcp" p,
        or_else_first r.action "allow" a,
        or_else_first r.proto "tcp" p,
        or_else_first r.id (append "rule-" (decimal now)) i,
        td,
        tp,
        tn,
      )
      refl

-- The six lists.
abbrev pub lists :
    FirewallEditor
    → List FilterRule
      × List NatRule
      × List FilterRule
      × List NatRule
      × List FilterRule
      × List NatRule
lists s = (
  s.server_rules, s.server_nat_rules, s.organization_rules, s.organization_nat_rules, s.user_rules,
  s.user_nat_rules,
)

-- The list of filter rules of a scope.
abbrev pub rules_of : String → FirewallEditor → List FilterRule
rules_of scope s =
    if scope == "server"
    then s.server_rules
    else if scope == "organization"
    then s.organization_rules
    else s.user_rules

put_same :
    (now : ℕ) (r : FilterRule) (m : RuleModal) (rs : List FilterRule)
    → next_filter_rule now m ≡ r
    → IsDistinct (ids (λ (x : FilterRule). x.id) rs)
    → rule_of (λ (x : FilterRule). x.id) r.id rs ≡ some r
    → put_filter (next_filter_rule now m) rs ≡ rs
put_same now r m rs n d h = rw n (put_rule_same (λ (x : FilterRule). x.id) r rs d h)

lists-store_rule :
    (now : ℕ) (r : FilterRule) (s : FirewallEditor)
    → AllDistinct s
    → s.modal.kind ≡ "filter"
    → next_filter_rule now s.modal ≡ r
    → rule_of (λ (x : FilterRule). x.id) r.id (rules_of s.modal.scope s) ≡ some r
    → lists (store_rule now s) ≡ lists s
unfolding store_rule
lists-store_rule now r s (a, b, c, d, e, f) k n h = elim (Bool-cases (s.modal.scope == "server")) [
  | inl p ↦
      let there : rule_of (λ (x : FilterRule). x.id) r.id s.server_rules ≡ some r = ground arith in
      rw (p, k)
        (ap
          (λ t. (
            t, s.server_nat_rules, s.organization_rules, s.organization_nat_rules, s.user_rules,
            s.user_nat_rules,
          ))
          (put_same now r s.modal s.server_rules n a there))
  | inr p ↦ elim (Bool-cases (s.modal.scope == "organization")) [
    | inl o ↦
        let there : rule_of (λ (x : FilterRule). x.id) r.id s.organization_rules ≡ some r =
          ground arith in
        rw (p, o, k)
          (ap
            (λ t. (
              s.server_rules, s.server_nat_rules, t, s.organization_nat_rules, s.user_rules,
              s.user_nat_rules,
            ))
            (put_same now r s.modal s.organization_rules n c there))
    | inr o ↦
        let there : rule_of (λ (x : FilterRule). x.id) r.id s.user_rules ≡ some r = ground arith in
        rw (p, o, k)
          (ap
            (λ t. (
              s.server_rules, s.server_nat_rules, s.organization_rules, s.organization_nat_rules, t,
              s.user_nat_rules,
            ))
            (put_same now r s.modal s.user_rules n e there))
  ]
]

-- Opening the dialog for a rule of the list of its scope and submitting it unchanged leaves all
-- six lists as they are, where no list holds an id twice and the rule has an id, an action, a
-- protocol and a destination and no white space around its texts.
pub submit-open_firewall_rule_modal :
    (now : ℕ) (scope section : String) (r : FilterRule) (s : FirewallEditor)
    → AllDistinct s
    → IsTidy r
    → rule_of (λ (x : FilterRule). x.id) r.id (rules_of scope s) ≡ some r
    → lists (
        submit_firewall_rule_modal now
          (open_firewall_rule_modal scope (some (filter_fields r)) section "filter" s))
      ≡ lists s
unfolding submit_firewall_rule_modal open_firewall_rule_modal
submit-open_firewall_rule_modal now scope section r s d t h =
    let filled : is_empty (trim r.destination) ≡ false =
      ground (arith, t, is_empty_iff r.destination) in
    rw filled (
      lists-store_rule now r
        (open_firewall_rule_modal scope (some (filter_fields r)) section "filter" s) d refl
        (next_filter_rule-opened now scope section r s t) h)
