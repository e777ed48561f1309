-- ===== src/Firewall/Rules.antt =====
-- Rules and the lists that hold them: how `submitFirewallRuleModal` of frontend/src/App.tsx puts a
-- rule into a list, and the policies that are shown, `userFirewallEffectiveRules` and the three
-- functions that open them.
pub mod Laws
use openvpn_control_server.Shared.{
  ℕ, suc, ◌+◌, Bool, true, false, List, [], ◌∷◌, ◌++◌, map, Option, none, some, String, append,
  ◌==◌, or_else, trim, join, any, length, if◌then◌else◌,
}

pub record FilterRule : Type 0 where
  pub id : String
  pub action : String
  pub proto : String
  pub destination : String
  pub ports : String
  pub note : String

pub record NatRule : Type 0 where
  pub id : String
  pub type : String
  pub src : String
  pub dst : String
  pub out_interface : String
  pub to_address : String
  pub note : String

module _ {A : Type 0} (id_of : A → String) where
  -- `prev.map((x) => (x.id === nextRule.id ? nextRule : x))`
  unfoldable pub replace_rule : A → List A → List A
  replace_rule r [] = []
  replace_rule r (x ∷ xs) =
      let rest = replace_rule r xs in if id_of x == id_of r then r ∷ rest else x ∷ rest

  -- The updater of a list of rules.
  unfoldable pub put_rule : A → List A → List A
  unfolding replace_rule
  put_rule r prev =
      if any (λ x. id_of x == id_of r) prev then replace_rule r prev else prev ++ r ∷ []

  -- `prev.filter((x) => x.id !== id)`
  unfoldable pub drop_rule : String → List A → List A
  drop_rule i [] = []
  drop_rule i (x ∷ xs) = let rest = drop_rule i xs in if id_of x == i then rest else x ∷ rest

-- A rule of a policy, with where it comes from, its place and the addresses that it is about.
pub record EffectiveRule : Type 0 where
  pub rule : FilterRule
  pub scope : String
  pub order : ℕ
  pub source : String

-- `rules.map((r, idx) => ({ ...r, scope, order: start + idx, source }))`
unfoldable pub in_scope : String → String → ℕ → List FilterRule → List EffectiveRule
in_scope scope source start [] = []
in_scope scope source start (r ∷ rs) =
    record { rule = r; scope = scope; order = start; source = source }
    ∷ in_scope scope source (suc start) rs

-- `userFirewallEffectiveRules`, for the mode, the address of the user, and the two lists.
unfoldable pub user_firewall_effective_rules :
    String → String → List FilterRule → List FilterRule → List EffectiveRule
unfolding in_scope
user_firewall_effective_rules mode source_ip server_rules override_rules =
    if mode == "replace"
    then in_scope "override" source_ip 0 override_rules
    else in_scope "base" "VPN clients" 0 server_rules
      ++ in_scope "override" source_ip (length server_rules) override_rules

-- `userFirewallSourceIp`
unfoldable pub user_firewall_source_ip : String → String
unfolding trim
user_firewall_source_ip ifconfig_push_local =
    or_else (trim ifconfig_push_local) "динамический IP клиента"

-- `${tag} ${r.action} ${r.proto} ${r.destination || "any"} ${r.ports || "*"}`
abbrev pub policy_line : String → FilterRule → String
policy_line tag r = append tag (
    append " " (
      append r.action (
        append " " (
          append r.proto (
            append " "
              (append (or_else r.destination "any") (append " " (or_else r.ports "*"))))))))

abbrev policy_text : String → List String → String
policy_text hint [] = hint
policy_text hint (l ∷ ls) = join "\n" (l ∷ ls)

unfoldable pub server_policy : List FilterRule → String
unfolding join
server_policy rules =
    policy_text
      "# нет персональных правил — действуют только общие правила туннеля и политика по умолчанию"
      (map (policy_line "[base]") rules)

unfoldable pub organization_policy : List FilterRule → String
unfolding join
organization_policy rules = policy_text "# нет правил организации" (map (policy_line "[org]") rules)

abbrev user_line : EffectiveRule → String
user_line r = policy_line (if r.scope == "override" then "[override]" else "[base]") r.rule

unfoldable pub user_policy : String → List EffectiveRule → String
unfolding join
user_policy mode rules =
    policy_text
      (if mode == "replace"
        then "# замена: персональных правил нет — действует только политика по умолчанию туннеля (общие правила сервера не применяются)"
        else "# нет персональных правил — действуют только общие правила туннеля и политика по умолчанию")
      (map user_line rules)
