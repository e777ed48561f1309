-- ===== src/Firewall/Saved.antt =====
-- The rules on the server: `loadServerFirewall`, `applyServerFirewall`, `applyUserFirewall` and
-- `applyOrganizationFirewall` of frontend/src/App.tsx. Each runs in two parts, up to its request and
-- after it. The answer of the server is an argument.
pub mod Laws
use openvpn_control_server.Shared.{
  Bool, true, false, ◌||◌, List, [], Option, none, some, String, is_empty, or_else, if◌then◌else◌,
}
use openvpn_control_server.Firewall.Rules.{FilterRule, NatRule}
use openvpn_control_server.Firewall.Stored.{Policy, list_or, mode_of}

pub record ServerPolicy : Type 0 where
  pub default_policy : String
  pub rules : List FilterRule
  pub nat_rules : List NatRule

-- The states of the application that the four functions write.
pub record FirewallPage : Type 0 where
  pub server_policy : ServerPolicy
  pub server_loading : Bool
  pub server_busy : Bool
  pub user_policy : Policy
  pub user_busy : Bool
  pub organization_policy : Policy
  pub organization_busy : Bool
  pub error : String

-- What an answer holds of a policy: a text that is not there is empty, a list that is no array is
-- none.
pub record PolicyAnswer : Type 0 where
  pub policy : String
  pub rules : Option (List FilterRule)
  pub nat_rules : Option (List NatRule)

pub data Reply : Type 0 where
  answered : (answer : PolicyAnswer) → Reply
  failed : (message : String) → Reply

-- A request with the id of what it is about and what it sends.
pub record Sent (P : Type 0) : Type 0 where
  pub id : String
  pub policy : P

unfoldable pub begin_load_server : String → String → FirewallPage → FirewallPage × Option String
begin_load_server server token s =
    if is_empty server || is_empty token
    then (s, none)
    else (record s { server_loading = true }, some server)

unfoldable pub settle_load_server : Reply → FirewallPage → FirewallPage
settle_load_server (answered a) s = record s {
  server_policy = record {
    default_policy = or_else a.policy "deny";
    rules = list_or a.rules [];
    nat_rules = list_or a.nat_rules [];
  };
  server_loading = false;
}
settle_load_server (failed message) s = record s {
  error = or_else message "Не удалось загрузить firewall";
  server_loading = false;
}

unfoldable pub begin_apply_server :
    String → String → FirewallPage → FirewallPage × Option (Sent ServerPolicy)
begin_apply_server server token s =
    if is_empty server || is_empty token
    then (s, none)
    else (record s { server_busy = true }, some (record { id = server; policy = s.server_policy }))

-- What the answer does not hold is as it was when the request was sent.
unfoldable pub settle_apply_server : Sent ServerPolicy → Reply → FirewallPage → FirewallPage
settle_apply_server sent (answered a) s = record s {
  server_policy = record {
    default_policy = or_else a.policy sent.policy.default_policy;
    rules = list_or a.rules sent.policy.rules;
    nat_rules = list_or a.nat_rules sent.policy.nat_rules;
  };
  server_busy = false;
}
settle_apply_server sent (failed message) s = record s {
  error = or_else message "Не удалось применить firewall";
  server_busy = false;
}

unfoldable pub begin_apply_user :
    String → String → FirewallPage → FirewallPage × Option (Sent Policy)
begin_apply_user user token s =
    if is_empty user || is_empty token
    then (s, none)
    else (record s { user_busy = true }, some (record { id = user; policy = s.user_policy }))

-- The mode stays as it is.
unfoldable pub settle_apply_user : Reply → FirewallPage → FirewallPage
settle_apply_user (answered a) s = record s {
  user_policy = record (s.user_policy) {
    rules = list_or a.rules [];
    nat_rules = list_or a.nat_rules [];
  };
  user_busy = false;
}
settle_apply_user (failed message) s = record s {
  error = or_else message "Не удалось сохранить правила пользователя";
  user_busy = false;
}

unfoldable pub begin_apply_organization :
    String → String → FirewallPage → FirewallPage × Option (Sent Policy)
begin_apply_organization organization token s =
    if is_empty organization || is_empty token then (s, none) else (
      record s { organization_busy = true },
      some (record { id = organization; policy = s.organization_policy }),
    )

module _ (to_lower : String → String) where
  unfoldable pub settle_apply_organization : Reply → FirewallPage → FirewallPage
  settle_apply_organization (answered a) s = record s {
    organization_policy = record {
      mode = mode_of to_lower (or_else a.policy "merge");
      rules = list_or a.rules [];
      nat_rules = list_or a.nat_rules [];
    };
    organization_busy = false;
  }
  settle_apply_organization (failed message) s = record s {
    error = or_else message "Не удалось сохранить правила организации";
    organization_busy = false;
  }

-- The four functions from end to end, where nothing happens while the server answers.
unfoldable pub load_server_firewall :
    (String → Reply) → String → String → FirewallPage → FirewallPage
unfolding begin_load_server settle_load_server
load_server_firewall serve server token s = elim (begin_load_server server token s).1 [
  | none ↦ s
  | some id ↦ settle_load_server (serve id) (begin_load_server server token s).0
]

unfoldable pub apply_server_firewall :
    (Sent ServerPolicy → Reply) → String → String → FirewallPage → FirewallPage
unfolding begin_apply_server settle_apply_server
apply_server_firewall serve server token s = elim (begin_apply_server server token s).1 [
  | none ↦ s
  | some sent ↦ settle_apply_server sent (serve sent) (begin_apply_server server token s).0
]

unfoldable pub apply_user_firewall :
    (Sent Policy → Reply) → String → String → FirewallPage → FirewallPage
unfolding begin_apply_user settle_apply_user
apply_user_firewall serve user token s = elim (begin_apply_user user token s).1 [
  | none ↦ s
  | some sent ↦ settle_apply_user (serve sent) (begin_apply_user user token s).0
]

unfoldable pub apply_organization_firewall :
    (String → String) → (Sent Policy → Reply) → String → String → FirewallPage → FirewallPage
unfolding begin_apply_organization settle_apply_organization
apply_organization_firewall to_lower serve organization token s =
    elim (begin_apply_organization organization token s).1 [
      | none ↦ s
      | some sent ↦
          settle_apply_organization to_lower (serve sent)
            (begin_apply_organization organization token s).0
    ]
