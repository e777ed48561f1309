-- ===== src/Firewall/Saved/Laws.antt =====
-- What the editors hold once a request has been answered.
use openvpn_control_server.Shared.{
  ◌≡◌, ◌≢◌, refl, some, String, Bool-cases, is_empty, or_else_first, apart, ◌⊎◌, inl, inr, ◌||◌,
}
use openvpn_control_server.Firewall.Stored.{Policy, mode_of}
use openvpn_control_server.Firewall.Saved.{
  ServerPolicy, FirewallPage, Reply, answered, begin_load_server, settle_load_server,
  begin_apply_server, settle_apply_server, begin_apply_user, settle_apply_user,
  begin_apply_organization, settle_apply_organization, load_server_firewall, apply_server_firewall,
  apply_user_firewall, apply_organization_firewall,
}

-- The answer that holds a policy of a server.
abbrev pub server_answer : ServerPolicy → Reply
server_answer p =
    answered
      (record { policy = p.default_policy; rules = some p.rules; nat_rules = some p.nat_rules })

abbrev pub answer_of : Policy → Reply
answer_of p =
    answered (record { policy = p.mode; rules = some p.rules; nat_rules = some p.nat_rules })

-- The three policies.
abbrev pub policies : FirewallPage → ServerPolicy × Policy × Policy
policies s = (s.server_policy, s.user_policy, s.organization_policy)

-- The two modes that the panel knows, with what `toLowerCase` makes of them.
abbrev pub IsMode : (String → String) → String → Type 0
IsMode to_lower mode = (to_lower mode ≡ mode) × ((mode ≡ "merge") ⊎ (mode ≡ "replace"))

mode_of-IsMode :
    (to_lower : String → String) (mode : String)
    → IsMode to_lower mode
    → mode_of to_lower mode ≡ mode
mode_of-IsMode to_lower mode (e, inl m) = rw (e, m) refl
mode_of-IsMode to_lower mode (e, inr m) = rw (e, m) refl

IsMode-full : (to_lower : String → String) (mode : String) → IsMode to_lower mode → mode ≢ ""
IsMode-full to_lower mode (e, inl m) = rw m (apart "merge" "" refl)
IsMode-full to_lower mode (e, inr m) = rw m (apart "replace" "" refl)

-- Policies that the server answers with as they were sent, and the policy of a server that is
-- loaded as it is, stay as they are in the editors, where the server has a default policy and the
-- mode of the organization is one of the two, in lower case already.
pub apply-echo :
    (to_lower : String → String) (id token : String) (s : FirewallPage)
    → s.server_policy.default_policy ≢ ""
    → IsMode to_lower s.organization_policy.mode
    → (policies (apply_server_firewall (λ sent. server_answer sent.policy) id token s) ≡ policies s)
      × (policies (load_server_firewall (λ i. server_answer s.server_policy) id token s)
          ≡ policies s)
      × (policies (apply_user_firewall (λ sent. answer_of sent.policy) id token s) ≡ policies s)
      × (policies (apply_organization_firewall to_lower (λ sent. answer_of sent.policy) id token s)
          ≡ policies s)
unfolding load_server_firewall apply_server_firewall apply_user_firewall apply_organization_firewall
apply-echo to_lower id token s n m = elim (Bool-cases (is_empty id || is_empty token)) [
  | inl e ↦ (
    rw (apply_server_firewall, begin_apply_server, e) refl,
    rw (load_server_firewall, begin_load_server, e) refl,
    rw (apply_user_firewall, begin_apply_user, e) refl,
    rw (apply_organization_firewall, begin_apply_organization, e) refl,
  )
  | inr e ↦ (
    rw
        (
          apply_server_firewall,
          begin_apply_server,
          e,
          settle_apply_server,
          begin_apply_server,
          e,
          or_else_first s.server_policy.default_policy s.server_policy.default_policy n,
        )
        refl,
    rw
        (
          load_server_firewall,
          begin_load_server,
          e,
          settle_load_server,
          begin_load_server,
          e,
          or_else_first s.server_policy.default_policy "deny" n,
        )
        refl,
    rw (apply_user_firewall, begin_apply_user, e, settle_apply_user, begin_apply_user, e) refl,
    rw
        (
          apply_organization_firewall,
          begin_apply_organization,
          e,
          settle_apply_organization,
          begin_apply_organization,
          e,
          or_else_first s.organization_policy.mode "merge"
              (IsMode-full to_lower s.organization_policy.mode m),
          mode_of-IsMode to_lower s.organization_policy.mode m,
        )
        refl,
  )
]
