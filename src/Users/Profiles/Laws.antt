-- ===== src/Users/Profiles/Laws.antt =====
-- The names on certificates, and the search among the users.
use openvpn_control_server.Shared.{
  true, ◌↔◌, ◌∈◌, ◌≡◌, refl, ap, ◌∙◌, ℕ, ◌+◌, Bool, ◌&&◌, List, [], ◌∷◌, map, Option, none, some,
  String, ◌==◌, eq_iff, is_empty, trim, filter, length, IsPreorder, IsSorted, sort-IsSorted,
  sort_sorted, IsSorted-filter, arith, Bool-cases, inl, inr, if◌then◌else◌,
}
use openvpn_control_server.Certificates.{Certificate}
use openvpn_control_server.Users.Profiles.{
  VpnUser, Client, Profile, has, EnrichedUser, map_set, map_get, is_named, profile_of,
  profiles_from, cn_profile_map, cert_cns, is_session_of, count_sessions, enriched, by_full_name,
  vpn_users_enriched, hay, filtered_vpn_users_enriched,
}

pub has_iff : (k : String) (ks : List String) → (has k ks ≡ true) ↔ (k ∈ ks)
has_iff k [] = (λ h. ground arith, λ h. absurd h)
has_iff k (j ∷ js) = ground (arith, has_iff k js, eq_iff j k)

map_get-map_set :
    (k i : String) (v : Profile) (m : List (String × Profile))
    → map_get i (map_set k v m) ≡ (if k == i then some v else map_get i m)
unfolding map_get map_set
map_get-map_set k i v [] = ground arith
map_get-map_set k i v (e ∷ es) =
    ground (arith, map_get-map_set k i v es, eq_iff e.0 k, eq_iff k i, eq_iff e.0 i)

-- The profile of the last certificate that has a name and belongs to a user.
unfoldable pub last_profile :
    List VpnUser → String → List Certificate → Option Profile → Option Profile
last_profile us i [] found = found
last_profile us i (c ∷ cs) found =
    last_profile us i cs
      (if is_named c && c.common_name == i then some (profile_of us c) else found)

profiles_from-get :
    (us : List VpnUser) (i : String) (m : List (String × Profile)) (cs : List Certificate)
    → map_get i (profiles_from us m cs) ≡ last_profile us i cs (map_get i m)
unfolding profiles_from last_profile
profiles_from-get us i m [] = refl
profiles_from-get us i m (c ∷ cs) = elim (Bool-cases (is_named c)) [
  | inl e ↦ rw e (
      profiles_from-get us i (map_set c.common_name (profile_of us c) m) cs
      ∙ ap (last_profile us i cs) (map_get-map_set c.common_name i (profile_of us c) m))
  | inr e ↦ rw e (profiles_from-get us i m cs)
]

-- The table of names gives for a name the user of the last certificate that has that name and a
-- user, and nothing where there is none.
pub map_get-cn_profile_map :
    (us : List VpnUser) (i : String) (cs : List Certificate)
    → map_get i (cn_profile_map us cs) ≡ last_profile us i cs none
unfolding map_get
map_get-cn_profile_map us i cs = profiles_from-get us i [] cs

-- The sum of what the clients that pass a test have.
unfoldable pub sum_of : (Client → Bool) → (Client → ℕ) → List Client → ℕ
sum_of p f [] = 0
sum_of p f (c ∷ cs) = (if p c then f c else 0) + sum_of p f cs

abbrev with_counts : ℕ → ℕ → ℕ → EnrichedUser → EnrichedUser
with_counts n i o e = record e { active_sessions = n; total_in_bps = i; total_out_bps = o }

with_counts_cong :
    {n m i j o p : ℕ} (e : EnrichedUser)
    → n ≡ m
    → i ≡ j
    → o ≡ p
    → with_counts n i o e ≡ with_counts m j p e
with_counts_cong e a b c = rw (a, b, c) refl

module _ (to_lower : String → String) where
  abbrev pub sum : List String → (Client → ℕ) → List Client → ℕ
  sum cns f clients = sum_of (is_session_of to_lower cns) f clients

  count_sessions-sum :
      (cns : List String) (clients : List Client) (e : EnrichedUser)
      → count_sessions to_lower cns clients e
        ≡ with_counts
            (e.active_sessions + sum cns (λ c. 1) clients)
            (e.total_in_bps + sum cns (λ c. c.in_bps) clients)
            (e.total_out_bps + sum cns (λ c. c.out_bps) clients)
            e
  unfolding count_sessions sum_of
  count_sessions-sum cns [] e = with_counts_cong e (omega arith) (omega arith) (omega arith)
  count_sessions-sum cns (c ∷ cs) e = elim (Bool-cases (is_session_of to_lower cns c)) [
    | inl h ↦ rw h (
        count_sessions-sum cns cs (
          with_counts (e.active_sessions + 1) (e.total_in_bps + c.in_bps)
            (e.total_out_bps + c.out_bps) e)
        ∙ with_counts_cong e (omega arith) (omega arith) (omega arith))
    | inr h ↦
        rw h (
          count_sessions-sum cns cs e
          ∙ with_counts_cong e (omega arith) (omega arith) (omega arith))
  ]

  -- What a user is listed with are the number and the sums of the rates of the clients whose name
  -- is on one of the user's certificates, and the number of those certificates.
  pub enriched-sum :
      (clients : List Client) (certificates : List Certificate) (u : VpnUser)
      → enriched to_lower clients certificates u ≡ record {
        user = u;
        active_sessions = sum (cert_cns to_lower u.id certificates) (λ c. 1) clients;
        total_in_bps = sum (cert_cns to_lower u.id certificates) (λ c. c.in_bps) clients;
        total_out_bps = sum (cert_cns to_lower u.id certificates) (λ c. c.out_bps) clients;
        linked_cert_count = length (filter (λ c. c.vpn_user_id == u.id) certificates);
      }
  unfolding enriched
  enriched-sum clients certificates u =
      let blank : EnrichedUser = record {
        user = u;
        active_sessions = 0;
        total_in_bps = 0;
        total_out_bps = 0;
        linked_cert_count = length (filter (λ c. c.vpn_user_id == u.id) certificates);
      } in
      count_sessions-sum (cert_cns to_lower u.id certificates) clients blank
      ∙ with_counts_cong blank (omega arith) (omega arith) (omega arith)

-- The search of the list of users keeps it in its order, so that sorting it again is not needed.
module _ (to_lower : String → String) (collate : String → String → Bool)
    (order : IsPreorder collate) where
  by_full_name-IsPreorder : IsPreorder (by_full_name collate)
  by_full_name-IsPreorder = record {
    total = λ a b h. order.total a.user.full_name b.user.full_name h;
    trans = λ a b c h k. order.trans a.user.full_name b.user.full_name c.user.full_name h k;
  }

  vpn_users_enriched-IsSorted :
      (vpn_users : List VpnUser) (clients : List Client) (certificates : List Certificate)
      → IsSorted
          (by_full_name collate)
          (vpn_users_enriched to_lower collate vpn_users clients certificates)
  unfolding vpn_users_enriched
  vpn_users_enriched-IsSorted vpn_users clients certificates =
      sort-IsSorted (by_full_name collate) by_full_name-IsPreorder
        (map (enriched to_lower clients certificates) vpn_users)

  -- The users that a search shows are those of the whole list that it finds, in its order, where
  -- the order of names is total and transitive.
  pub filtered_vpn_users_enriched_lem :
      (includes : String → String → Bool) (q : String) (vpn_users : List VpnUser)
      (clients : List Client) (certificates : List Certificate)
      → filtered_vpn_users_enriched to_lower collate includes q
          (vpn_users_enriched to_lower collate vpn_users clients certificates)
        ≡ (if is_empty (to_lower (trim q))
            then vpn_users_enriched to_lower collate vpn_users clients certificates
            else filter
                (λ e. includes (hay to_lower e) (to_lower (trim q)))
                (vpn_users_enriched to_lower collate vpn_users clients certificates))
  unfolding filtered_vpn_users_enriched
  filtered_vpn_users_enriched_lem includes q vpn_users clients certificates =
      let users = vpn_users_enriched to_lower collate vpn_users clients certificates in
      let sorted = vpn_users_enriched-IsSorted vpn_users clients certificates in
      elim (Bool-cases (is_empty (to_lower (trim q)))) [
        | inl e ↦ rw e (sort_sorted (by_full_name collate) users sorted)
        | inr e ↦ rw e (
            sort_sorted (by_full_name collate)
              (filter (λ e. includes (hay to_lower e) (to_lower (trim q))) users)
              (IsSorted-filter (by_full_name collate)
                (λ e. includes (hay to_lower e) (to_lower (trim q))) users sorted))
      ]
