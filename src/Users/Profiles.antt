-- ===== src/Users/Profiles.antt =====
-- The users with their sessions and the names on their certificates: `registeredCnSet`,
-- `cnProfileMap`, `vpnUsersEnriched` and `filteredVpnUsersEnriched` of frontend/src/App.tsx.
pub mod Laws
use openvpn_control_server.Shared.{
  ℕ, suc, ◌+◌, Bool, true, false, ◌&&◌, ◌||◌, not, List, [], ◌∷◌, ◌++◌, map, Option, none, some,
  String, ◌==◌, is_empty, trim, filter, any, sort, length, join, nonempty_only, if◌then◌else◌,
}
use openvpn_control_server.Certificates.{Certificate}

-- A property that is not there is the empty text.
pub record VpnUser : Type 0 where
  pub id : String
  pub full_name : String
  pub position : String
  pub email : String
  pub phone : String
  pub organization_name : String

pub record Client : Type 0 where
  pub id : String
  pub node_id : String
  pub node_name : String
  pub common_name : String
  pub remote_ip : String
  pub virtual_ip : String
  pub connected_at : String
  pub connected_since : String
  pub in_bps : ℕ
  pub out_bps : ℕ

-- `xs.includes(x)`, and `has` of the set of `xs`.
abbrev pub has : String → List String → Bool
has x xs = any (λ y. y == x) xs

-- The items of `new Set(xs)`, and what `add` does to them.
abbrev pub add : String → List String → List String
add x xs = if has x xs then xs else xs ++ x ∷ []

abbrev add_registered : Certificate → List String → List String
add_registered c s =
    if not (is_empty c.vpn_user_id) && not (is_empty c.common_name) then add c.common_name s else s

unfoldable pub registered_from : List String → List Certificate → List String
registered_from s [] = s
registered_from s (c ∷ cs) = registered_from (add_registered c s) cs

abbrev pub registered_cn_set : List Certificate → List String
registered_cn_set certificates = registered_from [] certificates

pub record Profile : Type 0 where
  pub user_id : String
  pub full_name : String

-- A `Map`: its entries in their order, and `set` and `get`.
unfoldable pub map_set : String → Profile → List (String × Profile) → List (String × Profile)
map_set k v [] = (k, v) ∷ []
map_set k v (e ∷ es) = let rest = map_set k v es in if e.0 == k then (k, v) ∷ es else e ∷ rest

unfoldable pub map_get : String → List (String × Profile) → Option Profile
map_get k [] = none
map_get k (e ∷ es) = if e.0 == k then some e.1 else map_get k es

-- `vpnUsers.find((u) => u.id === id)?.fullName || ""`
unfoldable pub full_name_of : String → List VpnUser → String
full_name_of i [] = ""
full_name_of i (u ∷ us) = if u.id == i then u.full_name else full_name_of i us

abbrev pub is_named : Certificate → Bool
is_named c = not (is_empty c.common_name) && not (is_empty c.vpn_user_id)

abbrev pub profile_of : List VpnUser → Certificate → Profile
profile_of vpn_users c = record {
  user_id = c.vpn_user_id;
  full_name = full_name_of c.vpn_user_id vpn_users;
}

abbrev put_profile : List VpnUser → Certificate → List (String × Profile) → List (String × Profile)
put_profile vpn_users c m =
    if is_named c then map_set c.common_name (profile_of vpn_users c) m else m

unfoldable pub profiles_from :
    List VpnUser → List (String × Profile) → List Certificate → List (String × Profile)
unfolding map_set full_name_of
profiles_from vpn_users m [] = m
profiles_from vpn_users m (c ∷ cs) = profiles_from vpn_users (put_profile vpn_users c m) cs

abbrev pub cn_profile_map : List VpnUser → List Certificate → List (String × Profile)
cn_profile_map vpn_users certificates = profiles_from vpn_users [] certificates

pub record EnrichedUser : Type 0 where
  pub user : VpnUser
  pub active_sessions : ℕ
  pub total_in_bps : ℕ
  pub total_out_bps : ℕ
  pub linked_cert_count : ℕ

module _ (to_lower : String → String) where
  -- The names on the certificates of a user, as they are compared.
  unfoldable pub cert_cns : String → List Certificate → List String
  unfolding trim
  cert_cns user certificates =
      map (λ (c : Certificate). to_lower (trim c.common_name))
        (filter (λ c. c.vpn_user_id == user && not (is_empty (trim c.common_name))) certificates)

  unfoldable pub is_session_of : List String → Client → Bool
  unfolding trim
  is_session_of cns client =
      let cn = to_lower (trim client.common_name) in not (is_empty cn) && has cn cns

  abbrev add_session : Client → EnrichedUser → EnrichedUser
  add_session client e = record e {
    active_sessions = e.active_sessions + 1;
    total_in_bps = e.total_in_bps + client.in_bps;
    total_out_bps = e.total_out_bps + client.out_bps;
  }

  -- The loop over the connected clients.
  unfoldable pub count_sessions : List String → List Client → EnrichedUser → EnrichedUser
  unfolding is_session_of
  count_sessions cns [] e = e
  count_sessions cns (client ∷ clients) e =
      count_sessions cns clients (if is_session_of cns client then add_session client e else e)

  unfoldable pub enriched : List Client → List Certificate → VpnUser → EnrichedUser
  unfolding cert_cns count_sessions
  enriched clients certificates u = count_sessions (cert_cns u.id certificates) clients (record {
    user = u;
    active_sessions = 0;
    total_in_bps = 0;
    total_out_bps = 0;
    linked_cert_count = length (filter (λ c. c.vpn_user_id == u.id) certificates);
  })

  -- The text of a user that a search looks at.
  abbrev pub hay : EnrichedUser → String
  hay e = to_lower (
      join " " (
        nonempty_only (
          e.user.full_name ∷ e.user.position ∷ e.user.email ∷ e.user.phone
          ∷ e.user.organization_name ∷ [])))

-- `collate a b` is `a.localeCompare(b, "ru", { sensitivity: "base" }) <= 0`.
abbrev pub by_full_name : (String → String → Bool) → EnrichedUser → EnrichedUser → Bool
by_full_name collate a b = collate a.user.full_name b.user.full_name

module _ (to_lower : String → String) (collate : String → String → Bool) where
  unfoldable pub vpn_users_enriched :
      List VpnUser → List Client → List Certificate → List EnrichedUser
  unfolding enriched sort
  vpn_users_enriched vpn_users clients certificates =
      sort (by_full_name collate) (map (enriched to_lower clients certificates) vpn_users)

  -- `includes s t` is `s.includes(t)`.
  unfoldable pub filtered_vpn_users_enriched :
      (String → String → Bool) → String → List EnrichedUser → List EnrichedUser
  unfolding sort trim
  filtered_vpn_users_enriched includes user_list_filter users =
      let q = to_lower (trim user_list_filter) in
      sort (by_full_name collate)
        (if is_empty q then users else filter (λ e. includes (hay to_lower e) q) users)
