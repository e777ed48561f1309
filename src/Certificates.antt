-- ===== src/Certificates.antt =====
-- The lists of certificates that the pages and dialogs of frontend/src/App.tsx choose from.
pub mod Laws
pub mod Validity
use openvpn_control_server.Shared.{
  ℕ, Bool, true, false, ◌&&◌, ◌||◌, not, List, [], ◌∷◌, Option, none, some, String, ◌==◌, is_empty,
  or_else, trim, filter, sort, eqb, leb, if◌then◌else◌,
}

-- A property that is not there is the empty text; `root_ca` is the id of the object `rootCa`, and
-- `created_at` the time that `new Date(createdAt || 0).getTime()` gives.
pub record Certificate : Type 0 where
  pub id : String
  pub common_name : String
  pub root_ca_id : String
  pub root_ca : String
  pub vpn_user_id : String
  pub agent_node_id : String
  pub revoked_at : String
  pub has_key_material : Option Bool
  pub cert_pem : String
  pub key_pem : String
  pub created_at : ℕ

-- `String(c.rootCaId || c.rootCa?.id || "").trim()`
abbrev pub root_of : Certificate → String
root_of c = trim (or_else c.root_ca_id c.root_ca)

-- `Boolean(c.hasKeyMaterial ?? (c.certPem && c.keyPem))`
abbrev pub has_key : Certificate → Bool
has_key c = elim c.has_key_material [
  | none ↦ not (is_empty c.cert_pem) && not (is_empty c.key_pem)
  | some b ↦ b
]

abbrev pub is_unlinked : Certificate → Bool
is_unlinked c = is_empty c.vpn_user_id

-- `certs.find((c) => c.id === id)`
unfoldable pub find_certificate : String → List Certificate → Option Certificate
find_certificate i [] = none
find_certificate i (c ∷ cs) = if c.id == i then some c else find_certificate i cs

abbrev or_first : Option Certificate → List Certificate → Option Certificate
or_first (some hit) cs = some hit
or_first none [] = none
or_first none (c ∷ cs) = some c

unfoldable pub server_panel_displayed_server_cert : String → List Certificate → Option Certificate
unfolding find_certificate trim
server_panel_displayed_server_cert panel_server_cert_id certs =
    if is_empty (trim panel_server_cert_id)
    then or_first none certs
    else or_first (find_certificate (trim panel_server_cert_id) certs) certs

-- What the profile of a user asks of a certificate that has no user.
abbrev pub is_bindable : String → Certificate → Bool
is_bindable root c = root_of c == root && is_empty c.revoked_at && has_key c

-- `collate a b` stands for `a.localeCompare(b, undefined, { sensitivity: "base" }) <= 0`.
module _ (collate : String → String → Bool) where
  abbrev pub by_name : Certificate → Certificate → Bool
  by_name a b = collate a.common_name b.common_name

  unfoldable pub selected_server_certificates : String → List Certificate → List Certificate
  unfolding sort
  selected_server_certificates server certificates =
      if is_empty server
      then []
      else sort by_name (filter (λ c. c.agent_node_id == server) certificates)

  -- The certificates that a server may use, for the root CA that its settings name.
  unfoldable pub keys_tab_server_certificates :
      String → String → List Certificate → List Certificate
  unfolding selected_server_certificates trim
  keys_tab_server_certificates server panel_root_ca_id certificates =
      if is_empty server || is_empty (trim panel_root_ca_id)
      then []
      else filter (λ c. is_unlinked c && root_of c == trim panel_root_ca_id)
          (selected_server_certificates server certificates)

  unfoldable pub selected_user_unlinked_certificates : List Certificate → List Certificate
  unfolding sort
  selected_user_unlinked_certificates certificates = sort by_name (filter is_unlinked certificates)

  -- The certificates that a user's profile offers, for the root CA of the chosen server.
  unfoldable pub user_modal_bindable_certificates : String → List Certificate → List Certificate
  unfolding sort selected_user_unlinked_certificates trim
  user_modal_bindable_certificates root certificates =
      if is_empty root
      then []
      else sort by_name
          (filter (is_bindable root) (selected_user_unlinked_certificates certificates))

  -- The certificates that the form of a new user offers.
  unfoldable pub new_user_bindable_certificates : String → List Certificate → List Certificate
  unfolding sort trim
  new_user_bindable_certificates root certificates =
      if is_empty root
      then []
      else sort by_name (
          filter (λ c. root_of c == root && is_empty c.revoked_at && is_unlinked c && has_key c)
            certificates)

  -- The newest first, and those of one time by name.
  abbrev pub by_created_then_name : Certificate → Certificate → Bool
  by_created_then_name a b =
      if eqb a.created_at b.created_at then by_name a b else leb b.created_at a.created_at

  unfoldable pub selected_user_certificates : String → List Certificate → List Certificate
  unfolding sort
  selected_user_certificates user certificates =
      if is_empty user
      then []
      else sort by_created_then_name (filter (λ c. c.vpn_user_id == user) certificates)
