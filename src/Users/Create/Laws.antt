-- ===== src/Users/Create/Laws.antt =====
-- Which requests the form of a new user makes.
use openvpn_control_server.Shared.{
  ◌≡◌, refl, ◌↔◌, ℕ, ◌+◌, ◌*◌, apart, ◌≤◌, max, Bool, true, false, ◌&&◌, not, List, Option, none,
  some, String, ◌==◌, eq_iff, is_empty, is_empty_iff, trim, ◌∈◌, arith, inl, if◌then◌else◌,
}
use openvpn_control_server.Certificates.{Certificate}
use openvpn_control_server.Certificates.Validity.{day_ms}
use openvpn_control_server.Users.Create.{
  NewUser, CertForm, CreateRequest, create_user, bind_certificate, issue_certificate, Reply,
  created, finished, user_body, validity_days_of, selected_cert, new_cn_of, to_create, sending,
  without_selected, after_created, create_vpn_user,
}

-- The days lie between one and the limit.
pub validity_days_of_bounds :
    (max_days : ℕ) (days_raw : Option ℕ)
    → (1 ≤ validity_days_of max_days days_raw)
      × (validity_days_of max_days days_raw ≤ max 1 max_days)
unfolding validity_days_of
validity_days_of_bounds max_days none = ground arith
validity_days_of_bounds max_days (some n) = ground arith

-- The part of the form about a certificate asks for something, and is not complete: a chosen
-- certificate is not in the list, a new one has no name, or there is no server.
unfoldable pub is_incomplete : Option Certificate → CertForm → Bool
unfolding trim new_cn_of
is_incomplete (some c) form = is_empty (trim form.server_id)
is_incomplete none form =
    if is_empty (new_cn_of form)
    then not (is_empty (trim form.choice))
    else is_empty (trim form.server_id)

module _ (serve : CreateRequest → Reply) (now max_days : ℕ) (id_of : CreateRequest → String) where
  sending-finished :
      (user : String) (r : CreateRequest)
      → serve r ≡ created (id_of r)
      → (sending serve now max_days user r).1 ≡ finished user
  sending-finished user r h = rw h refl

  after_created-finished_iff :
      (sel : Option Certificate) (form : CertForm) (user : String)
      → ((r : CreateRequest) → serve r ≡ created (id_of r))
      → ((after_created serve now max_days sel form user).1 ≡ finished user)
        ↔ (is_incomplete sel form ≡ false)
  unfolding after_created without_selected is_incomplete new_cn_of
  after_created-finished_iff (some c) form user h = ground (
    arith,
    sending-finished user (bind_certificate c.id user (trim form.server_id))
        (h (bind_certificate c.id user (trim form.server_id))),
  )
  after_created-finished_iff none form user h =
      let r : CreateRequest =
        issue_certificate user (new_cn_of form) (trim form.root_ca_id) (trim form.server_id)
          (now + validity_days_of max_days form.validity_days * day_ms) in
      let sent : (sending serve now max_days user r).1 ≡ finished user =
        sending-finished user r (h r) in
      let chosen : is_empty (trim form.choice) ≡ true → (trim form.choice == to_create) ≡ false =
        λ e. ground (
          arith,
          is_empty_iff (trim form.choice),
          eq_iff (trim form.choice) to_create,
          apart to_create "" refl,
        ) in
      ground (arith, sent, chosen)

  -- Where the server accepts every request and a new certificate, if one is named, has a root CA,
  -- the form of a new user creates the user in any case, and ends well exactly if its part about
  -- a certificate asks for nothing or is complete.
  pub create_vpn_user-finished_iff :
      (bindable : List Certificate) (user : NewUser) (form : CertForm)
      → ((r : CreateRequest) → serve r ≡ created (id_of r))
      → not (is_empty (new_cn_of form)) && is_empty (trim form.root_ca_id) ≡ false
      → (create_user (user_body user) ∈ (create_vpn_user serve now max_days bindable user form).0)
        × (((create_vpn_user serve now max_days bindable user form).1
              ≡ finished (id_of (create_user (user_body user))))
            ↔ (is_incomplete (selected_cert bindable form) form ≡ false))
  unfolding create_vpn_user
  create_vpn_user-finished_iff bindable user form h k =
      rw (k, h (create_user (user_body user)))
        (
          inl refl,
          after_created-finished_iff (selected_cert bindable form) form
              (id_of (create_user (user_body user))) h,
        )
