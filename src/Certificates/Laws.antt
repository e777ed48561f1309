-- ===== src/Certificates/Laws.antt =====
-- Which certificates are offered, and in which order.
use openvpn_control_server.Shared.{
  ◌≡◌, ◌≢◌, refl, ◌∙◌, ◌↔◌, ap, Bool, true, ◌&&◌, List, String, ◌==◌, eq_iff, is_empty,
  is_empty_iff, filter, sort, IsPreorder, IsSorted, IsSorted-weaken, sort-IsSorted, sort_sorted,
  filter-sort, in-filter_iff, in-sort_iff, filter-filter, filter_cong, ◌∈◌, leb, arith, Bool-cases,
  inl, inr,
}
use openvpn_control_server.Certificates.{
  Certificate, root_of, has_key, is_unlinked, by_name, by_created_then_name, is_bindable,
  selected_user_unlinked_certificates, user_modal_bindable_certificates,
  new_user_bindable_certificates, selected_user_certificates,
}

-- The order of names, which the browser documents as total and transitive.
abbrev pub IsCollation : (String → String → Bool) → Type 0
IsCollation collate = IsPreorder collate

module _ (collate : String → String → Bool) (order : IsCollation collate) where
  by_name-IsPreorder : IsPreorder (by_name collate)
  by_name-IsPreorder = record {
    total = λ a b h. order.total a.common_name b.common_name h;
    trans = λ a b c h k. order.trans a.common_name b.common_name c.common_name h k;
  }

  bindable-sort :
      (root : String) (certificates : List Certificate)
      → sort
          (by_name collate)
          (filter (is_bindable root) (sort (by_name collate) (filter is_unlinked certificates)))
        ≡ sort (by_name collate) (
            filter
              (λ c. root_of c == root && is_empty c.revoked_at && is_unlinked c && has_key c)
              certificates)
  bindable-sort root certificates =
      let by = by_name collate in
      let chosen : List Certificate = filter (is_bindable root) (filter is_unlinked certificates) in
      ap (sort by)
        (filter-sort by by_name-IsPreorder (is_bindable root) (filter is_unlinked certificates))
      ∙ sort_sorted by (sort by chosen) (sort-IsSorted by by_name-IsPreorder chosen)
      ∙ ap (sort by) (
          filter-filter (is_bindable root) is_unlinked certificates
          ∙ filter_cong (λ c. is_unlinked c && is_bindable root c)
              (λ c. root_of c == root && is_empty c.revoked_at && is_unlinked c && has_key c)
              certificates (λ c. ground arith))

  user_modal-new_user :
      (root : String) (certificates : List Certificate)
      → user_modal_bindable_certificates collate root certificates
        ≡ new_user_bindable_certificates collate root certificates
  unfolding user_modal_bindable_certificates new_user_bindable_certificates
      selected_user_unlinked_certificates
  user_modal-new_user root certificates = elim (Bool-cases (is_empty root)) [
    | inl e ↦ rw e refl
    | inr e ↦ rw e (bindable-sort root certificates)
  ]

module _ (collate : String → String → Bool) where
  in-new_user_bindable_certificates_iff :
      (root : String) (certificates : List Certificate) (c : Certificate)
      → (c ∈ new_user_bindable_certificates collate root certificates) ↔ (
          (c ∈ certificates)
          × (root ≢ "")
          × (root_of c ≡ root)
          × (c.revoked_at ≡ "")
          × (c.vpn_user_id ≡ "")
          × (has_key c ≡ true))
  unfolding new_user_bindable_certificates
  in-new_user_bindable_certificates_iff root certificates c = elim (Bool-cases (is_empty root)) [
    | inl e ↦ rw e (λ h. absurd h, λ h. h.1 ((is_empty_iff root).0 e))
    | inr e ↦
        let p : Certificate → Bool =
          λ x. root_of x == root && is_empty x.revoked_at && is_unlinked x && has_key x in
        rw e (
          ground (
            arith,
            in-sort_iff (by_name collate) c (filter p certificates),
            in-filter_iff p c certificates,
            is_empty_iff root,
            eq_iff (root_of c) root,
            is_empty_iff c.revoked_at,
            is_empty_iff c.vpn_user_id,
          ))
  ]

module _ (collate : String → String → Bool) (order : IsCollation collate) where
  by_created_then_name-IsPreorder : IsPreorder (by_created_then_name collate)
  by_created_then_name-IsPreorder = record {
    total = λ a b h. ground (arith, order.total a.common_name b.common_name);
    trans = λ a b c h k. ground (arith, order.trans a.common_name b.common_name c.common_name);
  }

  -- A user's own certificates are shown newest first.
  pub selected_user_certificates-IsSorted :
      (user : String) (certificates : List Certificate)
      → IsSorted
          (λ a b. leb b.created_at a.created_at)
          (selected_user_certificates collate user certificates)
  unfolding selected_user_certificates
  selected_user_certificates-IsSorted user certificates = elim (Bool-cases (is_empty user)) [
    | inl e ↦ rw e tt
    | inr e ↦
        let own : List Certificate = filter (λ c. c.vpn_user_id == user) certificates in
        let by = by_created_then_name collate in
        rw e (
          IsSorted-weaken by (λ a b. leb b.created_at a.created_at) (λ a b h. ground arith)
            (sort by own) (sort-IsSorted by by_created_then_name-IsPreorder own))
  ]

  -- The two dialogs that bind a certificate offer the same list for the same root CA, although
  -- they filter and sort in different ways: the certificates of that root that have no user and a
  -- key and are not revoked, and no other, where the order of names is total and transitive.
  pub user_modal_bindable_certificates_lem :
      (root : String) (certificates : List Certificate) (c : Certificate)
      → (user_modal_bindable_certificates collate root certificates
          ≡ new_user_bindable_certificates collate root certificates)
        × ((c ∈ user_modal_bindable_certificates collate root certificates) ↔ (
            (c ∈ certificates)
            × (root ≢ "")
            × (root_of c ≡ root)
            × (c.revoked_at ≡ "")
            × (c.vpn_user_id ≡ "")
            × (has_key c ≡ true)))
  user_modal_bindable_certificates_lem root certificates c =
      let same = user_modal-new_user collate order root certificates in
      (same, rw same (in-new_user_bindable_certificates_iff collate root certificates c))
