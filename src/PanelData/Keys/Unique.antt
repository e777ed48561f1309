-- ===== src/PanelData/Keys/Unique.antt =====
-- `uniqueKeys` of frontend/src/panelData.ts against its description as a set of keys.
use openvpn_control_server.Shared.{
  ◌≡◌, refl, ◌↔◌, ◌⊎◌, inl, inr, List, [], ◌∷◌, ◌++◌, ◌∈◌, IsDistinct, in-append_iff, Bool-cases,
  arith, ◌∙◌, append_assoc, append-nil,
}
use openvpn_control_server.PanelData.Keys.{
  PanelDataKey, includes, includes_iff, unique_from, unique_keys, all_panel_data_keys,
  endpoint_keys, overview,
}

IsDistinct-concat :
    (xs : List PanelDataKey) (x : PanelDataKey)
    → IsDistinct xs
    → ¬ (x ∈ xs)
    → IsDistinct (xs ++ x ∷ [])
IsDistinct-concat [] x h n = ((λ m. m), tt)
IsDistinct-concat (y ∷ xs) x h n = (
  λ m. ground (arith, (in-append_iff y xs (x ∷ [])).0 m, h.0, n),
  IsDistinct-concat xs x h.1 (λ m. n (inr m)),
)

unique_from-IsDistinct :
    (seen ks : List PanelDataKey) → IsDistinct seen → IsDistinct (unique_from seen ks)
unfolding unique_from
unique_from-IsDistinct seen [] d = d
unique_from-IsDistinct seen (k ∷ ks) d = elim (Bool-cases (includes k seen)) [
  | inl old ↦ rw old (unique_from-IsDistinct seen ks d)
  | inr new ↦ rw new (
      unique_from-IsDistinct (seen ++ k ∷ []) ks
        (IsDistinct-concat seen k d (λ m. ground (arith, includes_iff k seen))))
]

unique_from-in_iff :
    (j : PanelDataKey) (seen ks : List PanelDataKey)
    → (j ∈ unique_from seen ks) ↔ ((j ∈ seen) ⊎ (j ∈ ks))
unfolding unique_from
unique_from-in_iff j seen [] = (inl, elim [ inl h ↦ h | inr h ↦ absurd h ])
unique_from-in_iff j seen (k ∷ ks) = elim (Bool-cases (includes k seen)) [
  | inl old ↦
      let here : (j ≡ k) → j ∈ seen = λ e. rw e ((includes_iff k seen).0 old) in
      rw old (ground (arith, unique_from-in_iff j seen ks, here))
  | inr new ↦
      rw new
        (ground (arith, unique_from-in_iff j (seen ++ k ∷ []) ks, in-append_iff j seen (k ∷ [])))
]

-- `uniqueKeys` returns every key of its argument, and no other, exactly once.
pub unique_keys-IsDistinct :
    (ks : List PanelDataKey)
    → IsDistinct (unique_keys ks) × ((k : PanelDataKey) → (k ∈ unique_keys ks) ↔ (k ∈ ks))
unfolding unique_keys
unique_keys-IsDistinct ks =
    (unique_from-IsDistinct [] ks tt, λ k. ground (arith, unique_from-in_iff k [] ks))

not-in-prefix :
    (k : PanelDataKey) (seen ks : List PanelDataKey) → IsDistinct (seen ++ k ∷ ks) → ¬ (k ∈ seen)
not-in-prefix k [] ks d m = m
not-in-prefix k (j ∷ seen) ks d (inl e) =
    d.0 (rw (← e) ((in-append_iff k seen (k ∷ ks)).1 (inr (inl refl))))
not-in-prefix k (j ∷ seen) ks d (inr m) = not-in-prefix k seen ks d.1 m

unique_from_distinct :
    (seen ks : List PanelDataKey) → IsDistinct (seen ++ ks) → unique_from seen ks ≡ seen ++ ks
unfolding unique_from
unique_from_distinct seen [] d = rw append-nil
unique_from_distinct seen (k ∷ ks) d = elim (Bool-cases (includes k seen)) [
  | inl old ↦ absurd (not-in-prefix k seen ks d ((includes_iff k seen).0 old))
  | inr new ↦
      rw new (
        unique_from_distinct (seen ++ k ∷ []) ks (rw append_assoc d)
        ∙ append_assoc seen (k ∷ []) ks)
]

-- Keys that are distinct already stay as they are, in their order.
pub unique_keys_distinct : (ks : List PanelDataKey) → IsDistinct ks → unique_keys ks ≡ ks
unfolding unique_keys
unique_keys_distinct ks d = unique_from_distinct [] ks d

-- `ALL_PANEL_DATA_KEYS` holds every key there is, once.
pub all_panel_data_keys_complete :
    IsDistinct all_panel_data_keys × ((k : PanelDataKey) → k ∈ all_panel_data_keys)
unfolding all_panel_data_keys
all_panel_data_keys_complete =
    let u = unique_keys-IsDistinct endpoint_keys in (u.0, λ k. (u.1 k).1 (listed k))
  where
    listed : (k : PanelDataKey) → k ∈ endpoint_keys
    listed overview = ground arith
    listed _ = ground arith
