-- ===== src/Shared/Select.antt =====
-- What a filtered and a sorted list hold.
use mathlib.Core.Path.{◌≡◌, refl, sym, ap}
use mathlib.Core.Logic.{◌⊎◌, ◌↔◌, inl, inr}
use mathlib.Core.Bool.{Bool, true, ◌&&◌}
use mathlib.Core.List.{List, [], ◌∷◌, ◌++◌}
use native.Mathlib.Omega.{arith}
use openvpn_control_server.Shared.Tests.{Bool-cases}
use openvpn_control_server.Shared.Lists.{◌∈◌, IsDistinct, in-append_iff}
use openvpn_control_server.Shared.Sort.{filter, insert, sort, IsBelow, IsSorted}

module _ {A : Type 0} where
  pub in-filter_iff :
      (p : A → Bool) (a : A) (xs : List A) → (a ∈ filter p xs) ↔ ((a ∈ xs) × (p a ≡ true))
  in-filter_iff p a [] = (λ h. absurd h, λ h. absurd h.0)
  in-filter_iff p a (x ∷ xs) = elim (Bool-cases (p x)) [
    | inl e ↦ rw e (
      elim [
        | inl k ↦ (inl k, rw k e)
        | inr k ↦ (inr ((in-filter_iff p a xs).0 k).0, ((in-filter_iff p a xs).0 k).1)
      ],
      λ h. elim h.0 [ inl k ↦ inl k | inr k ↦ inr ((in-filter_iff p a xs).1 (k, h.1)) ],
    )
    | inr e ↦ rw e (
      (λ k. (inr ((in-filter_iff p a xs).0 k).0, ((in-filter_iff p a xs).0 k).1)),
      λ h. elim h.0 [ inl k ↦ ground (arith, ap p k) | inr k ↦ (in-filter_iff p a xs).1 (k, h.1) ],
    )
  ]

  pub filter-filter :
      (p q : A → Bool) (xs : List A) → filter p (filter q xs) ≡ filter (λ x. q x && p x) xs
  filter-filter p q [] = refl
  filter-filter p q (x ∷ xs) = ground (arith, filter-filter p q xs)

  pub filter_cong :
      (p q : A → Bool) (xs : List A) → ((x : A) → p x ≡ q x) → filter p xs ≡ filter q xs
  filter_cong p q [] h = refl
  filter_cong p q (x ∷ xs) h = rw (h x, filter_cong p q xs h) refl

  pub IsDistinct-filter : (p : A → Bool) (xs : List A) → IsDistinct xs → IsDistinct (filter p xs)
  IsDistinct-filter p [] d = tt
  IsDistinct-filter p (x ∷ xs) d = elim (Bool-cases (p x)) [
    | inl e ↦ rw e ((λ h. d.0 ((in-filter_iff p x xs).0 h).0), IsDistinct-filter p xs d.1)
    | inr e ↦ rw e (IsDistinct-filter p xs d.1)
  ]

  pub IsDistinct-append :
      (a : A) (xs : List A) → IsDistinct xs → ¬ (a ∈ xs) → IsDistinct (xs ++ a ∷ [])
  IsDistinct-append a [] d n = ((λ h. h), tt)
  IsDistinct-append a (x ∷ xs) d n = (
    (λ h. elim ((in-append_iff x xs (a ∷ [])).0 h) [
      | inl m ↦ d.0 m
      | inr (inl e) ↦ n (inl (sym e))
      | inr (inr m) ↦ absurd m
    ]),
    IsDistinct-append a xs d.1 (λ h. n (inr h)),
  )

module _ {A : Type 0} (before : A → A → Bool) where
  in-insert_iff : (a x : A) (xs : List A) → (a ∈ insert before x xs) ↔ ((a ≡ x) ⊎ (a ∈ xs))
  unfolding insert
  in-insert_iff a x [] = (λ h. h, λ h. h)
  in-insert_iff a x (y ∷ ys) = elim (Bool-cases (before x y)) [
    | inl e ↦ rw e (λ h. h, λ h. h)
    | inr e ↦ rw e (ground (arith, in-insert_iff a x ys))
  ]

  pub in-sort_iff : (a : A) (xs : List A) → (a ∈ sort before xs) ↔ (a ∈ xs)
  unfolding sort
  in-sort_iff a [] = (λ h. h, λ h. h)
  in-sort_iff a (x ∷ xs) = ground (arith, in-insert_iff a x (sort before xs), in-sort_iff a xs)

-- A list in an order is in every weaker one.
module _ {A : Type 0} (before weaker : A → A → Bool)
    (weaken : (a b : A) → before a b ≡ true → weaker a b ≡ true) where
  IsBelow-weaken : (a : A) (xs : List A) → IsBelow before a xs → IsBelow weaker a xs
  IsBelow-weaken a [] h = tt
  IsBelow-weaken a (x ∷ xs) h = (weaken a x h.0, IsBelow-weaken a xs h.1)

  pub IsSorted-weaken : (xs : List A) → IsSorted before xs → IsSorted weaker xs
  IsSorted-weaken [] s = tt
  IsSorted-weaken (x ∷ xs) s = (IsBelow-weaken x xs s.0, IsSorted-weaken xs s.1)
