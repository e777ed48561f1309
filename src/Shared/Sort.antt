-- ===== src/Shared/Sort.antt =====
-- `xs.sort(compare)`, which is stable: `before a b` stands for `compare(a, b) <= 0`. Insertion from
-- the end of the list gives the one stable order wherever `before` is a total preorder.
use mathlib.Core.Path.{◌≡◌, refl}
use mathlib.Core.Logic.{inl, inr}
use mathlib.Core.Bool.{Bool, true, false}
use mathlib.Core.List.{List, [], ◌∷◌, Perm}
use mathlib.Core.List.Perm
use native.Mathlib.Omega.{arith}
use openvpn_control_server.Shared.Tests.{if◌then◌else◌, Bool-cases}

module _ {A : Type 0} where
  -- `xs.filter(p)`
  abbrev pub filter : (A → Bool) → List A → List A
  filter p [] = []
  filter p (x ∷ xs) = if p x then x ∷ filter p xs else filter p xs

  -- `xs.some(p)`
  abbrev pub any : (A → Bool) → List A → Bool
  any p [] = false
  any p (x ∷ xs) = if p x then true else any p xs

  module _ (before : A → A → Bool) where
    unfoldable pub insert : A → List A → List A
    insert x [] = x ∷ []
    insert x (y ∷ ys) = let rest = insert x ys in if before x y then x ∷ y ∷ ys else y ∷ rest

    unfoldable pub sort : List A → List A
    unfolding insert
    sort [] = []
    sort (x ∷ xs) = insert x (sort xs)

    -- Any two items are in one order or the other, and the order is transitive.
    pub record IsPreorder : Type 0 where
      pub total : (a b : A) → before a b ≡ false → before b a ≡ true
      pub trans : (a b c : A) → before a b ≡ true → before b c ≡ true → before a c ≡ true

    -- The item comes before every one of the list.
    abbrev pub IsBelow : A → List A → Type 0
    IsBelow a [] = Unit
    IsBelow a (x ∷ xs) = (before a x ≡ true) × IsBelow a xs

    abbrev pub IsSorted : List A → Type 0
    IsSorted [] = Unit
    IsSorted (x ∷ xs) = IsBelow x xs × IsSorted xs

module _ {A : Type 0} (before : A → A → Bool) where
  insert-perm : (x : A) (xs : List A) → Perm (insert before x xs) (x ∷ xs)
  unfolding insert
  insert-perm x [] = Perm.rfl
  insert-perm x (y ∷ ys) = elim (Bool-cases (before x y)) [
    | inl e ↦ rw e Perm.rfl
    | inr e ↦ rw e (Perm.trans (Perm.cons y (insert-perm x ys)) (Perm.swap x y ys))
  ]

  -- Sorting neither loses nor invents an item.
  pub sort-perm : (xs : List A) → Perm (sort before xs) xs
  unfolding sort
  sort-perm [] = Perm.rfl
  sort-perm (x ∷ xs) = Perm.trans (insert-perm x (sort before xs)) (Perm.cons x (sort-perm xs))

  IsBelow-insert :
      (a x : A) (xs : List A)
      → before a x ≡ true
      → IsBelow before a xs
      → IsBelow before a (insert before x xs)
  unfolding insert
  IsBelow-insert a x [] h k = (h, tt)
  IsBelow-insert a x (y ∷ ys) h k = elim (Bool-cases (before x y)) [
    | inl e ↦ rw e (h, k)
    | inr e ↦ rw e (k.0, IsBelow-insert a x ys h k.1)
  ]

  pub IsBelow-filter :
      (a : A) (p : A → Bool) (xs : List A) → IsBelow before a xs → IsBelow before a (filter p xs)
  IsBelow-filter a p [] h = tt
  IsBelow-filter a p (x ∷ xs) h = elim (Bool-cases (p x)) [
    | inl e ↦ rw e (h.0, IsBelow-filter a p xs h.1)
    | inr e ↦ rw e (IsBelow-filter a p xs h.1)
  ]

  pub IsSorted-filter :
      (p : A → Bool) (xs : List A) → IsSorted before xs → IsSorted before (filter p xs)
  IsSorted-filter p [] s = tt
  IsSorted-filter p (x ∷ xs) s = elim (Bool-cases (p x)) [
    | inl e ↦ rw e (IsBelow-filter x p xs s.0, IsSorted-filter p xs s.1)
    | inr e ↦ rw e (IsSorted-filter p xs s.1)
  ]

  insert_below : (x : A) (xs : List A) → IsBelow before x xs → insert before x xs ≡ x ∷ xs
  unfolding insert
  insert_below x [] h = refl
  insert_below x (y ∷ ys) h = rw h.0

  -- A list in order stays as it is.
  pub sort_sorted : (xs : List A) → IsSorted before xs → sort before xs ≡ xs
  unfolding sort
  sort_sorted [] s = refl
  sort_sorted (x ∷ xs) s = rw (sort_sorted xs s.1) (insert_below x xs s.0)

module _ {A : Type 0} (before : A → A → Bool) (order : IsPreorder before) where
  IsBelow-trans :
      (a b : A) (xs : List A) → before a b ≡ true → IsBelow before b xs → IsBelow before a xs
  IsBelow-trans a b [] h k = tt
  IsBelow-trans a b (x ∷ xs) h k = (order.trans a b x h k.0, IsBelow-trans a b xs h k.1)

  insert-IsSorted :
      (x : A) (xs : List A) → IsSorted before xs → IsSorted before (insert before x xs)
  unfolding insert
  insert-IsSorted x [] s = (tt, tt)
  insert-IsSorted x (y ∷ ys) s = elim (Bool-cases (before x y)) [
    | inl e ↦ rw e ((e, IsBelow-trans x y ys e s.0), s)
    | inr e ↦ rw e (IsBelow-insert before y x ys (order.total x y e) s.0, insert-IsSorted x ys s.1)
  ]

  -- The result is in order.
  pub sort-IsSorted : (xs : List A) → IsSorted before (sort before xs)
  unfolding sort
  sort-IsSorted [] = tt
  sort-IsSorted (x ∷ xs) = insert-IsSorted x (sort before xs) (sort-IsSorted xs)

  filter-insert :
      (p : A → Bool) (x : A) (xs : List A)
      → IsSorted before xs
      → filter p (insert before x xs) ≡ (if p x then insert before x (filter p xs) else filter p xs)
  unfolding insert
  filter-insert p x [] s = refl
  filter-insert p x (y ∷ ys) s = elim (Bool-cases (before x y)) [
    | inl e ↦
        let below : IsBelow before x (filter p (y ∷ ys)) =
          IsBelow-filter before x p (y ∷ ys) (e, IsBelow-trans x y ys e s.0) in
        rw e (ground (arith, insert_below before x (filter p (y ∷ ys)) below))
    | inr e ↦ rw e (ground (arith, filter-insert p x ys s.1))
  ]

  -- Filtering before or after sorting gives the same list: items that a filter keeps stand in the
  -- same order, those that compare as equal in the order in which they were given.
  pub filter-sort :
      (p : A → Bool) (xs : List A) → filter p (sort before xs) ≡ sort before (filter p xs)
  unfolding sort
  filter-sort p [] = refl
  filter-sort p (x ∷ xs) = elim (Bool-cases (p x)) [
    | inl e ↦ rw (filter-insert p x (sort before xs) (sort-IsSorted xs), e, filter-sort p xs) refl
    | inr e ↦ rw (filter-insert p x (sort before xs) (sort-IsSorted xs), e, filter-sort p xs) refl
  ]
