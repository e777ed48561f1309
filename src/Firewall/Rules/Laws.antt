-- ===== src/Firewall/Rules/Laws.antt =====
-- A list of rules is a table by id, and a policy holds its rules in their order.
use openvpn_control_server.Shared.{
  ℕ, zero, suc, ◌+◌, ◌≡◌, refl, ap, ◌∙◌, sym, true, false, List, [], ◌∷◌, ◌++◌, map, Option, none,
  some, String, ◌==◌, eq_iff, any, length, length-append, ◌∈◌, IsDistinct, IsDistinct-append, inl,
  inr, Bool-cases, if◌then◌else◌, arith,
}
use openvpn_control_server.Firewall.Rules.{
  FilterRule, EffectiveRule, replace_rule, put_rule, drop_rule, in_scope,
  user_firewall_effective_rules,
}

module _ {A : Type 0} (id_of : A → String) where
  -- The rule of an id: what a table of rules is to the one who reads it.
  unfoldable pub rule_of : String → List A → Option A
  rule_of i [] = none
  rule_of i (x ∷ xs) = if id_of x == i then some x else rule_of i xs

  abbrev pub ids : List A → List String
  ids xs = map id_of xs

  rule_of-replace_rule :
      (i : String) (r : A) (xs : List A)
      → rule_of i (replace_rule id_of r xs) ≡ (
          if id_of r == i
          then (if any (λ x. id_of x == id_of r) xs then some r else rule_of i xs)
          else rule_of i xs)
  unfolding rule_of replace_rule
  rule_of-replace_rule i r [] = ground arith
  rule_of-replace_rule i r (x ∷ xs) = ground (
    arith,
    rule_of-replace_rule i r xs,
    eq_iff (id_of x) (id_of r),
    eq_iff (id_of r) i,
    eq_iff (id_of x) i,
  )

  rule_of-append :
      (i : String) (r : A) (xs : List A)
      → any (λ x. id_of x == id_of r) xs ≡ false
      → rule_of i (xs ++ r ∷ []) ≡ (if id_of r == i then some r else rule_of i xs)
  unfolding rule_of
  rule_of-append i r [] h = refl
  rule_of-append i r (x ∷ xs) h = ground (
    arith,
    rule_of-append i r xs,
    eq_iff (id_of x) (id_of r),
    eq_iff (id_of r) i,
    eq_iff (id_of x) i,
  )

  rule_of-put :
      (i : String) (r : A) (xs : List A)
      → rule_of i (put_rule id_of r xs) ≡ (if id_of r == i then some r else rule_of i xs)
  unfolding put_rule
  rule_of-put i r xs = elim (Bool-cases (any (λ x. id_of x == id_of r) xs)) [
    | inl e ↦ rw e (rw (rule_of-replace_rule i r xs, e) refl)
    | inr e ↦ rw e (rule_of-append i r xs e)
  ]

  rule_of-drop_rule :
      (i j : String) (xs : List A)
      → rule_of i (drop_rule id_of j xs) ≡ (if j == i then none else rule_of i xs)
  unfolding rule_of drop_rule
  rule_of-drop_rule i j [] = ground arith
  rule_of-drop_rule i j (x ∷ xs) =
      ground (arith, rule_of-drop_rule i j xs, eq_iff (id_of x) j, eq_iff j i, eq_iff (id_of x) i)

  -- A list of rules is a table by id: after a rule is put, its id has that rule, after one is
  -- deleted, its id has none, and every other id has the rule that it had.
  pub rule_of-put_rule :
      (i j : String) (r : A) (xs : List A)
      → (rule_of i (put_rule id_of r xs) ≡ (if id_of r == i then some r else rule_of i xs))
        × (rule_of i (drop_rule id_of j xs) ≡ (if j == i then none else rule_of i xs))
  rule_of-put_rule i j r xs = (rule_of-put i r xs, rule_of-drop_rule i j xs)

  ids-replace_rule : (r : A) (xs : List A) → ids (replace_rule id_of r xs) ≡ ids xs
  unfolding replace_rule
  ids-replace_rule r [] = refl
  ids-replace_rule r (x ∷ xs) = ground (arith, ids-replace_rule r xs, eq_iff (id_of x) (id_of r))

  ids-append : (r : A) (xs : List A) → ids (xs ++ r ∷ []) ≡ ids xs ++ id_of r ∷ []
  ids-append r [] = refl
  ids-append r (x ∷ xs) = ap (λ t. id_of x ∷ t) (ids-append r xs)

  -- A put rule stands where the rule of its id stood, or at the end.
  pub ids-put_rule :
      (r : A) (xs : List A)
      → ids (put_rule id_of r xs)
        ≡ (if any (λ x. id_of x == id_of r) xs then ids xs else ids xs ++ id_of r ∷ [])
  unfolding put_rule
  ids-put_rule r xs = elim (Bool-cases (any (λ x. id_of x == id_of r) xs)) [
    | inl e ↦ rw e (ids-replace_rule r xs)
    | inr e ↦ rw e (ids-append r xs)
  ]

  in-ids : (i : String) (xs : List A) → i ∈ ids xs → any (λ x. id_of x == i) xs ≡ true
  in-ids i [] h = absurd h
  in-ids i (x ∷ xs) h = ground (arith, in-ids i xs, eq_iff (id_of x) i)

  replace_rule_absent :
      (r : A) (xs : List A)
      → any (λ x. id_of x == id_of r) xs ≡ false
      → replace_rule id_of r xs ≡ xs
  unfolding replace_rule
  replace_rule_absent r [] h = refl
  replace_rule_absent r (x ∷ xs) h = ground (arith, replace_rule_absent r xs)

  any-in : (i : String) (xs : List A) → any (λ x. id_of x == i) xs ≡ true → i ∈ ids xs
  any-in i [] h = absurd (ground arith)
  any-in i (x ∷ xs) h = ground (arith, any-in i xs, eq_iff (id_of x) i)

  any-rule_of :
      (r : A) (i : String) (xs : List A) → rule_of i xs ≡ some r → any (λ x. id_of x == i) xs ≡ true
  unfolding rule_of
  any-rule_of r i [] h = ground arith
  any-rule_of r i (x ∷ xs) h = ground (arith, any-rule_of r i xs)

  replace_rule_same :
      (r : A) (xs : List A)
      → IsDistinct (ids xs)
      → rule_of (id_of r) xs ≡ some r
      → replace_rule id_of r xs ≡ xs
  unfolding rule_of replace_rule
  replace_rule_same r [] d h = refl
  replace_rule_same r (x ∷ xs) d h = elim (Bool-cases (id_of x == id_of r)) [
    | inl e ↦
        let same : id_of x ≡ id_of r = ground (arith, eq_iff (id_of x) (id_of r)) in
        let first : x ≡ r = ground arith in
        let absent : any (λ y. id_of y == id_of r) xs ≡ false =
          ground (arith, any-in (id_of r) xs, d.0) in
        rw (e, replace_rule_absent r xs absent) (ap (λ t. t ∷ xs) (sym first))
    | inr e ↦ rw (e, replace_rule_same r xs d.1 (ground arith)) refl
  ]

  -- A rule that is stored already is stored again as it is.
  pub put_rule_same :
      (r : A) (xs : List A)
      → IsDistinct (ids xs)
      → rule_of (id_of r) xs ≡ some r
      → put_rule id_of r xs ≡ xs
  unfolding put_rule
  put_rule_same r xs d h = rw (any-rule_of r (id_of r) xs h) (replace_rule_same r xs d h)

  -- A list that holds no id twice holds none twice after a rule is put.
  pub put_rule-IsDistinct :
      (r : A) (xs : List A) → IsDistinct (ids xs) → IsDistinct (ids (put_rule id_of r xs))
  put_rule-IsDistinct r xs d = elim (Bool-cases (any (λ x. id_of x == id_of r) xs)) [
    | inl e ↦ rw (ids-put_rule r xs, e) d
    | inr e ↦
        rw (ids-put_rule r xs, e)
          (IsDistinct-append (id_of r) (ids xs) d (λ h. ground (arith, in-ids (id_of r) xs h)))
  ]

-- `0, 1, …`, `n` numbers from `start` on.
unfoldable pub upto : ℕ → ℕ → List ℕ
upto start zero = []
upto start (suc n) = start ∷ upto (suc start) n

rules-in_scope :
    (scope source : String) (start : ℕ) (rs : List FilterRule)
    → map (λ (r : EffectiveRule). r.rule) (in_scope scope source start rs) ≡ rs
unfolding in_scope
rules-in_scope scope source start [] = refl
rules-in_scope scope source start (r ∷ rs) =
    ap (λ t. r ∷ t) (rules-in_scope scope source (suc start) rs)

orders-in_scope :
    (scope source : String) (start : ℕ) (rs : List FilterRule)
    → map (λ (r : EffectiveRule). r.order) (in_scope scope source start rs) ≡ upto start (length rs)
unfolding in_scope upto
orders-in_scope scope source start [] = refl
orders-in_scope scope source start (r ∷ rs) =
    ap (λ t. start ∷ t) (orders-in_scope scope source (suc start) rs)

map-append : {A B : Type 0} (f : A → B) (xs ys : List A) → map f (xs ++ ys) ≡ map f xs ++ map f ys
map-append f [] ys = refl
map-append f (x ∷ xs) ys = ap (λ t. f x ∷ t) (map-append f xs ys)

upto-append : (start m n k : ℕ) → k ≡ start + m → upto start m ++ upto k n ≡ upto start (m + n)
unfolding upto
upto-append start zero n k e =
    let here : k ≡ start = omega arith in
    let sum : n ≡ zero + n = omega arith in rw here (ap (upto start) sum)
upto-append start (suc m) n k e =
    let sum : suc (m + n) ≡ suc m + n = omega arith in
    ap (λ t. start ∷ t) (upto-append (suc start) m n k (omega arith)) ∙ ap (upto start) sum

length-in_scope :
    (scope source : String) (start : ℕ) (rs : List FilterRule)
    → length (in_scope scope source start rs) ≡ length rs
unfolding in_scope
length-in_scope scope source start [] = refl
length-in_scope scope source start (r ∷ rs) = ap suc (length-in_scope scope source (suc start) rs)

-- The rules in force for a user are the user's own in the mode of replacement, and else those of
-- the server followed by the user's own, numbered from 0 in that order.
pub user_firewall_effective_rules-order :
    (mode source_ip : String) (server_rules override_rules : List FilterRule)
    → (map
          (λ (r : EffectiveRule). r.rule)
          (user_firewall_effective_rules mode source_ip server_rules override_rules)
        ≡ (if mode == "replace" then override_rules else server_rules ++ override_rules))
      × (map
            (λ (r : EffectiveRule). r.order)
            (user_firewall_effective_rules mode source_ip server_rules override_rules)
          ≡ upto 0
              (length (user_firewall_effective_rules mode source_ip server_rules override_rules)))
unfolding user_firewall_effective_rules
user_firewall_effective_rules-order mode source_ip server_rules override_rules =
    elim (Bool-cases (mode == "replace")) [
      | inl e ↦ rw e (
        rules-in_scope "override" source_ip 0 override_rules,
        orders-in_scope "override" source_ip 0 override_rules
            ∙ ap (upto 0) (sym (length-in_scope "override" source_ip 0 override_rules)),
      )
      | inr e ↦
          let base : List EffectiveRule = in_scope "base" "VPN clients" 0 server_rules in
          let own : List EffectiveRule =
            in_scope "override" source_ip (length server_rules) override_rules in
          let sum : length server_rules + length override_rules ≡ length (base ++ own) = omega (
            arith,
            length-append {0} base own,
            length-in_scope "base" "VPN clients" 0 server_rules,
            length-in_scope "override" source_ip (length server_rules) override_rules,
          ) in
          rw e (
            rw
                (
                  map-append (λ (r : EffectiveRule). r.rule) base own,
                  rules-in_scope "base" "VPN clients" 0 server_rules,
                  rules-in_scope "override" source_ip (length server_rules) override_rules,
                )
                refl,
            rw
                (
                  map-append (λ (r : EffectiveRule). r.order) base own,
                  orders-in_scope "base" "VPN clients" 0 server_rules,
                  orders-in_scope "override" source_ip (length server_rules) override_rules,
                )
                (upto-append 0 (length server_rules) (length override_rules) (length server_rules)
                    (omega arith)
                  ∙ ap (upto 0) sum),
          )
    ]
