-- ===== src/Users/Sessions/Laws.antt =====
-- No session is shown twice, and none is missing.
use openvpn_control_server.Shared.{
  ◌≡◌, refl, ℕ, Bool, not, ◌||◌, List, [], ◌∷◌, ◌++◌, map, some, filter, String, sort, insert,
  IsDistinct, ◌∈◌, arith, Bool-cases, ◌⊎◌, inl, inr,
}
use openvpn_control_server.Certificates.{Certificate}
use openvpn_control_server.Users.Profiles.Laws.{has_iff}
use openvpn_control_server.Users.Profiles.{Client, has, cert_cns}
use openvpn_control_server.Users.Sessions.{
  SessionRow, row_key, client_key, is_own, by_last_seen, new_rows, merged_rows, merged_or,
  load_user_profile_sessions,
}

module _ (to_lower : String → String) where
  -- A new row is none of those seen, and no two are the same.
  new_rows-seen :
      (now : ℕ) (cns seen : List String) (cs : List Client) (k : String)
      → k ∈ map row_key (new_rows to_lower now cns seen cs)
      → ¬ (k ∈ seen)
  unfolding new_rows
  new_rows-seen now cns seen [] k h = absurd h
  new_rows-seen now cns seen (c ∷ cs) k h = ground (
    arith,
    new_rows-seen now cns seen cs k,
    new_rows-seen now cns (client_key c ∷ seen) cs k,
    has_iff (client_key c) seen,
  )

  new_rows-IsDistinct :
      (now : ℕ) (cns seen : List String) (cs : List Client)
      → IsDistinct (map row_key (new_rows to_lower now cns seen cs))
  unfolding new_rows
  new_rows-IsDistinct now cns seen [] = tt
  new_rows-IsDistinct now cns seen (c ∷ cs) =
      elim (Bool-cases (not (is_own to_lower cns c) || has (client_key c) seen)) [
        | inl e ↦ rw e (new_rows-IsDistinct now cns seen cs)
        | inr e ↦ rw e (
          (λ k. new_rows-seen now cns (client_key c ∷ seen) cs (client_key c) k (inl refl)),
          new_rows-IsDistinct now cns (client_key c ∷ seen) cs,
        )
      ]

  -- The key of a client whose name is on a certificate is that of a new row, or was seen.
  new_rows-own :
      (now : ℕ) (cns seen : List String) (cs : List Client) (k : String)
      → k ∈ map client_key (filter (is_own to_lower cns) cs)
      → (k ∈ seen) ⊎ (k ∈ map row_key (new_rows to_lower now cns seen cs))
  unfolding new_rows
  new_rows-own now cns seen [] k h = absurd h
  new_rows-own now cns seen (d ∷ ds) k h = ground (
    arith,
    new_rows-own now cns seen ds k,
    new_rows-own now cns (client_key d ∷ seen) ds k,
    has_iff (client_key d) seen,
  )

module _ {A : Type 0} (before : A → A → Bool) (key : A → String) where
  in-map-insert :
      (k : String) (x : A) (xs : List A)
      → k ∈ map key (insert before x xs)
      → (k ≡ key x) ⊎ (k ∈ map key xs)
  unfolding insert
  in-map-insert k x [] h = h
  in-map-insert k x (y ∷ ys) h = ground (arith, in-map-insert k x ys)

  insert-IsDistinct :
      (x : A) (xs : List A)
      → IsDistinct (map key (x ∷ xs))
      → IsDistinct (map key (insert before x xs))
  unfolding insert
  insert-IsDistinct x [] d = d
  insert-IsDistinct x (y ∷ ys) d = elim (Bool-cases (before x y)) [
    | inl e ↦ rw e d
    | inr e ↦ rw e (
      (λ h. ground (arith, in-map-insert (key y) x ys h)),
      insert-IsDistinct x ys (λ h. d.0 (inr h), d.1.1),
    )
  ]

  sort-IsDistinct : (xs : List A) → IsDistinct (map key xs) → IsDistinct (map key (sort before xs))
  unfolding sort
  sort-IsDistinct [] d = tt
  sort-IsDistinct (x ∷ xs) d =
      insert-IsDistinct x (sort before xs)
        ((λ h. d.0 (in-map-sort (key x) xs h)), sort-IsDistinct xs d.1)
    where
      in-map-sort : (k : String) (ys : List A) → k ∈ map key (sort before ys) → k ∈ map key ys
      in-map-sort k [] h = h
      in-map-sort k (y ∷ ys) h =
          ground (arith, in-map-insert k y (sort before ys) h, in-map-sort k ys)

  append-IsDistinct :
      (xs ys : List A)
      → IsDistinct (map key xs)
      → IsDistinct (map key ys)
      → ((k : String) → k ∈ map key ys → ¬ (k ∈ map key xs))
      → IsDistinct (map key (xs ++ ys))
  append-IsDistinct [] ys d e n = e
  append-IsDistinct (x ∷ xs) ys d e n = (
    (λ h. elim (in-map-append (key x) xs ys h) [ inl k ↦ d.0 k | inr k ↦ n (key x) k (inl refl) ]),
    append-IsDistinct xs ys d.1 e (λ k h i. n k h (inr i)),
  )
    where
      in-map-append :
          (k : String) (us vs : List A)
          → k ∈ map key (us ++ vs)
          → (k ∈ map key us) ⊎ (k ∈ map key vs)
      in-map-append k [] vs h = inr h
      in-map-append k (u ∷ us) vs h = ground (arith, in-map-append k us vs)

  in-insert-map :
      (k : String) (x : A) (xs : List A)
      → (k ≡ key x) ⊎ (k ∈ map key xs)
      → k ∈ map key (insert before x xs)
  unfolding insert
  in-insert-map k x [] h = h
  in-insert-map k x (y ∷ ys) h = ground (arith, in-insert-map k x ys)

  in-sort-map : (k : String) (xs : List A) → k ∈ map key xs → k ∈ map key (sort before xs)
  unfolding sort
  in-sort-map k [] h = h
  in-sort-map k (x ∷ xs) h = in-insert-map k x (sort before xs) (ground (arith, in-sort-map k xs))

  in-append-map :
      (k : String) (xs ys : List A) → (k ∈ map key xs) ⊎ (k ∈ map key ys) → k ∈ map key (xs ++ ys)
  in-append-map k [] ys h = ground arith
  in-append-map k (x ∷ xs) ys h = ground (arith, in-append-map k xs ys)

module _ (to_lower : String → String) where
  merged_rows-IsDistinct :
      (now : ℕ) (cns : List String) (list : List SessionRow) (clients : List Client)
      → IsDistinct (map row_key list)
      → IsDistinct (map row_key (merged_rows to_lower now cns list clients))
  unfolding merged_rows
  merged_rows-IsDistinct now cns list clients d =
      let fresh : List SessionRow = new_rows to_lower now cns (map row_key list) clients in
      sort-IsDistinct by_last_seen row_key (list ++ fresh) (
        append-IsDistinct by_last_seen row_key list fresh d
          (new_rows-IsDistinct to_lower now cns (map row_key list) clients)
          (λ k h. new_rows-seen to_lower now cns (map row_key list) clients k h))

  load_user_profile_sessions-IsDistinct :
      (now : ℕ) (uid : String) (certificates : List Certificate) (clients : List Client)
      (list : List SessionRow)
      → IsDistinct (map row_key list)
      → IsDistinct (
          map row_key
            (load_user_profile_sessions to_lower now uid certificates clients (some list)))
  unfolding load_user_profile_sessions
  load_user_profile_sessions-IsDistinct now uid certificates clients list d =
      cases (cert_cns to_lower uid certificates)
    where
      cases :
          (cns : List String) → IsDistinct (map row_key (merged_or to_lower now cns list clients))
      cases [] = d
      cases (cn ∷ cns) = merged_rows-IsDistinct now (cn ∷ cns) list clients d

  in-merged_rows :
      (now : ℕ) (cns : List String) (list : List SessionRow) (clients : List Client) (k : String)
      → (k ∈ map row_key list) ⊎ (k ∈ map client_key (filter (is_own to_lower cns) clients))
      → k ∈ map row_key (merged_rows to_lower now cns list clients)
  unfolding merged_rows
  in-merged_rows now cns list clients k h =
      let fresh : List SessionRow = new_rows to_lower now cns (map row_key list) clients in
      in-sort-map by_last_seen row_key k (list ++ fresh) (
        in-append-map by_last_seen row_key k list fresh (elim h [
          | inl m ↦ inl m
          | inr m ↦ new_rows-own to_lower now cns (map row_key list) clients k m
        ]))

  in-load_user_profile_sessions :
      (now : ℕ) (uid : String) (certificates : List Certificate) (clients : List Client)
      (list : List SessionRow) (k : String)
      → ((k ∈ map row_key list)
          ⊎ (k
              ∈ map client_key
                  (filter (is_own to_lower (cert_cns to_lower uid certificates)) clients)))
      → k
        ∈ map row_key (load_user_profile_sessions to_lower now uid certificates clients (some list))
  unfolding load_user_profile_sessions
  in-load_user_profile_sessions now uid certificates clients list k h =
      cases (cert_cns to_lower uid certificates) h
    where
      none_own : (cs : List Client) → filter (is_own to_lower []) cs ≡ []
      none_own [] = refl
      none_own (c ∷ cs) = ground (arith, none_own cs)

      cases :
          (cns : List String)
          → (k ∈ map row_key list) ⊎ (k ∈ map client_key (filter (is_own to_lower cns) clients))
          → k ∈ map row_key (merged_or to_lower now cns list clients)
      cases [] m = ground (arith, none_own clients)
      cases (cn ∷ cns) m = in-merged_rows now (cn ∷ cns) list clients k m

  -- If the server lists no session of a user twice, the page shows none twice, and it shows every
  -- session that the server lists and every connected client whose name is on one of the user's
  -- certificates.
  pub load_user_profile_sessions_lem :
      (now : ℕ) (uid : String) (certificates : List Certificate) (clients : List Client)
      (list : List SessionRow) (k : String)
      → IsDistinct (map row_key list)
      → ((k ∈ map row_key list)
          ⊎ (k
              ∈ map client_key
                  (filter (is_own to_lower (cert_cns to_lower uid certificates)) clients)))
      → IsDistinct (
          map row_key
            (load_user_profile_sessions to_lower now uid certificates clients (some list)))
        × (k
            ∈ map row_key
                (load_user_profile_sessions to_lower now uid certificates clients (some list)))
  load_user_profile_sessions_lem now uid certificates clients list k d h = (
    load_user_profile_sessions-IsDistinct now uid certificates clients list d,
    in-load_user_profile_sessions now uid certificates clients list k h,
  )
