-- ===== src/Tables/Reorder/Laws.antt =====
-- Where a dragged row comes to stand.
use openvpn_control_server.Shared.{
  ℕ, suc, ◌+◌, Bool, true, false, List, [], ◌∷◌, ◌++◌, append_assoc, String, some, ◌==◌, is_empty,
  is_empty_iff, length, length-append, if◌then◌else◌, ◌≡◌, ◌≢◌, refl, sym, ap, ◌∙◌, arith, eq_iff,
  take-length_append, drop-length_append, drop-suc-length_append, get_elem?-length_append,
}
use openvpn_control_server.Tables.Reorder.{
  Row, find_index, remove_at, insert_at, reorder_row_in_list, move, place,
}

-- No row of the list has that id.
abbrev pub HasNo : {A : Type 0} → String → List (Row A) → Type 0
HasNo id [] = Unit
HasNo id (r ∷ rs) = (r.id ≢ id) × HasNo id rs

module _ {A : Type 0} where
  HasNo-append :
      (id : String) (xs ys : List (Row A)) → HasNo id xs → HasNo id ys → HasNo id (xs ++ ys)
  HasNo-append id [] ys h k = k
  HasNo-append id (x ∷ xs) ys h k = (h.0, HasNo-append id xs ys h.1 k)

  find_index-append :
      (r : Row A) (xs ys : List (Row A))
      → HasNo r.id xs
      → find_index r.id (xs ++ r ∷ ys) ≡ some (length xs)
  unfolding find_index
  find_index-append r [] ys h = rw ((eq_iff r.id r.id).1 refl)
  find_index-append r (x ∷ xs) ys h =
      ground (arith, find_index-append r xs ys h.1, eq_iff x.id r.id)

  remove_at-append :
      (r : Row A) (xs ys : List (Row A)) → remove_at (length xs) (xs ++ r ∷ ys) ≡ xs ++ ys
  unfolding remove_at
  remove_at-append r xs ys = rw (take-length_append xs (r ∷ ys), drop-suc-length_append xs ys r)

  insert_at-append :
      (r : Row A) (xs ys : List (Row A)) → insert_at (length xs) r (xs ++ ys) ≡ xs ++ r ∷ ys
  unfolding insert_at
  insert_at-append r xs ys = rw (take-length_append xs ys, drop-length_append xs ys)

  move-found :
      (d : Row A) (xs ys : List (Row A)) (place_after : Bool) (k : ℕ)
      → move (xs ++ d ∷ ys) place_after (some (length xs)) (some k)
        ≡ insert_at (place (length xs) (if place_after then k + 1 else k)) d (xs ++ ys)
  move-found d xs ys place_after k = rw (get_elem?-length_append xs ys d, remove_at-append d xs ys)

  reorder-move :
      (rs : List (Row A)) (d t : String) (place_after : Bool)
      → d ≢ ""
      → t ≢ ""
      → d ≢ t
      → reorder_row_in_list rs d t place_after
        ≡ move rs place_after (find_index d rs) (find_index t rs)
  unfolding reorder_row_in_list
  reorder-move rs d t place_after nd nt ne =
      let ed : is_empty d ≡ false = ground (arith, is_empty_iff d) in
      let et : is_empty t ≡ false = ground (arith, is_empty_iff t) in
      let e : (d == t) ≡ false = ground (arith, eq_iff d t) in rw (ed, et, e)

  -- Putting `d` in before or after `t`.
  insert_at-beside :
      (d t : Row A) (xs ys : List (Row A)) (place_after : Bool) (k : ℕ)
      → k ≡ (if place_after then length xs + 1 else length xs)
      → insert_at k d (xs ++ t ∷ ys) ≡ xs ++ (if place_after then t ∷ d ∷ ys else d ∷ t ∷ ys)
  insert_at-beside d t xs ys false k e = rw e (insert_at-append d xs (t ∷ ys))
  insert_at-beside d t xs ys true k e =
      let at : k ≡ length (xs ++ t ∷ []) = omega (arith, length-append {0} xs (t ∷ [])) in
      rw (at, ← append_assoc xs (t ∷ []) ys)
        (insert_at-append d (xs ++ t ∷ []) ys ∙ append_assoc xs (t ∷ []) (d ∷ ys))

  -- A row that is dragged down onto another comes to stand just before or just after it, and
  -- every other row keeps its place in the order, where the two ids are not empty, differ, and
  -- are those of no row before.
  pub reorder_row_in_list_down :
      (d t : Row A) (above between below : List (Row A)) (place_after : Bool)
      → d.id ≢ ""
      → t.id ≢ ""
      → d.id ≢ t.id
      → HasNo d.id above
      → HasNo t.id above
      → HasNo t.id between
      → reorder_row_in_list (above ++ d ∷ (between ++ t ∷ below)) d.id t.id place_after
        ≡ above ++ (between ++ (if place_after then t ∷ d ∷ below else d ∷ t ∷ below))
  reorder_row_in_list_down d t above between below place_after nd nt ne ha hta htb =
      let rs = above ++ d ∷ (between ++ t ∷ below) in
      let regroup : (above ++ d ∷ between) ++ t ∷ below ≡ rs =
        append_assoc above (d ∷ between) (t ∷ below) in
      let at_t =
        ap (find_index t.id) (sym regroup)
        ∙ find_index-append t (above ++ d ∷ between) below
            (HasNo-append t.id above (d ∷ between) hta (ne, htb)) in
      reorder-move rs d.id t.id place_after nd nt ne
      ∙ rw (find_index-append d above (between ++ t ∷ below) ha, at_t)
          (move-found d above (between ++ t ∷ below) place_after (length (above ++ d ∷ between))
            ∙ rw (← append_assoc above between (t ∷ below)) (
                insert_at-beside d t (above ++ between) below place_after _ (
                  down place_after (length-append above (d ∷ between))
                    (length-append above between))
                ∙ append_assoc above between _))
    where
      down :
          (b : Bool)
          → length (above ++ d ∷ between) ≡ length above + suc (length between)
          → length (above ++ between) ≡ length above + length between
          → place
              (length above)
              (if b then length (above ++ d ∷ between) + 1 else length (above ++ d ∷ between))
            ≡ (if b then length (above ++ between) + 1 else length (above ++ between))
      down true e f = ground arith
      down false e f = ground arith

  -- A row that is dragged up onto another comes to stand just before or just after it, and every
  -- other row keeps its place in the order, where the two ids are not empty, differ, and are
  -- those of no row before.
  pub reorder_row_in_list_up :
      (d t : Row A) (above between below : List (Row A)) (place_after : Bool)
      → d.id ≢ ""
      → t.id ≢ ""
      → d.id ≢ t.id
      → HasNo t.id above
      → HasNo d.id above
      → HasNo d.id between
      → reorder_row_in_list (above ++ t ∷ (between ++ d ∷ below)) d.id t.id place_after
        ≡ above ++ (if place_after then t ∷ d ∷ (between ++ below) else d ∷ t ∷ (between ++ below))
  reorder_row_in_list_up d t above between below place_after nd nt ne hta ha hdb =
      let rs = above ++ t ∷ (between ++ d ∷ below) in
      let regroup : (above ++ t ∷ between) ++ d ∷ below ≡ rs =
        append_assoc above (t ∷ between) (d ∷ below) in
      let at_d =
        find_index-append d (above ++ t ∷ between) below
          (HasNo-append d.id above (t ∷ between) ha ((λ e. ne (sym e)), hdb)) in
      reorder-move rs d.id t.id place_after nd nt ne
      ∙ rw (find_index-append t above (between ++ d ∷ below) hta, ← regroup, at_d)
          (move-found d (above ++ t ∷ between) below place_after (length above)
            ∙ rw (append_assoc above (t ∷ between) below) (
                insert_at-beside d t above (between ++ below) place_after _
                  (up place_after (length-append above (t ∷ between)))))
    where
      up :
          (b : Bool)
          → length (above ++ t ∷ between) ≡ length above + suc (length between)
          → place (length (above ++ t ∷ between)) (if b then length above + 1 else length above)
            ≡ (if b then length above + 1 else length above)
      up true e = ground arith
      up false e = ground arith
