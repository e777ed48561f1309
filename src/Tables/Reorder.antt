-- ===== src/Tables/Reorder.antt =====
-- `reorderRowInList` of frontend/src/App.tsx: the rules of a table after one row has been dragged
-- onto another. A row is what its id and its other contents are; ids are compared as texts.
pub mod Laws
pub mod Moves
use openvpn_control_server.Shared.{
  ℕ, zero, suc, ◌+◌, ◌-◌, min, Bool, true, false, not, ◌||◌, List, [], ◌∷◌, ◌++◌, String, Option,
  none, some, ◌==◌, is_empty, length, take, drop, get_elem?, ltb, if◌then◌else◌,
}

pub record Row (A : Type 0) : Type 0 where
  pub id : String
  pub content : A

abbrev later : Option ℕ → Option ℕ
later none = none
later (some i) = some (suc i)

-- `targetIdx + (placeAfter ? 1 : 0)`, less 1 where the row stood before that.
abbrev place : ℕ → ℕ → ℕ
place from wanted = if ltb from wanted then wanted - 1 else wanted

module _ {A : Type 0} where
  -- `arr.findIndex((x) => x.id === id)`, or nothing for -1.
  unfoldable pub find_index : String → List (Row A) → Option ℕ
  find_index id [] = none
  find_index id (r ∷ rs) = if r.id == id then some 0 else later (find_index id rs)

  -- `arr.splice(i, 1)`, what is left.
  unfoldable pub remove_at : ℕ → List (Row A) → List (Row A)
  remove_at i rs = take i rs ++ drop (suc i) rs

  -- `arr.splice(i, 0, r)`
  unfoldable pub insert_at : ℕ → Row A → List (Row A) → List (Row A)
  insert_at i r rs = take i rs ++ r ∷ drop i rs

  -- `arr.filter((x) => x.id !== id)`
  unfoldable pub without : String → List (Row A) → List (Row A)
  without id [] = []
  without id (r ∷ rs) = if r.id == id then without id rs else r ∷ without id rs

  -- The list with a row put in; a row that is not there changes nothing.
  abbrev put_back : Option (Row A) → ℕ → List (Row A) → List (Row A) → List (Row A)
  put_back none at rest rs = rs
  put_back (some r) at rest rs = insert_at at r rest

  -- A row is dropped onto its own lower half.
  abbrev move_self : String → List (Row A) → Option ℕ → List (Row A)
  move_self id rs none = rs
  move_self id rs (some i) =
      put_back (get_elem? rs i) (min (i + 1) (length (without id rs))) (without id rs) rs

  -- The row at `from` goes before or after the row at `target`.
  abbrev move : List (Row A) → Bool → Option ℕ → Option ℕ → List (Row A)
  move rs place_after none target = rs
  move rs place_after (some from) none = rs
  move rs place_after (some from) (some target) =
      put_back (get_elem? rs from) (place from (if place_after then target + 1 else target))
        (remove_at from rs) rs

  unfoldable pub reorder_row_in_list : List (Row A) → String → String → Bool → List (Row A)
  reorder_row_in_list rs drag_id target_id place_after =
      if is_empty drag_id || is_empty target_id
      then rs
      else if drag_id == target_id
      then if place_after then move_self drag_id rs (find_index drag_id rs) else rs
      else move rs place_after (find_index drag_id rs) (find_index target_id rs)
