-- ===== src/ConfigDiff/Script.antt =====
-- A diff of frontend/src/App.tsx's `lineDiffLcs` turns the one text into the other.
use openvpn_control_server.Shared.{
  ℕ, zero, suc, ◌+◌, ◌≤◌, ◌≡◌, refl, sym, ap, ◌∙◌, List, [], ◌∷◌, ◌++◌, String, arith, append_assoc,
  append-nil, length, get_or, take, take-suc, take_all, join,
}
use text.Mathlib.TextEquality.{eq_iff}
use openvpn_control_server.ConfigDiff.{
  DiffLine, same, add, del, walk, dp_table, line_diff_lcs, to_lines, new_side,
  raw_config_from_server_settings_diff,
}

-- The lines of the old text that a diff shows.
unfoldable pub old_side : List DiffLine → List String
old_side [] = []
old_side (same l ∷ ds) = l ∷ old_side ds
old_side (add l ∷ ds) = old_side ds
old_side (del l ∷ ds) = l ∷ old_side ds

take-suc-append :
    (n : ℕ) (xs ys : List String)
    → suc n ≤ length xs
    → take (suc n) xs ++ ys ≡ take n xs ++ get_or xs n "" ∷ ys
take-suc-append n xs ys h = rw (take-suc n xs "" h) (append_assoc (take n xs) _ ys)

module _ (dp : List (List ℕ)) (a b : List String) where
  walk_sides :
      (fuel i j : ℕ) (out : List DiffLine)
      → i + j ≤ fuel
      → i ≤ length a
      → j ≤ length b
      → (old_side (walk dp a b fuel i j out) ≡ take i a ++ old_side out)
        × (new_side (walk dp a b fuel i j out) ≡ take j b ++ new_side out)
  unfolding walk old_side new_side
  walk_sides zero zero zero out h hi hj = (refl, refl)
  walk_sides zero zero (suc j) out h hi hj = absurd (omega arith)
  walk_sides zero (suc i) j out h hi hj = absurd (omega arith)
  walk_sides (suc f) zero zero out h hi hj = (refl, refl)
  walk_sides (suc f) zero (suc j) out h hi hj =
      let ih = walk_sides f zero j (add (get_or b j "") ∷ out) (omega arith) hi (omega arith) in
      (ih.0, ih.1 ∙ sym (take-suc-append j b (new_side out) hj))
  walk_sides (suc f) (suc i) zero out h hi hj =
      let ih = walk_sides f i zero (del (get_or a i "") ∷ out) (omega arith) (omega arith) hj in
      (ih.0 ∙ sym (take-suc-append i a (old_side out) hi), ih.1)
  walk_sides (suc f) (suc i) (suc j) out h hi hj =
      let kept =
        walk_sides f i j (same (get_or a i "") ∷ out) (omega arith) (omega arith) (omega arith) in
      let added =
        walk_sides f (suc i) j (add (get_or b j "") ∷ out) (omega arith) hi (omega arith) in
      let deleted =
        walk_sides f i (suc j) (del (get_or a i "") ∷ out) (omega arith) (omega arith) hj in
      let old = take-suc-append i a (old_side out) hi in
      let new = take-suc-append j b (new_side out) hj in
      ground (arith, kept, added, deleted, old, new, eq_iff (get_or a i "") (get_or b j ""))

-- The lines of a diff that are not added are those of the old text, and the lines that are not
-- deleted are those of the new text, each in their order.
pub line_diff_lcs_sides :
    (old_str new_str : String)
    → (old_side (line_diff_lcs old_str new_str) ≡ to_lines old_str)
      × (new_side (line_diff_lcs old_str new_str) ≡ to_lines new_str)
unfolding line_diff_lcs old_side new_side
line_diff_lcs_sides old_str new_str =
    let a = to_lines old_str in
    let b = to_lines new_str in
    let h =
      walk_sides (dp_table a b) a b (length a + length b) (length a) (length b) [] (omega arith)
        (omega arith) (omega arith) in
    (h.0 ∙ append-nil _ ∙ take_all a, h.1 ∙ append-nil _ ∙ take_all b)

-- The text rebuilt from a diff is the new text, with its line ends as "\n" and without the empty
-- lines at its end, whatever the old text was.
pub raw_config-line_diff_lcs :
    (old_str new_str : String)
    → raw_config_from_server_settings_diff (line_diff_lcs old_str new_str)
      ≡ join "\n" (to_lines new_str)
unfolding raw_config_from_server_settings_diff
raw_config-line_diff_lcs old_str new_str = ap (join "\n") (line_diff_lcs_sides old_str new_str).1
