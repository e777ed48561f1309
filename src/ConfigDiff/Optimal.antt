-- ===== src/ConfigDiff/Optimal.antt =====
-- No diff of two texts keeps more lines than that of `lineDiffLcs`.
use text.Mathlib.TextEquality.{eq_iff}
use openvpn_control_server.Shared.{
  ℕ, zero, suc, ◌+◌, ◌≤◌, ◌≡◌, sym, ap, ◌∙◌, List, [], ◌∷◌, String, arith, length, get_or,
  get_or-drop, drop, drop-suc, length-drop,
}
use openvpn_control_server.ConfigDiff.{
  DiffLine, same, add, del, dp_table, walk, line_diff_lcs, to_lines, new_side,
}
use openvpn_control_server.ConfigDiff.Script.{old_side}
use openvpn_control_server.ConfigDiff.Table.{lcs, lcs-zero, zero-lcs, lcs-suc, dp_table-lcs}

-- The lines that a diff keeps.
pub same_count : List DiffLine → ℕ
same_count [] = 0
same_count (same l ∷ ds) = same_count ds + 1
same_count (add l ∷ ds) = same_count ds
same_count (del l ∷ ds) = same_count ds

module _ (a b : List String) where
  lcs-mono_right :
      (j : ℕ)
      → ((i : ℕ) → lcs a b (suc i) j ≤ lcs a b i j + 1)
      → (i : ℕ) → lcs a b i j ≤ lcs a b i (suc j)
  unfolding lcs
  lcs-mono_right j up zero = omega arith
  lcs-mono_right j up (suc i) = ground (arith, up i)

  lcs-step_left : (i j : ℕ) → lcs a b (suc i) j ≤ lcs a b i j + 1
  unfolding lcs
  lcs-step_left i zero = omega arith
  lcs-step_left i (suc j) =
      ground (arith, lcs-mono_right j (λ k. lcs-step_left k j) i, lcs-step_left i j)

  lcs-le_right : (i j : ℕ) → lcs a b i j ≤ lcs a b i (suc j)
  lcs-le_right i j = lcs-mono_right j (λ k. lcs-step_left k j) i

  lcs-mono_left :
      (i : ℕ)
      → ((j : ℕ) → lcs a b i (suc j) ≤ lcs a b i j + 1)
      → (j : ℕ) → lcs a b i j ≤ lcs a b (suc i) j
  unfolding lcs
  lcs-mono_left i up zero = omega (arith, lcs-zero a b i)
  lcs-mono_left i up (suc j) = ground (arith, up j)

  lcs-step_right : (i j : ℕ) → lcs a b i (suc j) ≤ lcs a b i j + 1
  unfolding lcs
  lcs-step_right zero j = omega arith
  lcs-step_right (suc i) j =
      ground (arith, lcs-mono_left i (lcs-step_right i) j, lcs-step_right i j)

  lcs-le_left : (i j : ℕ) → lcs a b i j ≤ lcs a b (suc i) j
  lcs-le_left i j = lcs-mono_left i (lcs-step_right i) j

  lcs-same : (i j : ℕ) → get_or a i "" ≡ get_or b j "" → lcs a b (suc i) (suc j) ≡ lcs a b i j + 1
  unfolding lcs
  lcs-same i j e = ground (arith, eq_iff (get_or a i "") (get_or b j ""))

  -- A diff whose sides are the rest of the two texts keeps no more than is left of the bound.
  same_count-le :
      (ds : List DiffLine) (i j k : ℕ)
      → k ≤ lcs a b i j
      → i ≤ length a
      → j ≤ length b
      → drop i a ≡ old_side ds
      → drop j b ≡ new_side ds
      → k + same_count ds ≤ lcs a b (length a) (length b)
  unfolding same_count old_side new_side
  same_count-le [] i j k h hi hj ea eb =
      let ei : i ≡ length a = omega (arith, length-drop i a, ap length ea) in
      let ej : j ≡ length b = omega (arith, length-drop j b, ap length eb) in
      rw (← ei, ← ej) (omega arith)
  same_count-le (same l ∷ ds) i j k h hi hj ea eb =
      let e = get_or-drop i a _ l "" ea ∙ sym (get_or-drop j b _ l "" eb) in
      omega (
        arith,
        same_count-le ds (suc i) (suc j) (k + 1) (omega (arith, lcs-same i j e))
            (omega (arith, length-drop i a, ap length ea))
            (omega (arith, length-drop j b, ap length eb)) (drop-suc i a _ l ea)
            (drop-suc j b _ l eb),
      )
  same_count-le (add l ∷ ds) i j k h hi hj ea eb =
      same_count-le ds i (suc j) k (omega (arith, lcs-le_right i j)) hi
        (omega (arith, length-drop j b, ap length eb)) ea (drop-suc j b _ l eb)
  same_count-le (del l ∷ ds) i j k h hi hj ea eb =
      same_count-le ds (suc i) j k (omega (arith, lcs-le_left i j))
        (omega (arith, length-drop i a, ap length ea)) hj (drop-suc i a _ l ea) eb

  -- The walk keeps as many lines as the cell that it starts from says.
  same_count-walk :
      (fuel i j : ℕ) (out : List DiffLine)
      → i + j ≤ fuel
      → i ≤ length a
      → j ≤ length b
      → same_count (walk (dp_table a b) a b fuel i j out) ≡ lcs a b i j + same_count out
  unfolding walk same_count
  same_count-walk zero zero zero out h hi hj = omega (arith, zero-lcs a b zero)
  same_count-walk zero zero (suc j) out h hi hj = absurd (omega arith)
  same_count-walk zero (suc i) j out h hi hj = absurd (omega arith)
  same_count-walk (suc f) zero zero out h hi hj = omega (arith, zero-lcs a b zero)
  same_count-walk (suc f) zero (suc j) out h hi hj = omega (
    arith,
    zero-lcs a b j,
    zero-lcs a b (suc j),
    same_count-walk f zero j (add (get_or b j "") ∷ out) (omega arith) hi (omega arith),
  )
  same_count-walk (suc f) (suc i) zero out h hi hj = omega (
    arith,
    lcs-zero a b i,
    lcs-zero a b (suc i),
    same_count-walk f i zero (del (get_or a i "") ∷ out) (omega arith) (omega arith) hj,
  )
  same_count-walk (suc f) (suc i) (suc j) out h hi hj =
      let kept =
        same_count-walk f i j (same (get_or a i "") ∷ out) (omega arith) (omega arith)
          (omega arith) in
      let added =
        same_count-walk f (suc i) j (add (get_or b j "") ∷ out) (omega arith) hi (omega arith) in
      let deleted =
        same_count-walk f i (suc j) (del (get_or a i "") ∷ out) (omega arith) (omega arith) hj in
      let up = dp_table-lcs a b i (suc j) (omega arith) hj in
      let left = dp_table-lcs a b (suc i) j hi (omega arith) in
      ground (arith, kept, added, deleted, up, left, lcs-suc a b i j)

-- No diff of the same two texts keeps more lines than the one that is computed.
pub line_diff_lcs_optimal :
    (old_str new_str : String) (ds : List DiffLine)
    → old_side ds ≡ to_lines old_str
    → new_side ds ≡ to_lines new_str
    → same_count ds ≤ same_count (line_diff_lcs old_str new_str)
unfolding line_diff_lcs same_count
line_diff_lcs_optimal old_str new_str ds eo en =
    let a = to_lines old_str in
    let b = to_lines new_str in
    omega (
      arith,
      same_count-le a b ds 0 0 0 (omega arith) (omega arith) (omega arith) (sym eo) (sym en),
      same_count-walk a b (length a + length b) (length a) (length b) [] (omega arith) (omega arith)
          (omega arith),
    )
