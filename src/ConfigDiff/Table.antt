-- ===== src/ConfigDiff/Table.antt =====
-- The table of `lineDiffLcs` holds the lengths of longest common subsequences.
use native.Mathlib.Numerals.{add-one}
use openvpn_control_server.Shared.{
  ℕ, zero, suc, ◌+◌, ◌≤◌, max, ◌≡◌, refl, ap, ◌∙◌, List, [], ◌∷◌, String, arith, ◌==◌, length,
  get_or, get_or-drop, drop, drop-suc, replicate, if◌then◌else◌,
}
use openvpn_control_server.ConfigDiff.{cells, next_row, rows, dp_table, cell}

cells_lem :
    (x : String) (left p q : ℕ) (above : List ℕ) (y : String) (ys : List String) (c : ℕ)
    → (if x == y then p + 1 else max q left) ≡ c
    → cells x left (p ∷ q ∷ above) (y ∷ ys) ≡ c ∷ cells x c (q ∷ above) ys
unfolding cells
cells_lem x left p q above y ys c e = rw e

module _ (a b : List String) where
  -- The greatest number of lines that the first `i` lines of `a` and the first `j` lines of `b`
  -- have in common, in their order.
  unfoldable pub lcs : ℕ → ℕ → ℕ
  lcs zero j = 0
  lcs (suc i) zero = 0
  lcs (suc i) (suc j) =
      if get_or a i "" == get_or b j "" then lcs i j + 1 else max (lcs i (suc j)) (lcs (suc i) j)

  pub lcs-zero : (i : ℕ) → lcs i zero ≡ 0
  unfolding lcs
  lcs-zero zero = refl
  lcs-zero (suc i) = refl

  -- The cells of row `i` from column `j` on, one more than there are lines in `ys`.
  row_tail : ℕ → ℕ → List String → List ℕ
  row_tail i j [] = []
  row_tail i j (y ∷ ys) = lcs i (suc j) ∷ row_tail i (suc j) ys

  row : ℕ → ℕ → List String → List ℕ
  unfolding row_tail
  row i j ys = lcs i j ∷ row_tail i j ys

  pub zero-lcs : (j : ℕ) → lcs zero j ≡ 0
  unfolding lcs
  zero-lcs j = refl

  pub lcs-suc :
      (i j : ℕ)
      → lcs (suc i) (suc j) ≡ (
          if get_or a i "" == get_or b j ""
          then lcs i j + 1
          else max (lcs i (suc j)) (lcs (suc i) j))
  unfolding lcs
  lcs-suc i j = refl

  cells-row_tail :
      (x : String) (i j : ℕ) (ys : List String)
      → get_or a i "" ≡ x
      → drop j b ≡ ys
      → cells x (lcs (suc i) j) (row i j ys) ys ≡ row_tail (suc i) j ys
  unfolding cells row
  cells-row_tail x i j [] ex ey = refl
  cells-row_tail x i j (y ∷ ys) ex ey =
      cells_lem x (lcs (suc i) j) (lcs i j) (lcs i (suc j)) (row_tail i (suc j) ys) y ys
        (lcs (suc i) (suc j)) here
      ∙ ap (λ t. lcs (suc i) (suc j) ∷ t) (cells-row_tail x i (suc j) ys ex (drop-suc j b ys y ey))
    where
      here :
          (if x == y then lcs i j + 1 else max (lcs i (suc j)) (lcs (suc i) j))
          ≡ lcs (suc i) (suc j)
      here = rw (lcs-suc i j, ex, get_or-drop j b ys y "" ey)

  next_row-row :
      (x : String) (i : ℕ) → get_or a i "" ≡ x → next_row x (row i 0 b) b ≡ row (suc i) 0 b
  unfolding next_row row lcs
  next_row-row x i ex = ap (λ t. 0 ∷ t) (cells-row_tail x i 0 b ex refl)

  rows-row :
      (i k : ℕ) (xs : List String)
      → drop i a ≡ xs
      → k ≤ length xs
      → get_or (rows (row i 0 b) xs b) k [] ≡ row (i + k) 0 b
  unfolding rows
  rows-row i zero [] e h = ap (λ n. row n 0 b) (omega arith)
  rows-row i (suc k) [] e h = absurd (omega arith)
  rows-row i zero (x ∷ xs) e h = ap (λ n. row n 0 b) (omega arith)
  rows-row i (suc k) (x ∷ xs) e h = rw (next_row-row x i (get_or-drop i a xs x "" e)) (
      rows-row (suc i) k xs (drop-suc i a xs x e) (omega arith) ∙ ap (λ n. row n 0 b) (omega arith))

  get_or-row :
      (i j k : ℕ) (ys : List String) → k ≤ length ys → get_or (row i j ys) k 0 ≡ lcs i (j + k)
  unfolding row
  get_or-row i j zero ys h = ap (λ n. lcs i n) (omega arith)
  get_or-row i j (suc k) [] h = absurd (omega arith)
  get_or-row i j (suc k) (y ∷ ys) h =
      get_or-row i (suc j) k ys (omega arith) ∙ ap (λ n. lcs i n) (omega arith)

  row-zero : (j : ℕ) (ys : List String) → row 0 j ys ≡ replicate (suc (length ys)) 0
  unfolding row lcs
  row-zero j [] = refl
  row-zero j (y ∷ ys) = ap (λ t. 0 ∷ t) (row-zero (suc j) ys)

  -- Each cell of the table is the greatest number of common lines of the two prefixes that it
  -- stands for.
  pub dp_table-lcs : (i j : ℕ) → i ≤ length a → j ≤ length b → cell (dp_table a b) i j ≡ lcs i j
  unfolding dp_table
  dp_table-lcs i j hi hj =
      rw (add-one, ← row-zero 0 b, rows-row 0 i a refl hi, get_or-row (0 + i) 0 j b hj)
        (ap (λ n. lcs n (0 + j)) (omega arith) ∙ ap (λ n. lcs i n) (omega arith))
