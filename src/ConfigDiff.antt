-- ===== src/ConfigDiff.antt =====
-- The line diff of configuration drafts, `lineDiffLcs` and `rawConfigFromServerSettingsDiff` of
-- frontend/src/App.tsx.
pub mod Script
pub mod Table
pub mod Optimal
use openvpn_control_server.Shared.{
  ℕ, zero, suc, ◌+◌, ◌-◌, max, Bool, true, false, ◌&&◌, ◌||◌, List, [], ◌∷◌, String, Char, code,
  ◌==◌, eqb, leb, ltb, length, get_or, replicate, join, split_on, is_empty, if◌then◌else◌,
}

pub data DiffLine : Type 0 where
  same add del : String → DiffLine

-- `s.replace(/\r\n/g, "\n")`
unfoldable pub replace_crlf : String → String
replace_crlf String.[] = ""
replace_crlf (String.◌∷◌ c String.[]) = String.◌∷◌ c ""
replace_crlf (String.◌∷◌ c (String.◌∷◌ d s)) =
    let rest = replace_crlf (String.◌∷◌ d s) in
    if eqb (code c) 13 && eqb (code d) 10 then rest else String.◌∷◌ c rest

-- The empty lines at the end are dropped.
unfoldable pub drop_empty_end : List String → List String
drop_empty_end [] = []
drop_empty_end (l ∷ ls) = keep l (drop_empty_end ls)
  where
    keep : String → List String → List String
    keep l [] = if is_empty l then [] else l ∷ []
    keep l (k ∷ ks) = l ∷ k ∷ ks

unfoldable pub to_lines : String → List String
unfolding replace_crlf drop_empty_end
to_lines v = drop_empty_end (split_on 10 (replace_crlf v))

-- The cells 1, 2, … of a row of the table: `left` is the cell before, `above` the row above from
-- one cell earlier on. Each cell is written once, after the cells that it is computed from.
unfoldable pub cells : String → ℕ → List ℕ → List String → List ℕ
cells x left (p ∷ q ∷ above) (y ∷ ys) =
    let c = if x == y then p + 1 else max q left in c ∷ cells x c (q ∷ above) ys
cells x left _ _ = []

unfoldable pub next_row : String → List ℕ → List String → List ℕ
next_row x above b = 0 ∷ cells x 0 above b

unfoldable pub rows : List ℕ → List String → List String → List (List ℕ)
rows row [] b = row ∷ []
rows row (x ∷ xs) b = row ∷ rows (next_row x row b) xs b

-- `dp`, of `a.length + 1` rows and `b.length + 1` columns.
unfoldable pub dp_table : List String → List String → List (List ℕ)
dp_table a b = rows (replicate (length b + 1) 0) a b

-- `dp[i][j]`
abbrev pub cell : List (List ℕ) → ℕ → ℕ → ℕ
cell dp i j = get_or (get_or dp i []) j 0

-- The loop that walks back through the table, its tests `i > 0` and `j > 0` by clauses. `out` is
-- held in the order of the result, so that its `push` is `∷` here and its `reverse` is not needed.
module _ (dp : List (List ℕ)) (a b : List String) where
  unfoldable pub walk : ℕ → ℕ → ℕ → List DiffLine → List DiffLine
  walk zero i j out = out
  walk (suc fuel) zero zero out = out
  walk (suc fuel) zero (suc j) out = walk fuel zero j (add (get_or b j "") ∷ out)
  walk (suc fuel) (suc i) zero out = walk fuel i zero (del (get_or a i "") ∷ out)
  walk (suc fuel) (suc i) (suc j) out =
      let kept = walk fuel i j (same (get_or a i "") ∷ out) in
      let added = walk fuel (suc i) j (add (get_or b j "") ∷ out) in
      let deleted = walk fuel i (suc j) (del (get_or a i "") ∷ out) in
      if get_or a i "" == get_or b j ""
      then kept
      else if leb (cell dp i (suc j)) (cell dp (suc i) j)
      then added
      else deleted

-- The two loops on lines; `a.length + b.length` rounds are enough.
unfoldable pub diff_lines : List String → List String → List DiffLine
unfolding walk dp_table
diff_lines a b = walk (dp_table a b) a b (length a + length b) (length a) (length b) []

unfoldable pub line_diff_lcs : String → String → List DiffLine
unfolding diff_lines to_lines
line_diff_lcs old_str new_str = diff_lines (to_lines old_str) (to_lines new_str)

-- The lines that a diff does not delete.
unfoldable pub new_side : List DiffLine → List String
new_side [] = []
new_side (same l ∷ ds) = l ∷ new_side ds
new_side (add l ∷ ds) = l ∷ new_side ds
new_side (del l ∷ ds) = new_side ds

unfoldable pub raw_config_from_server_settings_diff : List DiffLine → String
unfolding new_side join
raw_config_from_server_settings_diff diff = join "\n" (new_side diff)
