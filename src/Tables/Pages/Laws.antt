-- ===== src/Tables/Pages/Laws.antt =====
-- The pages of a table hold its rows, each once and in their order.
use openvpn_control_server.Shared.{
  ℕ, zero, suc, ◌+◌, ◌-◌, ◌*◌, ◌/◌, ◌≤◌, min, max, List, [], ◌++◌, length, take, drop, length-take,
  length-drop, ◌≡◌, ap, ◌∙◌, arith, take-add, take_of_le, sym,
}
use openvpn_control_server.Tables.Pages.{slice_table_page, page_from, page_to}

module _ {A : Type 0} (items : List A) where
  -- The page shown exists; it holds as many rows as the caption under the table counts, at most
  -- twenty-five.
  pub slice_table_page_bounds :
      (page : ℕ)
      → (1 ≤ (slice_table_page items page).page)
        × ((slice_table_page items page).page ≤ (slice_table_page items page).total_pages)
        × (length (slice_table_page items page).slice + page_from (slice_table_page items page).page
            ≡ page_to (slice_table_page items page).page (length items) + 1)
        × (length (slice_table_page items page).slice ≤ 25)
  unfolding slice_table_page page_from page_to
  slice_table_page_bounds page =
      let start = (min (max 1 page) (max 1 ((length items + 24) / 25)) - 1) * 25 in
      let n = length-take 25 (drop start items) in
      let m = length-drop start items in
      (omega arith, omega arith, omega (arith, n, m), omega (arith, n))

  -- The rows of the first `n` pages.
  unfoldable pub pages : ℕ → List A
  pages zero = []
  pages (suc n) = pages n ++ (slice_table_page items (suc n)).slice

  pages-take : (n : ℕ) → n ≤ max 1 ((length items + 24) / 25) → pages n ≡ take (n * 25) items
  unfolding pages slice_table_page
  pages-take zero h = let e : 0 ≡ zero * 25 = omega arith in ap (λ k. take k items) e
  pages-take (suc n) h =
      let start : (min (max 1 (suc n)) (max 1 ((length items + 24) / 25)) - 1) * 25 ≡ n * 25 =
        omega arith in
      let next : suc n * 25 ≡ n * 25 + 25 = omega arith in
      rw (pages-take n (omega arith), start, next) (sym (take-add (n * 25) 25 items))

  -- The pages of a table, one after the other, are its rows.
  pub pages_all : pages (slice_table_page items 1).total_pages ≡ items
  unfolding slice_table_page
  pages_all =
      let n = max 1 ((length items + 24) / 25) in
      pages-take n (omega arith) ∙ take_of_le (n * 25) items (omega arith)
