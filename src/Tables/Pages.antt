-- ===== src/Tables/Pages.antt =====
-- `sliceTablePage` of frontend/src/App.tsx: the rows of one page of a table.
pub mod Laws
use openvpn_control_server.Shared.{ℕ, ◌+◌, ◌-◌, ◌*◌, ◌/◌, min, max, List, length, take, drop}

abbrev pub table_page_size : ℕ
table_page_size = 25

pub record TablePage (A : Type 0) : Type 0 where
  pub slice : List A
  pub total : ℕ
  pub total_pages : ℕ
  pub page : ℕ

-- `Math.ceil(n / TABLE_PAGE_SIZE)`
unfoldable pub ceil_pages : ℕ → ℕ
ceil_pages n = (n + 24) / 25

module _ {A : Type 0} where
  -- A page number below 1 and above the last page is moved to the nearest page.
  unfoldable pub slice_table_page : List A → ℕ → TablePage A
  unfolding ceil_pages
  slice_table_page items page =
      let total = length items in
      let total_pages = max 1 (ceil_pages total) in
      let p = min (max 1 page) total_pages in
      let start = (p - 1) * table_page_size in
      record {
        slice = take table_page_size (drop start items);
        total = total;
        total_pages = total_pages;
        page = p;
      }

-- The first and the last row number that `TablePagination` shows.
unfoldable pub page_from : ℕ → ℕ
page_from page = (page - 1) * table_page_size + 1

unfoldable pub page_to : ℕ → ℕ → ℕ
page_to page total = min (page * table_page_size) total
