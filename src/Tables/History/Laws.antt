-- ===== src/Tables/History/Laws.antt =====
-- The logs are shown newest first, and a search hides no row that it finds.
use openvpn_control_server.Shared.{
  ◌≡◌, refl, ◌↔◌, ℕ, Bool, true, ◌||◌, List, Option, String, is_empty, trim, sort, leb, IsPreorder,
  IsSorted, IsSorted-weaken, sort-IsSorted, in-sort_iff, in-filter_iff, ◌∈◌, arith, Bool-cases, inl,
  inr,
}
use openvpn_control_server.Tables.History.{
  HistoryRow, date_ms_or_zero, by_last_seen, by_created, sort_rows_by_last_seen_desc, is_found,
  logs_found,
}

in-logs_found_iff :
    {A : Type 0} (to_lower : String → String) (includes : String → String → Bool)
    (parts : A → List String) (search : String) (items : List A) (item : A)
    → (item ∈ logs_found to_lower includes parts search items) ↔ (
        (item ∈ items)
        × (is_empty (to_lower (trim search))
              || is_found to_lower includes parts (to_lower (trim search)) item
            ≡ true))
unfolding logs_found
in-logs_found_iff to_lower includes parts search items item =
    let q = to_lower (trim search) in
    elim (Bool-cases (is_empty q)) [
      | inl e ↦ rw e (λ h. (h, refl), λ h. h.0)
      | inr e ↦ rw e (in-filter_iff (is_found to_lower includes parts q) item items)
    ]

-- The row was seen last no earlier than the other.
abbrev pub newer : (String → Option ℕ) → HistoryRow → HistoryRow → Bool
newer date_ms a b =
    leb (date_ms_or_zero date_ms b.last_seen_at) (date_ms_or_zero date_ms a.last_seen_at)

module _ (date_ms : String → Option ℕ) (collate : String → String → Bool)
    (order : IsPreorder collate) where
  by_last_seen-IsPreorder : IsPreorder (by_last_seen date_ms collate)
  by_last_seen-IsPreorder = record {
    total = λ a b h. ground (arith, order.total a.id b.id);
    trans = λ a b c h k. ground (arith, order.trans a.id b.id c.id);
  }

  by_created-IsPreorder : IsPreorder (by_created date_ms collate)
  by_created-IsPreorder = record {
    total = λ a b h. ground (arith, order.total a.id b.id);
    trans = λ a b c h k. ground (arith, order.trans a.id b.id c.id);
  }

  -- A log of addresses shows the rows that were seen last first, and of a search exactly the rows
  -- that it finds, all of them where it is empty, where the order of ids is total and transitive.
  pub sort_rows_by_last_seen_desc-IsSorted :
      (to_lower : String → String) (includes : String → String → Bool)
      (parts : HistoryRow → List String) (search : String) (items : List HistoryRow)
      (item : HistoryRow)
      → IsSorted (newer date_ms) (
          sort_rows_by_last_seen_desc date_ms collate
            (logs_found to_lower includes parts search items))
        × ((item
              ∈ sort_rows_by_last_seen_desc date_ms collate
                  (logs_found to_lower includes parts search items))
            ↔ ((item ∈ items)
                × (is_empty (to_lower (trim search))
                      || is_found to_lower includes parts (to_lower (trim search)) item
                    ≡ true)))
  unfolding sort_rows_by_last_seen_desc logs_found
  sort_rows_by_last_seen_desc-IsSorted to_lower includes parts search items item =
      let by = by_last_seen date_ms collate in
      let found : List HistoryRow = logs_found to_lower includes parts search items in
      (
        IsSorted-weaken by (newer date_ms) (λ a b h. ground arith) (sort by found)
            (sort-IsSorted by by_last_seen-IsPreorder found),
        ground (
          arith,
          in-sort_iff by item found,
          in-logs_found_iff to_lower includes parts search items item,
        ),
      )
