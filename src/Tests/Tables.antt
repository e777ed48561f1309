-- ===== src/Tests/Tables.antt =====
-- A table of four rules, and a table of three rows on one page.
use openvpn_control_server.Shared.{apart, ℕ, ◌≡◌, refl, true, List, [], ◌∷◌, ◌++◌, String}
use openvpn_control_server.Tables.Reorder.{Row, reorder_row_in_list}
use openvpn_control_server.Tables.Reorder.Moves.{reorder_row_in_list_move}
use openvpn_control_server.Tables.Pages.{slice_table_page}
use openvpn_control_server.Tables.Pages.Laws.{pages, pages_all}

abbrev rule : String → ℕ → Row ℕ
rule i n = record { id = i; content = n }

abbrev items : List ℕ
items = 7 ∷ 8 ∷ 9 ∷ []

pages_all_example : pages items (slice_table_page items 1).total_pages ≡ items
pages_all_example = pages_all items

reorder_row_in_list_move_example :
    (reorder_row_in_list
        ((rule "a" 1 ∷ []) ++ rule "b" 2 ∷ ((rule "c" 3 ∷ []) ++ rule "d" 4 ∷ []))
        "b"
        "d"
        true
      ≡ (rule "a" 1 ∷ []) ++ ((rule "c" 3 ∷ []) ++ (rule "d" 4 ∷ rule "b" 2 ∷ [])))
    × (reorder_row_in_list
          ((rule "a" 1 ∷ []) ++ rule "d" 4 ∷ ((rule "c" 3 ∷ []) ++ rule "b" 2 ∷ []))
          "b"
          "d"
          true
        ≡ (rule "a" 1 ∷ []) ++ (rule "d" 4 ∷ rule "b" 2 ∷ ((rule "c" 3 ∷ []) ++ [])))
reorder_row_in_list_move_example =
    reorder_row_in_list_move (rule "b" 2) (rule "d" 4) (rule "a" 1 ∷ []) (rule "c" 3 ∷ []) [] true
      (apart "b" "" refl) (apart "d" "" refl) (apart "b" "d" refl) (apart "a" "b" refl, tt)
      (apart "a" "d" refl, tt) (apart "c" "b" refl, tt) (apart "c" "d" refl, tt)
