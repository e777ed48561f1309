-- ===== src/Tables/Reorder/Moves.antt =====
-- Both directions in which a row is moved by `reorderRowInList` of frontend/src/App.tsx.
use openvpn_control_server.Shared.{◌≡◌, ◌≢◌, Bool, List, ◌∷◌, ◌++◌, if◌then◌else◌}
use openvpn_control_server.Tables.Reorder.{Row, reorder_row_in_list}
use openvpn_control_server.Tables.Reorder.Laws.{
  HasNo, reorder_row_in_list_down, reorder_row_in_list_up,
}

-- A row that is dragged onto another, down or up, comes to stand just before or just after it,
-- and every other row keeps its place in the order, where the two ids are not empty, differ, and
-- are those of no row above the lower of the two but themselves.
pub reorder_row_in_list_move :
    {A : Type 0} (d t : Row A) (above between below : List (Row A)) (place_after : Bool)
    → d.id ≢ ""
    → t.id ≢ ""
    → d.id ≢ t.id
    → HasNo d.id above
    → HasNo t.id above
    → HasNo d.id between
    → HasNo t.id between
    → (reorder_row_in_list (above ++ d ∷ (between ++ t ∷ below)) d.id t.id place_after
        ≡ above ++ (between ++ (if place_after then t ∷ d ∷ below else d ∷ t ∷ below)))
      × (reorder_row_in_list (above ++ t ∷ (between ++ d ∷ below)) d.id t.id place_after
          ≡ above
            ++ (if place_after then t ∷ d ∷ (between ++ below) else d ∷ t ∷ (between ++ below)))
reorder_row_in_list_move d t above between below place_after nd nt ne ha hta hdb htb = (
  reorder_row_in_list_down d t above between below place_after nd nt ne ha hta htb,
  reorder_row_in_list_up d t above between below place_after nd nt ne hta ha hdb,
)
