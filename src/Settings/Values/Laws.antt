-- ===== src/Settings/Values/Laws.antt =====
-- Reading an object after a write or a deletion.
use text.Mathlib.TextEquality.{eq_iff}
use openvpn_control_server.Shared.{◌≡◌, refl, List, [], ◌∷◌, String, ◌==◌, if◌then◌else◌, arith}
use openvpn_control_server.Settings.Values.{Value, undefined, get, put, remove}

module _ {N : Type 0} where
  pub get-put :
      (j k : String) (v : Value N) (o : List (String × Value N))
      → get j (put k v o) ≡ (if k == j then v else get j o)
  unfolding get put
  get-put j k v [] = refl
  get-put j k v ((i, w) ∷ o) = ground (arith, eq_iff k j, eq_iff i k, eq_iff i j, get-put j k v o)

  pub get-remove :
      (j k : String) (o : List (String × Value N))
      → get j (remove k o) ≡ (if k == j then undefined else get j o)
  unfolding get remove
  get-remove j k [] = ground arith
  get-remove j k ((i, w) ∷ o) = ground (arith, eq_iff k j, eq_iff i k, eq_iff i j, get-remove j k o)
