-- ===== src/Shared/Trim.antt =====
-- Trimming a text a second time changes nothing.
use openvpn_control_server.Shared.Tests.{if◌then◌else◌, Bool-cases}
use openvpn_control_server.Shared.Text.{
  is_space, trim_start, trim_end, trim, is_empty, append, nonempty_only,
}
use Prim.Native.Char.{Char, code}
use Prim.Native.String.{String}
use mathlib.Core.Path.{◌≡◌, refl, ap, sym, ◌∙◌}
use mathlib.Core.Logic.{◌⊎◌, inl, inr}
use mathlib.Core.Bool.{false, ◌&&◌}
use mathlib.Core.List.{List, [], ◌∷◌, map}
use native.Mathlib.Omega.{arith}

trim_end-cons :
    (c : Char) (s : String)
    → trim_end (String.◌∷◌ c s)
      ≡ (if is_space (code c) && is_empty (trim_end s) then "" else String.◌∷◌ c (trim_end s))
unfolding trim_end
trim_end-cons c s = refl

trim_end_idem : (s : String) → trim_end (trim_end s) ≡ trim_end s
trim_end_idem String.[] = unfold trim_end in refl
trim_end_idem (String.◌∷◌ c s) = elim (Bool-cases (is_space (code c) && is_empty (trim_end s))) [
  | inl e ↦ rw (trim_end-cons c s, e) nil
  | inr e ↦ rw (trim_end-cons c s, e, trim_end-cons c (trim_end s), trim_end_idem s, e)
]
  where
    nil : trim_end "" ≡ ""
    nil = unfold trim_end in refl

-- What `trim_start` leaves is empty or begins with no white space.
trim_start-cases :
    (s : String)
    → (trim_start s ≡ "")
      ⊎ ((c : Char) × (r : String) × (trim_start s ≡ String.◌∷◌ c r) × (is_space (code c) ≡ false))
unfolding trim_start
trim_start-cases String.[] = inl refl
trim_start-cases (String.◌∷◌ c s) = elim (Bool-cases (is_space (code c))) [
  | inl e ↦ rw e (trim_start-cases s)
  | inr e ↦ rw e (inr (c, s, refl, e))
]

solid-trim_end :
    (c : Char) (r : String)
    → is_space (code c) ≡ false
    → trim_end (String.◌∷◌ c r) ≡ String.◌∷◌ c (trim_end r)
solid-trim_end c r solid = rw (trim_end-cons c r, solid)

solid-trim :
    (c : Char) (r : String)
    → is_space (code c) ≡ false
    → trim (String.◌∷◌ c r) ≡ String.◌∷◌ c (trim_end r)
unfolding trim trim_start
solid-trim c r solid = rw solid (solid-trim_end c r solid)

trim_lem : (s : String) → trim s ≡ trim_end (trim_start s)
unfolding trim
trim_lem s = refl

pub trim_idem : (s : String) → trim (trim s) ≡ trim s
trim_idem s = elim (trim_start-cases s) [
  | inl e ↦ rw (trim_lem s, e) (unfold trim in refl)
  | inr (c, r, e, solid) ↦
      rw (trim_lem s, e, solid-trim_end c r solid, solid-trim c (trim_end r) solid, trim_end_idem r)
]

trim_end-trim : (s : String) → trim_end (trim s) ≡ trim s
trim_end-trim s = rw (trim_lem s) (trim_end_idem (trim_start s))

trim_end-append :
    (s t : String) → trim_end t ≡ t → is_empty t ≡ false → trim_end (append s t) ≡ append s t
trim_end-append String.[] t e n = e
trim_end-append (String.◌∷◌ c s) t e n =
    rw (trim_end-cons c (append s t), trim_end-append s t e n)
      (ground (arith, is_empty-after s t n))
  where
    is_empty-after : (s t : String) → is_empty t ≡ false → is_empty (append s t) ≡ false
    is_empty-after String.[] t n = n
    is_empty-after (String.◌∷◌ d s) t n = refl

-- A text that begins with a character that is no space and ends with a trimmed one is trimmed.
pub trim-append :
    (c : Char) (s t : String)
    → is_space (code c) ≡ false
    → trim t ≡ t
    → is_empty t ≡ false
    → trim (String.◌∷◌ c (append s t)) ≡ String.◌∷◌ c (append s t)
trim-append c s t solid e n = rw (
  solid-trim c (append s t) solid,
  trim_end-append s t (ap trim_end (sym e) ∙ trim_end-trim t ∙ e) n,
)

-- Keeping the trimmed lines that are not empty is done by once.
pub nonempty_trim_idem :
    (xs : List String)
    → nonempty_only (map trim (nonempty_only (map trim xs))) ≡ nonempty_only (map trim xs)
nonempty_trim_idem [] = refl
nonempty_trim_idem (x ∷ xs) = elim (Bool-cases (is_empty (trim x))) [
  | inl e ↦ rw e (nonempty_trim_idem xs)
  | inr e ↦ rw (e, trim_idem x, e, nonempty_trim_idem xs)
]
