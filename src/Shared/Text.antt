-- ===== src/Shared/Text.antt =====
-- Texts: what the source does with JavaScript strings, over the code points of a native string.
use Prim.Native.Nat.{ℕ}
use Prim.Native.Char.{Char, code}
use Prim.Native.String.{String}
use mathlib.Core.Path.{◌≡◌, refl}
use mathlib.Core.Logic.{◌≢◌, ◌↔◌}
use mathlib.Core.Bool.{Bool, true, false, ◌||◌, ◌&&◌}
use mathlib.Core.Option.{Option, none, some}
use mathlib.Core.List.{List, [], ◌∷◌}
use native.Mathlib.Omega.{arith}
use text.Mathlib.Text
use text.Mathlib.TextEquality.{eq_iff}
use openvpn_control_server.Shared.Tests.{eqb, leb, if◌then◌else◌}

-- `s === t`
infix 50 ◌==◌
abbrev pub ◌==◌ : String → String → Bool
s == t = Text.◌==◌ s t

-- `!s`
abbrev pub is_empty : String → Bool
is_empty String.[] = true
is_empty (String.◌∷◌ c s) = false

pub is_empty_iff : (s : String) → (is_empty s ≡ true) ↔ (s ≡ "")
is_empty_iff String.[] = ((λ _. refl), λ _. refl)
is_empty_iff (String.◌∷◌ c s) = ((λ h. cc), λ h. cc)

-- `s || d`
abbrev pub or_else : String → String → String
or_else String.[] d = d
or_else (String.◌∷◌ c s) d = String.◌∷◌ c s

-- Texts that are told apart.
pub apart : (s t : String) → (s == t) ≡ false → s ≢ t
apart s t h e = ground (arith, eq_iff s t)

pub or_else_full : (s d : String) → d ≢ "" → or_else s d ≢ ""
or_else_full String.[] d n = n
or_else_full (String.◌∷◌ c s) d n = λ e. cc

pub or_else_first : (s d : String) → s ≢ "" → or_else s d ≡ s
or_else_first String.[] d n = absurd (n refl)
or_else_first (String.◌∷◌ c s) d n = refl

-- `s + t`, by clauses, so that a literal `s` computes before a variable `t`.
abbrev pub append : String → String → String
append String.[] t = t
append (String.◌∷◌ c s) t = String.◌∷◌ c (append s t)

-- `List.filter(Boolean)` on strings.
abbrev pub nonempty_only : List String → List String
nonempty_only [] = []
nonempty_only (s ∷ ss) = if is_empty s then nonempty_only ss else s ∷ nonempty_only ss

-- `ss.join(sep)`
unfoldable pub join : String → List String → String
join sep [] = ""
join sep (s ∷ []) = s
join sep (s ∷ t ∷ ss) = append s (append sep (join sep (t ∷ ss)))

abbrev cons_head : Char → List String → List String
cons_head c [] = String.◌∷◌ c "" ∷ []
cons_head c (s ∷ ss) = String.◌∷◌ c s ∷ ss

-- `s.split(sep)` for a separator of one character, given by its code.
unfoldable pub split_on : ℕ → String → List String
split_on sep String.[] = "" ∷ []
split_on sep (String.◌∷◌ c s) =
    if eqb (code c) sep then "" ∷ split_on sep s else cons_head c (split_on sep s)

-- The texts before and after the first character of that code, where there is one.
unfoldable pub cut : ℕ → String → Option (String × String)
cut x String.[] = none
cut x (String.◌∷◌ c s) =
    let rest = cut x s in
    if eqb (code c) x
    then some ("", s)
    else elim rest [ none ↦ none | some (a, b) ↦ some (String.◌∷◌ c a, b) ]

-- `s` without `p` at its start, where it begins so.
unfoldable pub after_prefix : String → String → Option String
after_prefix String.[] s = some s
after_prefix (String.◌∷◌ c p) String.[] = none
after_prefix (String.◌∷◌ c p) (String.◌∷◌ d s) =
    let rest = after_prefix p s in if eqb (code c) (code d) then rest else none

-- `s.replace(/x+$/, "")` for a character `x`, given by its code.
unfoldable pub strip_end : ℕ → String → String
strip_end x String.[] = ""
strip_end x (String.◌∷◌ c s) =
    let rest = strip_end x s in if eqb (code c) x && is_empty rest then "" else String.◌∷◌ c rest

-- The white space and line ends of `String.prototype.trim`.
unfoldable pub is_space : ℕ → Bool
is_space n =
    (leb 9 n && leb n 13)
    || eqb n 32
    || eqb n 0xa0
    || eqb n 0x1680
    || (leb 0x2000 n && leb n 0x200a)
    || eqb n 0x2028
    || eqb n 0x2029
    || eqb n 0x202f
    || eqb n 0x205f
    || eqb n 0x3000
    || eqb n 0xfeff

unfoldable pub trim_start : String → String
unfolding is_space
trim_start String.[] = ""
trim_start (String.◌∷◌ c s) = if is_space (code c) then trim_start s else String.◌∷◌ c s

unfoldable pub trim_end : String → String
unfolding is_space
trim_end String.[] = ""
trim_end (String.◌∷◌ c s) =
    let rest = trim_end s in if is_space (code c) && is_empty rest then "" else String.◌∷◌ c rest

unfoldable pub trim : String → String
unfolding trim_start trim_end
trim s = trim_end (trim_start s)

-- The text has no character of that code.
abbrev pub IsFree : ℕ → String → Type 0
IsFree x String.[] = Unit
IsFree x (String.◌∷◌ c s) = (code c ≢ x) × IsFree x s

pub split_on_free : (x : ℕ) (s : String) → IsFree x s → split_on x s ≡ s ∷ []
unfolding split_on
split_on_free x String.[] h = refl
split_on_free x (String.◌∷◌ c s) h = ground (arith, split_on_free x s h.1)

pub split_on-append :
    (x : ℕ) (s : String) (c : Char) (t : String)
    → IsFree x s
    → code c ≡ x
    → split_on x (append s (String.◌∷◌ c t)) ≡ s ∷ split_on x t
unfolding split_on
split_on-append x String.[] c t h e = ground arith
split_on-append x (String.◌∷◌ d s) c t h e = ground (arith, split_on-append x s c t h.1 e)

pub strip_end_free : (x : ℕ) (s : String) → IsFree x s → strip_end x s ≡ s
unfolding strip_end
strip_end_free x String.[] h = refl
strip_end_free x (String.◌∷◌ c s) h = ground (arith, strip_end_free x s h.1)

pub is_empty-append : (s t : String) → t ≢ "" → is_empty (append s t) ≡ false
is_empty-append String.[] String.[] n = absurd (n refl)
is_empty-append String.[] (String.◌∷◌ c t) n = refl
is_empty-append (String.◌∷◌ d s) t n = refl

pub strip_end-append :
    (x : ℕ) (s t : String) → strip_end x t ≡ t → t ≢ "" → strip_end x (append s t) ≡ append s t
unfolding strip_end
strip_end-append x String.[] t e n = e
strip_end-append x (String.◌∷◌ c s) t e n =
    rw (strip_end-append x s t e n) (ground (arith, is_empty-append s t n))

pub IsFree-append : (x : ℕ) (s t : String) → IsFree x s → IsFree x t → IsFree x (append s t)
IsFree-append x String.[] t h k = k
IsFree-append x (String.◌∷◌ c s) t h k = (h.0, IsFree-append x s t h.1 k)

pub cut-append :
    (x : ℕ) (a : String) (c : Char) (b : String)
    → IsFree x a
    → code c ≡ x
    → cut x (append a (String.◌∷◌ c b)) ≡ some (a, b)
unfolding cut
cut-append x String.[] c b h e = ground arith
cut-append x (String.◌∷◌ d a) c b h e = rw (cut-append x a c b h.1 e) (ground arith)
