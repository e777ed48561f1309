-- ===== src/Settings/Values.antt =====
-- The JavaScript values that settings hold, and the objects that hold them. An object is a list of
-- its own properties in the order of their insertion. Arrays hold strings, as those of the backend
-- do. Floating-point numbers are a parameter: `Numbers` is what the code uses of them.
pub mod Laws
use openvpn_control_server.Shared.{
  Bool, true, false, List, [], ◌∷◌, String, Option, none, some, ◌==◌, is_empty, join, trim,
  if◌then◌else◌,
}

-- The finite numbers, and what JavaScript makes of them.
pub record Numbers (N : Type 0) : Type 0 where
  -- `Number(s)`, or nothing where that is NaN or infinite.
  pub of_string : String → Option N
  -- `Number(b)`
  pub of_bool : Bool → N
  -- `String(n)`
  pub to_string : N → String
  pub trunc : N → N
  -- `n === 0`
  pub is_zero : N → Bool

pub data Value (N : Type 0) : Type 0 where
  undefined null : Value N
  bool : Bool → Value N
  num : N → Value N
  str : String → Value N
  arr : List String → Value N

module _ {N : Type 0} (ns : Numbers N) where
  -- `String(v)`
  unfoldable pub string_of : Value N → String
  unfolding join
  string_of undefined = "undefined"
  string_of null = "null"
  string_of (bool b) = if b then "true" else "false"
  string_of (num n) = ns.to_string n
  string_of (str s) = s
  string_of (arr ss) = join "," ss

  -- `Boolean(v)`
  unfoldable pub is_truthy : Value N → Bool
  is_truthy undefined = false
  is_truthy null = false
  is_truthy (bool b) = b
  is_truthy (num n) = if ns.is_zero n then false else true
  is_truthy (str s) = if is_empty s then false else true
  is_truthy (arr ss) = true

  -- `Number(v)` where that is finite, for a `v` that is neither undefined nor null.
  unfoldable pub number_of : Value N → Option N
  unfolding join
  number_of undefined = none
  number_of null = ns.of_string ""
  number_of (bool b) = some (ns.of_bool b)
  number_of (num n) = some n
  number_of (str s) = ns.of_string s
  number_of (arr ss) = ns.of_string (join "," ss)

  -- `String(v || "")`
  unfoldable pub text_or_empty : Value N → String
  unfolding string_of is_truthy
  text_or_empty v = if is_truthy v then string_of v else ""

module _ {N : Type 0} where
  -- `v === undefined || v === null`
  unfoldable pub is_nullish : Value N → Bool
  is_nullish undefined = true
  is_nullish null = true
  is_nullish _ = false

  -- `v === "" || v === undefined || v === null`
  unfoldable pub is_blank : Value N → Bool
  is_blank undefined = true
  is_blank null = true
  is_blank (str s) = is_empty s
  is_blank _ = false

-- `o[k]`
unfoldable pub get : {N : Type 0} → String → List (String × Value N) → Value N
get k [] = undefined
get k ((j, v) ∷ o) = if j == k then v else get k o

-- `Object.prototype.hasOwnProperty.call(o, k)`
unfoldable pub has : {N : Type 0} → String → List (String × Value N) → Bool
has k [] = false
has k ((j, v) ∷ o) = if j == k then true else has k o

-- `o[k] = v`
unfoldable pub put :
    {N : Type 0} → String → Value N → List (String × Value N) → List (String × Value N)
put k v [] = (k, v) ∷ []
put k v ((j, w) ∷ o) = if j == k then (k, v) ∷ o else (j, w) ∷ put k v o

-- `delete o[k]`
unfoldable pub remove : {N : Type 0} → String → List (String × Value N) → List (String × Value N)
remove k [] = []
remove k ((j, v) ∷ o) = if j == k then remove k o else (j, v) ∷ remove k o
