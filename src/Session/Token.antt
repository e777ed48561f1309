-- ===== src/Session/Token.antt =====
-- Tokens: `parseJwtPayload` and `readStoredTokenIfValid` of frontend/src/App.tsx.
pub mod Base64
use openvpn_control_server.Shared.{
  ℕ, zero, suc, ◌-◌, ◌*◌, ◌%◌, Bool, true, false, ◌||◌, Option, none, some, String, Char, code,
  append, is_empty, split_on, get_elem?, eqb, leb, if◌then◌else◌,
}

-- `s.length`
abbrev pub text_length : String → ℕ
text_length String.[] = 0
text_length (String.◌∷◌ c s) = suc (text_length s)

-- `s.replace(/x/g, c)` for a character `x`, given by its code.
unfoldable pub replace_all : ℕ → Char → String → String
replace_all x c String.[] = ""
replace_all x c (String.◌∷◌ d s) =
    let rest = replace_all x c s in if eqb (code d) x then String.◌∷◌ c rest else String.◌∷◌ d rest

-- `"==".slice(0, n)`
abbrev pub equals_signs : ℕ → String
equals_signs zero = ""
equals_signs (suc zero) = "="
equals_signs (suc (suc n)) = "=="

-- `token.split(".")[1]`, or nothing where it is not there or empty.
unfoldable pub payload_part : String → Option String
unfolding split_on
payload_part token = elim (get_elem? (split_on 46 token) 1) [
  | none ↦ none
  | some part ↦ if is_empty part then none else some part
]

-- The part in the alphabet of base64, with its padding.
unfoldable pub to_base64 : String → String
unfolding replace_all
to_base64 part =
    let base64 = replace_all 95 "/" (replace_all 45 "+" part) in
    append base64 (equals_signs ((4 - text_length base64 % 4) % 4))

-- What the code reads of a payload. A time of expiry that is no number is none.
pub record Claims : Type 0 where
  pub exp : Option ℕ
  pub sub : String

-- `decode` is `JSON.parse(atob(s))`, or nothing where one of them throws.
module _ (decode : String → Option Claims) where
  unfoldable pub parse_jwt_payload : String → Option Claims
  unfolding payload_part to_base64
  parse_jwt_payload token =
      if is_empty token
      then none
      else elim (payload_part token) [ none ↦ none | some part ↦ decode (to_base64 part) ]

  abbrev pub exp_of : Option Claims → Option ℕ
  exp_of none = none
  exp_of (some claims) = claims.exp

  -- `!expSec || Date.now() >= expSec * 1000`
  abbrev pub is_over : ℕ → Option ℕ → Bool
  is_over now none = true
  is_over now (some exp) = eqb exp 0 || leb (exp * 1000) now

  -- The token that is used, and what the storage holds afterwards.
  unfoldable pub read_stored_token_if_valid : ℕ → Option String → String × Option String
  unfolding parse_jwt_payload
  read_stored_token_if_valid now none = ("", none)
  read_stored_token_if_valid now (some t) =
      if is_empty t
      then ("", some t)
      else if is_over now (exp_of (parse_jwt_payload t))
      then ("", none)
      else (t, some t)
