-- ===== src/Session/Token/Base64.antt =====
-- A payload part is read as the base64 text that it was made of.
use openvpn_control_server.Shared.{
  ◌≡◌, ◌≢◌, refl, ap, ◌∙◌, ℕ, ◌-◌, ◌%◌, false, List, ◌∷◌, Option, some, String, Char, code, append,
  is_empty, is_empty-append, split_on, split_on-append, IsFree, eqb, eqb_iff, is_empty_iff,
  Bool-cases, inl, inr, arith,
}
use text.Mathlib.TextEquality.{Char-path}
use openvpn_control_server.Session.Token.{
  Claims, parse_jwt_payload, text_length, replace_all, equals_signs, payload_part, to_base64,
}

-- `btoa` gives a text in the alphabet of base64 (letters, digits, `+` and `/`) and, where its
-- length asks for them, `=` at the end; a token has `-` and `_` in place of `+` and `/`, and no `=`.
unfoldable pub to_url : String → String
unfolding replace_all
to_url body = replace_all 47 "_" (replace_all 43 "-" body)

-- The characters that a token's payload is made of before it is written for a URL.
abbrev pub IsBase64 : String → Type 0
IsBase64 body = IsFree 45 body × IsFree 95 body × IsFree 46 body

replace_all-IsFree :
    (x y : ℕ) (c : Char) (s : String) → IsFree y s → code c ≢ y → IsFree y (replace_all x c s)
unfolding replace_all
replace_all-IsFree x y c String.[] h n = tt
replace_all-IsFree x y c (String.◌∷◌ d s) h n = ground (arith, replace_all-IsFree x y c s h.1 n)

text_length-replace_all :
    (x : ℕ) (c : Char) (s : String) → text_length (replace_all x c s) ≡ text_length s
unfolding replace_all
text_length-replace_all x c String.[] = refl
text_length-replace_all x c (String.◌∷◌ d s) = ground (arith, text_length-replace_all x c s)

-- A replacement by a character that the text does not have is undone by the opposite one.
replace_all-back :
    (x y : ℕ) (c d : Char) (s : String)
    → code c ≡ y
    → code d ≡ x
    → IsFree y s
    → replace_all y d (replace_all x c s) ≡ s
unfolding replace_all
replace_all-back x y c d String.[] p q h = refl
replace_all-back x y c d (String.◌∷◌ e s) p q h = elim (Bool-cases (eqb (code e) x)) [
  | inl t ↦
      let same : d ≡ e = Char-path d e (ground (arith, eqb_iff (code e) x)) in
      rw (t, (eqb_iff (code c) y).1 p, replace_all-back x y c d s p q h.1, same) refl
  | inr t ↦
      let other : eqb (code e) y ≡ false = ground (arith, h.0) in
      rw (t, other, replace_all-back x y c d s p q h.1) refl
]

-- Two replacements that do not meet may be swapped.
replace_all-swap :
    (x y : ℕ) (c d : Char) (s : String)
    → x ≢ y
    → code c ≢ y
    → code d ≢ x
    → replace_all y d (replace_all x c s) ≡ replace_all x c (replace_all y d s)
unfolding replace_all
replace_all-swap x y c d String.[] p q r = refl
replace_all-swap x y c d (String.◌∷◌ e s) p q r = ground (arith, replace_all-swap x y c d s p q r)

-- The two replacements of one round undo the two of the other.
from_url-to_url :
    (s : String)
    → IsFree 45 s
    → IsFree 95 s
    → replace_all 95 "/" (replace_all 45 "+" (to_url s)) ≡ s
unfolding to_url
from_url-to_url s h k =
    let swap : replace_all 45 "+" (replace_all 47 "_" (replace_all 43 "-" s))
        ≡ replace_all 47 "_" (replace_all 45 "+" (replace_all 43 "-" s)) =
      replace_all-swap 47 45 "_" "+" (replace_all 43 "-" s) (omega arith) (omega arith)
        (omega arith) in
    ap (replace_all 95 "/")
      (swap ∙ ap (replace_all 47 "_") (replace_all-back 43 45 "-" "+" s refl refl h))
    ∙ replace_all-back 47 95 "_" "/" s refl refl k

is_empty-to_url : (s : String) → is_empty (to_url s) ≡ is_empty s
unfolding to_url replace_all
is_empty-to_url String.[] = refl
is_empty-to_url (String.◌∷◌ c s) = ground arith

to_url-IsFree : (s : String) → IsFree 46 s → IsFree 46 (to_url s)
unfolding to_url
to_url-IsFree s h =
    replace_all-IsFree 47 46 "_" (replace_all 43 "-" s)
      (replace_all-IsFree 43 46 "-" s h (omega arith)) (omega arith)

payload_part-second :
    (token a b : String) (rest : List String)
    → split_on 46 token ≡ a ∷ b ∷ rest
    → is_empty b ≡ false
    → payload_part token ≡ some b
unfolding payload_part
payload_part-second token a b rest e n = rw (payload_part, e, n)

-- A token of three parts, whose payload is `body` in the alphabet of URLs.
abbrev pub token_of : String → String → String → String
token_of header body signature =
    append header (append "." (append (to_url body) (append "." signature)))

to_base64-to_url :
    (body : String)
    → IsBase64 body
    → to_base64 (to_url body) ≡ append body (equals_signs ((4 - text_length body % 4) % 4))
unfolding to_base64
to_base64-to_url body b = rw (from_url-to_url body b.0 b.1) refl

-- The payload of a token of three parts is decoded from the base64 text that the token was made
-- of, with the padding that its length asks for, where the header has no dot and the text is not
-- empty and has no "-", "_" or dot.
pub parse_jwt_payload-token_of :
    (decode : String → Option Claims) (header body signature : String)
    → IsFree 46 header
    → IsBase64 body
    → body ≢ ""
    → parse_jwt_payload decode (token_of header body signature)
      ≡ decode (append body (equals_signs ((4 - text_length body % 4) % 4)))
unfolding parse_jwt_payload
parse_jwt_payload-token_of decode header body signature h b n =
    let rest : String = append (to_url body) (append "." signature) in
    let parts : split_on 46 (token_of header body signature)
        ≡ header ∷ to_url body ∷ split_on 46 signature =
      split_on-append 46 header "." rest h refl
      ∙ ap (λ ps. header ∷ ps)
          (split_on-append 46 (to_url body) "." signature (to_url-IsFree body b.2) refl) in
    let part : payload_part (token_of header body signature) ≡ some (to_url body) =
      payload_part-second (token_of header body signature) header (to_url body)
        (split_on 46 signature) parts (ground (arith, is_empty-to_url body, is_empty_iff body)) in
    rw (is_empty-append header (append "." rest) (λ e. cc), part, to_base64-to_url body b) refl
