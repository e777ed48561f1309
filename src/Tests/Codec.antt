-- ===== src/Tests/Codec.antt =====
-- A small percent-encoding: the six characters that part a URL and the apostrophe are written as `%` and a letter, and
-- every other as itself. It has what the routes rely on.
use text.Mathlib.TextEquality.{Char-path}
use openvpn_control_server.Shared.{
  ℕ, ◌≡◌, ◌≢◌, refl, ap, sym, ◌∙◌, ◌⊎◌, inl, inr, Bool, Bool-cases, true, false, ◌||◌, String, Char,
  code, some, append, eqb, if◌then◌else◌, IsFree, IsFree-append, subst, List, [], ◌∷◌, arith,
}
use openvpn_control_server.Routes.Url.{
  UrlPlatform, IsUrlPlatform, IsSafe, is_plain, IsSegment, All, path_of, text_of,
}
use openvpn_control_server.Routes.Reading.{escape_quotes_free}

unfoldable is_special : ℕ → Bool
is_special n = eqb n 37 || eqb n 47 || eqb n 63 || eqb n 35 || eqb n 38 || eqb n 61 || eqb n 39

abbrev letter_of : ℕ → Char
letter_of n =
    if eqb n 37
    then "a"
    else if eqb n 47
    then "b"
    else if eqb n 63
    then "c"
    else if eqb n 35
    then "d"
    else if eqb n 38
    then "e"
    else if eqb n 61
    then "f"
    else "g"

abbrev special_of : ℕ → Char
special_of n =
    if eqb n 97
    then "%"
    else if eqb n 98
    then "/"
    else if eqb n 99
    then "?"
    else if eqb n 100
    then "#"
    else if eqb n 101
    then "&"
    else if eqb n 102
    then "="
    else "'"

unfoldable encode : String → String
unfolding is_special
encode String.[] = ""
encode (String.◌∷◌ c s) =
    let rest = encode s in
    if is_special (code c)
    then String.◌∷◌ "%" (String.◌∷◌ (letter_of (code c)) rest)
    else String.◌∷◌ c rest

-- `escaped` says that the character before was a `%`.
unfoldable decode_from : (escaped : Bool) → String → String
decode_from escaped String.[] = ""
decode_from true (String.◌∷◌ c s) = String.◌∷◌ (special_of (code c)) (decode_from false s)
decode_from false (String.◌∷◌ c s) =
    let plain = decode_from false s in
    let after = decode_from true s in if eqb (code c) 37 then after else String.◌∷◌ c plain

-- A URL is parted at its first question mark.
unfoldable at_question : String → String × String
at_question String.[] = ("", "")
at_question (String.◌∷◌ c s) =
    let rest = at_question s in
    if eqb (code c) 63 then ("", String.◌∷◌ c s) else (String.◌∷◌ c rest.0, rest.1)

pub platform : UrlPlatform
platform = record {
  encode = encode;
  decode = λ s. some (decode_from false s);
  form_encode = encode;
  form_decode = decode_from false;
  location = at_question;
}

special-cases :
    (n : ℕ)
    → is_special n ≡ true
    → (n ≡ 37) ⊎ (n ≡ 47) ⊎ (n ≡ 63) ⊎ (n ≡ 35) ⊎ (n ≡ 38) ⊎ (n ≡ 61) ⊎ (n ≡ 39)
unfolding is_special
special-cases n h = ground arith

special_of-letter_of :
    (c : Char) → is_special (code c) ≡ true → special_of (code (letter_of (code c))) ≡ c
unfolding is_special
special_of-letter_of c h = elim (special-cases (code c) h) [
  | inl e ↦ rw (Char-path c "%" e) refl
  | inr (inl e) ↦ rw (Char-path c "/" e) refl
  | inr (inr (inl e)) ↦ rw (Char-path c "?" e) refl
  | inr (inr (inr (inl e))) ↦ rw (Char-path c "#" e) refl
  | inr (inr (inr (inr (inl e)))) ↦ rw (Char-path c "&" e) refl
  | inr (inr (inr (inr (inr (inl e))))) ↦ rw (Char-path c "=" e) refl
  | inr (inr (inr (inr (inr (inr e))))) ↦ rw (Char-path c "'" e) refl
]

not_special-if :
    (b : Bool) (d e : Char)
    → is_special (code d) ≡ false
    → is_special (code e) ≡ false
    → is_special (code (if b then d else e)) ≡ false
not_special-if true d e h k = h
not_special-if false d e h k = k

letter_of-not_special : (n : ℕ) → is_special (code (letter_of n)) ≡ false
unfolding is_special
letter_of-not_special n = not_special-if (eqb n 37) "a" _ refl (
    not_special-if (eqb n 47) "b" _ refl (
      not_special-if (eqb n 63) "c" _ refl (
        not_special-if (eqb n 35) "d" _ refl
          (not_special-if (eqb n 38) "e" _ refl (not_special-if (eqb n 61) "f" "g" refl refl)))))

plain_not_37 : (n : ℕ) → is_special n ≡ false → eqb n 37 ≡ false
unfolding is_special
plain_not_37 n h = ground arith

decode-encode : (s : String) → decode_from false (encode s) ≡ s
unfolding decode_from encode
decode-encode String.[] = refl
decode-encode (String.◌∷◌ c s) = elim (Bool-cases (is_special (code c))) [
  | inl e ↦ rw (e, special_of-letter_of c e, decode-encode s) refl
  | inr e ↦ rw (e, decode-encode s) (ground (arith, plain_not_37 (code c) e))
]

encode_plain : (s : String) → is_plain s ≡ true → encode s ≡ s
unfolding encode is_special
encode_plain String.[] h = refl
encode_plain (String.◌∷◌ c s) h = rw (encode_plain s (ground arith)) (ground arith)

IsFree-encode : (x : ℕ) (s : String) → is_special x ≡ true → x ≢ 37 → IsFree x (encode s)
unfolding encode
IsFree-encode x String.[] h n = tt
IsFree-encode x (String.◌∷◌ c s) h n = elim (Bool-cases (is_special (code c))) [
  | inl e ↦ rw e (
    (λ q. n (sym q)),
    (differ (code (letter_of (code c))) (letter_of-not_special (code c)), IsFree-encode x s h n),
  )
  | inr e ↦ rw e (differ (code c) e, IsFree-encode x s h n)
]
  where
    not_both : true ≢ false
    not_both q = cc

    differ : (m : ℕ) → is_special m ≡ false → m ≢ x
    differ m k q = not_both (sym h ∙ ap is_special (sym q) ∙ k)

encode-IsSafe : (s : String) → IsSafe (encode s)
unfolding is_special
encode-IsSafe s = record {
  no_slash = IsFree-encode 47 s refl (ground arith);
  no_question = IsFree-encode 63 s refl (ground arith);
  no_hash = IsFree-encode 35 s refl (ground arith);
  no_amp = IsFree-encode 38 s refl (ground arith);
  no_equals = IsFree-encode 61 s refl (ground arith);
}

at_question_path : (path : String) → IsFree 63 path → at_question path ≡ (path, "")
unfolding at_question
at_question_path String.[] h = refl
at_question_path (String.◌∷◌ c s) h = rw (at_question_path s h.1) (ground arith)

at_question_query :
    (path query : String)
    → IsFree 63 path
    → at_question (append path (append "?" query)) ≡ (path, append "?" query)
unfolding at_question
at_question_query String.[] query h = refl
at_question_query (String.◌∷◌ c s) query h = rw (at_question_query s query h.1) (ground arith)

-- What is written holds no question mark.
IsFree-is_plain : (s : String) → is_plain s ≡ true → IsFree 63 s
IsFree-is_plain String.[] h = tt
IsFree-is_plain (String.◌∷◌ c s) h = ((λ e. ground arith), IsFree-is_plain s (ground arith))

IsFree-IsSegment : (s : String) → IsSegment platform s → IsFree 63 s
unfolding platform
IsFree-IsSegment s (inl h) = IsFree-is_plain s h.0
IsFree-IsSegment s (inr (id, n, e)) = subst (IsFree 63) (sym e) (encode-IsSafe id).no_question

IsFree-path_of : (ss : List String) → All (IsSegment platform) ss → IsFree 63 (path_of ss)
IsFree-path_of [] h = tt
IsFree-path_of (s ∷ []) h = ((λ e. ground arith), IsFree-IsSegment s h.0)
IsFree-path_of (s ∷ t ∷ ss) h = (
  (λ e. ground arith),
  IsFree-append 63 s (path_of (t ∷ ss)) (IsFree-IsSegment s h.0) (IsFree-path_of (t ∷ ss) h.1),
)

encode-IsFree : (s : String) → IsFree 39 (encode s)
unfolding is_special
encode-IsFree s = IsFree-encode 39 s refl (ground arith)

pub platform-IsUrlPlatform : IsUrlPlatform platform
unfolding platform
platform-IsUrlPlatform = record {
  decode-encode = λ s. ap some (decode-encode s);
  form_decode-encode = decode-encode;
  form_decode-escape_quotes = λ s.
      ap (decode_from false) (escape_quotes_free (encode s) (encode-IsFree s)) ∙ decode-encode s;
  form_decode-form_encode = decode-encode;
  encode-IsSafe = encode-IsSafe;
  form_encode-IsSafe = encode-IsSafe;
  form_encode-IsFree = encode-IsFree;
  encode_plain = encode_plain;
  form_encode_plain = encode_plain;
  location_path = λ s ss h. at_question_path (path_of (s ∷ ss)) (IsFree-path_of (s ∷ ss) h);
  location_query = λ s ss qs h k n.
      inl (at_question_query (path_of (s ∷ ss)) (text_of qs) (IsFree-path_of (s ∷ ss) h));
}
