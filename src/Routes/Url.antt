-- ===== src/Routes/Url.antt =====
-- What frontend/src/appRoutes.ts uses of the browser and of the router: percent-encoding, and the
-- split of a URL into path and query. `URLSearchParams` is modelled on them.
use openvpn_control_server.Shared.{
  ℕ, ◌≡◌, ◌≢◌, Bool, true, ◌&&◌, ◌||◌, List, [], ◌∷◌, String, code, Option, none, some, ◌==◌, eqb,
  leb, append, nonempty_only, split_on, if◌then◌else◌, IsFree, ◌⊎◌,
}

-- Letters, digits and dashes, which every encoding leaves alone.
abbrev pub is_plain_code : ℕ → Bool
is_plain_code n =
    (leb 48 n && leb n 57) || (leb 65 n && leb n 90) || (leb 97 n && leb n 122) || eqb n 45

abbrev pub is_plain : String → Bool
is_plain String.[] = true
is_plain (String.◌∷◌ c s) = is_plain_code (code c) && is_plain s

-- A text without any of `/ ? # & =`.
pub record IsSafe (s : String) : Type 0 where
  pub no_slash : IsFree 47 s
  pub no_question : IsFree 63 s
  pub no_hash : IsFree 35 s
  pub no_amp : IsFree 38 s
  pub no_equals : IsFree 61 s

-- The functions of the platform.
pub record UrlPlatform : Type 0 where
  -- `encodeURIComponent`
  pub encode : String → String
  -- `decodeURIComponent`, or nothing where it throws.
  pub decode : String → Option String
  -- How `URLSearchParams` writes and reads a name or a value.
  pub form_encode : String → String
  pub form_decode : String → String
  -- The path and the query of a URL within the site, as the router hands them over.
  pub location : String → String × String

-- `/a/b` of the segments `a` and `b`.
abbrev pub path_of : List String → String
path_of [] = ""
path_of (s ∷ []) = append "/" s
path_of (s ∷ t ∷ ss) = append "/" (append s (path_of (t ∷ ss)))

abbrev pub text_of : List String → String
text_of [] = ""
text_of (s ∷ []) = s
text_of (s ∷ t ∷ ss) = append s (text_of (t ∷ ss))

-- How a browser writes an apostrophe in a query.
abbrev pub escape_quotes : String → String
escape_quotes String.[] = ""
escape_quotes (String.◌∷◌ c s) =
    let rest = escape_quotes s in if eqb (code c) 39 then append "%27" rest else String.◌∷◌ c rest

abbrev pub All : (String → Type 0) → List String → Type 0
All P [] = Unit
All P (s ∷ ss) = P s × All P ss

-- A text that is no segment with a meaning of its own: a browser takes away `.` and `..`.
abbrev pub IsName : String → Type 0
IsName s = (s ≢ "") × (s ≢ ".") × (s ≢ "..")

-- The segments of a path and the pieces of a query that the panel writes.
abbrev pub IsSegment : UrlPlatform → String → Type 0
IsSegment p s =
    ((is_plain s ≡ true) × (s ≢ "")) ⊎ ((name : String) × IsName name × (s ≡ p.encode name))

abbrev pub IsPiece : UrlPlatform → String → Type 0
IsPiece p s =
    (is_plain s ≡ true)
    ⊎ (s ≡ "=")
    ⊎ (s ≡ "&")
    ⊎ ((v : String) × (s ≡ p.encode v))
    ⊎ ((v : String) × (s ≡ p.form_encode v))

-- What is documented of them. The router hands a URL over as it is written where the panel itself
-- goes there, and as the browser writes it where it is opened; they differ in apostrophes, which
-- `encodeURIComponent` leaves alone.
pub record IsUrlPlatform (p : UrlPlatform) : Type 0 where
  pub decode-encode : (s : String) → p.decode (p.encode s) ≡ some s
  pub form_decode-encode : (s : String) → p.form_decode (p.encode s) ≡ s
  pub form_decode-escape_quotes : (s : String) → p.form_decode (escape_quotes (p.encode s)) ≡ s
  pub form_decode-form_encode : (s : String) → p.form_decode (p.form_encode s) ≡ s
  pub encode-IsSafe : (s : String) → IsSafe (p.encode s)
  pub form_encode-IsSafe : (s : String) → IsSafe (p.form_encode s)
  pub form_encode-IsFree : (s : String) → IsFree 39 (p.form_encode s)
  pub encode_plain : (s : String) → is_plain s ≡ true → p.encode s ≡ s
  pub form_encode_plain : (s : String) → is_plain s ≡ true → p.form_encode s ≡ s
  pub location_path :
      (s : String) (ss : List String)
      → All (IsSegment p) (s ∷ ss)
      → p.location (path_of (s ∷ ss)) ≡ (path_of (s ∷ ss), "")
  pub location_query :
      (s : String) (ss qs : List String)
      → All (IsSegment p) (s ∷ ss)
      → All (IsPiece p) qs
      → text_of qs ≢ ""
      → (p.location (append (path_of (s ∷ ss)) (append "?" (text_of qs)))
          ≡ (path_of (s ∷ ss), append "?" (text_of qs)))
        ⊎ (p.location (append (path_of (s ∷ ss)) (append "?" (text_of qs)))
            ≡ (path_of (s ∷ ss), append "?" (escape_quotes (text_of qs))))

-- An id of the panel that is no word of a path.
abbrev pub IsId : String → Type 0
IsId id = IsName id × (id ≢ "new")

-- `new URLSearchParams(search)` as its list of pairs.
abbrev pub after_question : String → String
after_question String.[] = ""
after_question (String.◌∷◌ c s) = if eqb (code c) 63 then s else String.◌∷◌ c s

-- The text before the first `=` and the text after it.
abbrev pub at_equals : String → String × String
at_equals String.[] = ("", "")
at_equals (String.◌∷◌ c s) =
    let (k, v) = at_equals s in if eqb (code c) 61 then ("", s) else (String.◌∷◌ c k, v)

module _ (p : UrlPlatform) where
  abbrev pub get_pair : String → List String → Option String
  get_pair key [] = none
  get_pair key (part ∷ parts) =
      if p.form_decode (at_equals part).0 == key
      then some (p.form_decode (at_equals part).1)
      else get_pair key parts

  -- `new URLSearchParams(search).get(key)`
  unfoldable pub search_get : String → String → Option String
  search_get search key = get_pair key (nonempty_only (split_on 38 (after_question search)))

  -- `toString()` of a `URLSearchParams` with that one pair.
  abbrev pub query_string : String → String → String
  query_string key value = append (p.form_encode key) (append "=" (p.form_encode value))
