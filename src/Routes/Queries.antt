-- ===== src/Routes/Queries.antt =====
-- Reading the queries that frontend/src/appRoutes.ts writes.
use openvpn_control_server.Shared.{
  ◌≡◌, ◌≢◌, refl, sym, ap, ◌∙◌, true, List, [], ◌∷◌, String, none, some, ◌==◌, append, split_on,
  split_on_free, if◌then◌else◌, IsFree, IsFree-append, is_empty-append, arith,
}
use mathlib.Core.Option.{some-injective}
use openvpn_control_server.Routes.Url.{
  UrlPlatform, IsUrlPlatform, search_get, query_string, at_equals, get_pair, is_plain,
}

at_equals-append : (k e : String) → IsFree 61 k → at_equals (append k (append "=" e)) ≡ (k, e)
at_equals-append String.[] e h = refl
at_equals-append (String.◌∷◌ c k) e h = ground (arith, at_equals-append k e h.1)

module _ (p : UrlPlatform) (laws : IsUrlPlatform p) where
  pub search_get-nil : (key : String) → search_get p "" key ≡ none
  unfolding search_get split_on
  search_get-nil key = refl

  pub form_decode_plain : (s : String) → is_plain s ≡ true → p.form_decode s ≡ s
  form_decode_plain s h =
      ap (p.form_decode) (sym (laws.encode_plain s h)) ∙ laws.form_decode-encode s

  get_pair-cons :
      (k e key : String) (parts : List String)
      → IsFree 61 k
      → is_plain k ≡ true
      → get_pair p key (append k (append "=" e) ∷ parts)
        ≡ (if k == key then some (p.form_decode e) else get_pair p key parts)
  get_pair-cons k e key parts h plain = rw (at_equals-append k e h, form_decode_plain k plain)

  -- One pair, whose value is `e` as written.
  pub search_get-one :
      (k e key : String)
      → IsFree 61 k
      → IsFree 38 k
      → IsFree 38 e
      → is_plain k ≡ true
      → search_get p (append "?" (append k (append "=" e))) key
        ≡ (if k == key then some (p.form_decode e) else none)
  unfolding search_get
  search_get-one k e key h h' he plain =
      let free : IsFree 38 (append k (append "=" e)) = IsFree-append 38 k _ h' (omega arith, he) in
      rw
        (
          split_on_free 38 (append k (append "=" e)) free,
          is_empty-append k (append "=" e) (λ q. cc),
        )
        (get_pair-cons k e key [] h plain)

  -- What `toString` has written is read back.
  pub search_get-query_string :
      (k v key : String)
      → IsFree 61 k
      → IsFree 38 k
      → is_plain k ≡ true
      → search_get p (append "?" (query_string p k v)) key ≡ (if k == key then some v else none)
  search_get-query_string k v key h h' plain = rw (
    laws.form_encode_plain k plain,
    search_get-one k (p.form_encode v) key h h' (laws.form_encode-IsSafe v).no_amp plain,
    laws.form_decode-form_encode v,
  )

  -- The identifiers of which the code of a segment is no empty text and no given plain word.
  pub encode-ne_plain : (s w : String) → is_plain w ≡ true → s ≢ w → p.encode s ≢ w
  encode-ne_plain s w plain n e = n (
      some-injective _ _ (
        sym (laws.decode-encode s)
        ∙ ap p.decode (e ∙ sym (laws.encode_plain w plain))
        ∙ laws.decode-encode w))
