-- ===== src/Routes/Reading.antt =====
-- How the router and `parseAppRoute` read a URL that `paths` of frontend/src/appRoutes.ts writes.
use openvpn_control_server.Shared.{
  ℕ, ◌≡◌, ◌≢◌, refl, sym, ap, subst, ◌∙◌, Bool, true, false, ◌&&◌, ◌||◌, List, [], ◌∷◌, String,
  Option, none, some, ◌==◌, append, split_on, split_on_free, split_on-append, strip_end,
  strip_end_free, strip_end-append, IsFree, IsFree-append, is_empty, is_empty_iff, is_empty-append,
  arith, eq_iff, trim, Bool-cases, inl, inr, ◌⊎◌, eqb, code,
}
use openvpn_control_server.Routes.State.{AppRouteState}
use openvpn_control_server.Routes.Url.{
  UrlPlatform, IsUrlPlatform, search_get, query_string, is_plain, path_of, text_of, escape_quotes,
  All, IsSegment, IsPiece, IsId,
}
use openvpn_control_server.Routes.Parse.{elem, pick_tab, parse_segments, segments, route_of}
use openvpn_control_server.Routes.Paths.{with_query}
use openvpn_control_server.Routes.Queries.{search_get-nil, search_get-query_string, encode-ne_plain}

abbrev pub all_trimmed : List String → Bool
all_trimmed [] = true
all_trimmed (t ∷ ts) = trim t == t && all_trimmed ts

trim_of_elem :
    (t : String) (ts : List String) → all_trimmed ts ≡ true → elem t ts ≡ true → trim t ≡ t
unfolding elem
trim_of_elem t [] h e = cc
trim_of_elem t (u ∷ ts) h e = ground (arith, trim_of_elem t ts, eq_iff u t, eq_iff (trim u) u)

-- A tab of the list is picked as it is.
pick_tab_listed :
    (t : String) (ts : List String) (d : String)
    → all_trimmed ts ≡ true
    → elem t ts ≡ true
    → pick_tab (some t) ts d ≡ t
unfolding pick_tab
pick_tab_listed t ts d h e = rw (trim_of_elem t ts h e, e)

-- With no tab given, or an empty one, the default is picked.
pick_tab-none : (ts : List String) (d : String) → elem "" ts ≡ false → pick_tab none ts d ≡ d
unfolding pick_tab trim
pick_tab-none ts d h = rw h

default_tab :
    (t d : String) (ts : List String)
    → elem t ts ≡ true
    → elem "" ts ≡ false
    → (is_empty t || t == d) ≡ true
    → t ≡ d
default_tab String.[] d ts h n e = cc
default_tab (String.◌∷◌ c t) d ts h n e = (eq_iff (String.◌∷◌ c t) d).0 e

pub escape_quotes_free : (s : String) → IsFree 39 s → escape_quotes s ≡ s
escape_quotes_free String.[] h = refl
escape_quotes_free (String.◌∷◌ c s) h = rw (escape_quotes_free s h.1) (ground arith)

pub IsFree-escape_quotes :
    (x : ℕ) (s : String) → x ≢ 37 → x ≢ 50 → x ≢ 55 → IsFree x s → IsFree x (escape_quotes s)
IsFree-escape_quotes x String.[] a b c h = tt
IsFree-escape_quotes x (String.◌∷◌ d s) a b c h =
    let rest = IsFree-escape_quotes x s a b c h.1 in
    elim (Bool-cases (eqb (code d) 39)) [
      | inl e ↦ rw e ((λ q. a (sym q)), ((λ q. b (sym q)), ((λ q. c (sym q)), rest)))
      | inr e ↦ rw e (h.0, rest)
    ]

module _ (p : UrlPlatform) (laws : IsUrlPlatform p) where
  -- A URL with no query.
  pub route_of-path :
      (s : String) (ss : List String)
      → All (IsSegment p) (s ∷ ss)
      → route_of p (path_of (s ∷ ss))
        ≡ parse_segments p (search_get p "") (segments (path_of (s ∷ ss)))
  unfolding route_of
  route_of-path s ss h = rw (laws.location_path s ss h)

  -- A URL with a query `q`, as it is written or with its apostrophes escaped.
  pub route_of-query :
      (s : String) (ss qs : List String) (q : String)
      → text_of qs ≡ q
      → All (IsSegment p) (s ∷ ss)
      → All (IsPiece p) qs
      → q ≢ ""
      → (route_of p (append (path_of (s ∷ ss)) (append "?" q))
          ≡ parse_segments p (search_get p (append "?" q)) (segments (path_of (s ∷ ss))))
        ⊎ (route_of p (append (path_of (s ∷ ss)) (append "?" q))
            ≡ parse_segments p
                (search_get p (append "?" (escape_quotes q)))
                (segments (path_of (s ∷ ss))))
  unfolding route_of
  route_of-query s ss qs q eq h k n =
      let located = laws.location_query s ss qs h k (λ z. n (sym eq ∙ z)) in
      elim located [ inl e ↦ inl (rw (← eq) (rw e)) | inr e ↦ inr (rw (← eq) (rw e)) ]

  -- Where both readings of the query give the same.
  pub route_of-query_same :
      (s : String) (ss qs : List String) (q : String) (r : Option AppRouteState)
      → text_of qs ≡ q
      → All (IsSegment p) (s ∷ ss)
      → All (IsPiece p) qs
      → q ≢ ""
      → parse_segments p (search_get p (append "?" q)) (segments (path_of (s ∷ ss))) ≡ r
      → parse_segments p (search_get p (append "?" (escape_quotes q))) (segments (path_of (s ∷ ss)))
        ≡ r
      → route_of p (append (path_of (s ∷ ss)) (append "?" q)) ≡ r
  route_of-query_same s ss qs q r eq h k n a b = elim (route_of-query s ss qs q eq h k n) [
    | inl e ↦ e ∙ a
    | inr e ↦ e ∙ b
  ]

  -- A page with a tab: `page` is the route for a tab, once the path is known to lead to it.
  pub route_of-with_query :
      (s : String) (ss : List String) (key tab d : String) (tabs : List String)
      (page : String → AppRouteState)
      → All (IsSegment p) (s ∷ ss)
      → (IsFree 61 key × IsFree 38 key)
      → is_plain key ≡ true
      → (key == "certId") ≡ false
      → all_trimmed tabs ≡ true
      → elem "" tabs ≡ false
      → elem tab tabs ≡ true
      → ((get : String → Option String)
          → get "certId" ≡ none
          → parse_segments p get (segments (path_of (s ∷ ss)))
            ≡ some (page (pick_tab (get key) tabs d)))
      → route_of p (with_query p (path_of (s ∷ ss)) key tab d) ≡ some (page tab)
  unfolding with_query
  route_of-with_query s ss key tab d tabs page hs hk plain other trimmed empty listed leads =
      elim (Bool-cases (is_empty tab || tab == d)) [
        | inl e ↦ rw (
          e,
          route_of-path s ss hs,
          leads (search_get p "") (search_get-nil p laws "certId"),
          search_get-nil p laws key,
          pick_tab-none tabs d empty,
          default_tab tab d tabs listed empty e,
        )
        | inr e ↦ rw e (with_tab (query_string p key tab) refl)
      ]
    where
      with_tab :
          (q : String)
          → query_string p key tab ≡ q
          → route_of p (append (path_of (s ∷ ss)) (append "?" q)) ≡ some (page tab)
      with_tab q eq =
          let at_key =
            ap (λ k. search_get p (append "?" k) key) (sym eq)
            ∙ search_get-query_string p laws key tab key hk.0 hk.1 plain in
          let at_cert =
            ap (λ k. search_get p (append "?" k) "certId") (sym eq)
            ∙ search_get-query_string p laws key tab "certId" hk.0 hk.1 plain in
          let free : IsFree 39 q = subst (IsFree 39) eq (
            IsFree-append 39 (p.form_encode key) _ (laws.form_encode-IsFree key)
              (omega arith, laws.form_encode-IsFree tab)) in
          let full : is_empty q ≡ false =
            ap is_empty (sym eq)
            ∙ is_empty-append (p.form_encode key) (append "=" (p.form_encode tab)) (λ z. cc) in
          let opened : parse_segments p (search_get p (append "?" q)) (segments (path_of (s ∷ ss)))
              ≡ some (page tab) =
            leads (search_get p (append "?" q)) (at_cert ∙ rw other)
            ∙ ap (λ o. some (page (pick_tab o tabs d))) (at_key ∙ rw ((eq_iff key key).1 refl))
            ∙ ap (λ t. some (page t)) (pick_tab_listed tab tabs d trimmed listed) in
          route_of-query_same s ss (p.form_encode key ∷ "=" ∷ p.form_encode tab ∷ []) q
            (some (page tab)) eq hs
            (
              inr (inr (inr (inr (key, refl)))),
              (inr (inl refl), (inr (inr (inr (inr (tab, refl)))), tt)),
            )
            (λ z. cc (ap is_empty z)) opened
            (ap (λ k. parse_segments p (search_get p (append "?" k)) (segments (path_of (s ∷ ss))))
                (escape_quotes_free q free)
              ∙ opened)

  -- A segment that is the code of an identifier.
  id_segment : (id : String) → id ≢ "" → (p.encode id ≢ "") × (is_empty (p.encode id) ≡ false)
  id_segment id n =
      let m = encode-ne_plain p laws id "" refl n in (m, ground (arith, is_empty_iff (p.encode id)))

  pub segments_of_id :
      (id : String)
      → id ≢ ""
      → (segments (append "/servers/" (p.encode id)) ≡ "servers" ∷ p.encode id ∷ [])
        × (segments (append "/users/" (p.encode id)) ≡ "users" ∷ p.encode id ∷ [])
        × (segments (append "/settings/admins/" (p.encode id))
            ≡ "settings" ∷ "admins" ∷ p.encode id ∷ [])
        × (segments (append "/organizations/" (append (p.encode id) "/edit"))
            ≡ "organizations" ∷ p.encode id ∷ "edit" ∷ [])
  unfolding segments split_on
  segments_of_id id n =
      let (ne, full) = id_segment id n in
      let free = (laws.encode-IsSafe id).no_slash in
      let stripped = strip_end_free 47 (p.encode id) free in
      let edit_stripped : strip_end 47 "/edit" ≡ "/edit" = unfold strip_end in refl in
      let with_edit : append (p.encode id) "/edit" ≢ "" =
        λ z. cc (ap is_empty z, is_empty-append (p.encode id) "/edit" (λ z'. cc)) in
      let split = split_on_free 47 (p.encode id) free in
      (
        rw (strip_end-append 47 "/servers/" (p.encode id) stripped ne, split, full),
        rw (strip_end-append 47 "/users/" (p.encode id) stripped ne, split, full),
        rw (strip_end-append 47 "/settings/admins/" (p.encode id) stripped ne, split, full),
        rw (
          strip_end-append 47 "/organizations/" (append (p.encode id) "/edit")
              (strip_end-append 47 (p.encode id) "/edit" edit_stripped (λ z. cc)) with_edit,
          split_on-append 47 (p.encode id) "/" "edit" free refl,
          full,
        ),
      )

  pub not_new : (id : String) → id ≢ "new" → (p.encode id == "new") ≡ false
  not_new id n = ground (arith, encode-ne_plain p laws id "new" refl n, eq_iff (p.encode id) "new")

  -- A word of a path, and the code of an id.
  pub id_segments :
      (w id : String) (ss : List String)
      → is_plain w ≡ true
      → w ≢ ""
      → IsId id
      → All (IsSegment p) ss
      → All (IsSegment p) (w ∷ p.encode id ∷ ss)
  id_segments w id ss plain full h rest = (inl (plain, full), (inr (id, h.0, refl), rest))
