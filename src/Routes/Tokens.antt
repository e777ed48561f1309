-- ===== src/Routes/Tokens.antt =====
-- The URLs of `paths` in frontend/src/appRoutes.ts that carry a token or a certificate's id, and
-- the URLs that cannot be read.
use openvpn_control_server.Shared.{
  ◌≡◌, ◌≢◌, refl, ap, ◌∙◌, true, [], ◌∷◌, inl, inr, apart, Option, String, some, append, arith,
  trim, split_on, split_on_free, strip_end, IsFree,
}
use openvpn_control_server.Routes.State.{AppRouteState}
use openvpn_control_server.Routes.Url.{
  UrlPlatform, IsUrlPlatform, search_get, is_plain, escape_quotes, IsId,
}
use openvpn_control_server.Routes.Parse.{
  pick_tab, text_or_empty, base, parse_servers, parse_segments, segments, route_of,
}
use openvpn_control_server.Routes.Paths
use openvpn_control_server.Routes.Queries.{search_get-one, form_decode_plain}
use openvpn_control_server.Routes.Reading.{
  route_of-query_same, segments_of_id, not_new, id_segments, IsFree-escape_quotes,
}

module _ (p : UrlPlatform) (laws : IsUrlPlatform p) where
  -- The code of a text in a query, as it is written or with its apostrophes escaped, is read back.
  abbrev pub IsCodeOf : String → String → Type 0
  IsCodeOf s e = IsFree 38 e × (p.form_decode e ≡ s)

  code_written : (s : String) → IsCodeOf s (p.encode s)
  code_written s = ((laws.encode-IsSafe s).no_amp, laws.form_decode-encode s)

  code_escaped : (s : String) → IsCodeOf s (escape_quotes (p.encode s))
  code_escaped s = (
    IsFree-escape_quotes 38 (p.encode s) (omega arith) (omega arith) (omega arith)
        (laws.encode-IsSafe s).no_amp,
    laws.form_decode-escape_quotes s,
  )

  token_query :
      (token e : String) → IsCodeOf token e → search_get p (append "?token=" e) "token" ≡ some token
  token_query token e h =
      search_get-one p laws "token" e "token" (omega arith) (omega arith) h.0 refl ∙ rw (h.1)

  token_page :
      (w token : String) (page : String → AppRouteState)
      → is_plain w ≡ true
      → w ≢ ""
      → ((get : String → Option String)
          → parse_segments p get (segments (append "/" w))
            ≡ some (page (text_or_empty (get "token"))))
      → route_of p (append "/" (append w (append "?token=" (p.encode token)))) ≡ some (page token)
  token_page w token page plain full leads =
      let read : (e : String)
          → IsCodeOf token e
          → parse_segments p (search_get p (append "?token=" e)) (segments (append "/" w))
            ≡ some (page token) =
        λ e h.
          leads (search_get p (append "?token=" e))
          ∙ ap (λ o. some (page (text_or_empty o))) (token_query token e h) in
      route_of-query_same p laws w [] ("token" ∷ "=" ∷ p.encode token ∷ [])
        (append "token=" (p.encode token)) (some (page token)) refl (inl (plain, full), tt)
        (inl refl, (inr (inl refl), (inr (inr (inr (inl (token, refl)))), tt))) (λ z. cc)
        (read (p.encode token) (code_written token))
        (read (escape_quotes (p.encode token)) (code_escaped token))

  -- On a platform that behaves as documented, the URLs of an invitation and of a password reset
  -- hand their token over whole, whatever characters it has.
  pub token_routes :
      (token : String)
      → (route_of p (Paths.invite_admin p token)
          ≡ some (record base { primary_nav = "inviteAdmin"; invite_admin_token = token }))
        × (route_of p (Paths.reset_admin_password p token)
            ≡ some (record base {
              primary_nav = "resetAdminPassword";
              reset_admin_password_token = token;
            }))
  unfolding Paths.invite_admin Paths.reset_admin_password parse_segments segments split_on strip_end
  token_routes token = (
    token_page "invite-admin" token
        (λ t. record base { primary_nav = "inviteAdmin"; invite_admin_token = t }) refl
        (apart "invite-admin" "" refl) (λ get. refl),
    token_page "reset-admin-password" token
        (λ t. record base { primary_nav = "resetAdminPassword"; reset_admin_password_token = t })
        refl (apart "reset-admin-password" "" refl) (λ get. refl),
  )

  ca_query :
      (cert_id e : String)
      → IsCodeOf cert_id e
      → (search_get p (append "?tab=ca-center&certId=" e) "tab" ≡ some "ca-center")
        × (search_get p (append "?tab=ca-center&certId=" e) "certId" ≡ some cert_id)
  unfolding search_get split_on
  ca_query cert_id e h =
      let at_tab = form_decode_plain p laws "tab" refl in
      let at_cert = form_decode_plain p laws "certId" refl in
      let split = split_on_free 38 e h.0 in
      (
        rw (split, at_tab) (ap some (form_decode_plain p laws "ca-center" refl)),
        rw (split, at_tab, at_cert, h.1),
      )

  -- On a platform that behaves as documented, the URL of a certificate in a server's CA centre
  -- opens that server's CA centre at that certificate, for a server's id that is not empty, "new",
  -- "." or "..".
  pub server_ca_center_cert-route :
      (id cert_id : String)
      → IsId id
      → route_of p (Paths.server_ca_center_cert p id cert_id)
        ≡ some (record base {
          servers_view = "detail";
          selected_server_id = id;
          server_detail_tab = "ca-center";
          server_center_cert_id = cert_id;
        })
  unfolding Paths.server_ca_center_cert parse_segments parse_servers pick_tab trim
  server_ca_center_cert-route id cert_id h =
      let opened : Option AppRouteState = some (record base {
        servers_view = "detail";
        selected_server_id = id;
        server_detail_tab = "ca-center";
        server_center_cert_id = cert_id;
      }) in
      let read : (e : String)
          → IsCodeOf cert_id e
          → parse_segments p (search_get p (append "?tab=ca-center&certId=" e))
              (segments (append "/servers/" (p.encode id)))
            ≡ opened =
        λ e k. rw (
          (segments_of_id p laws id h.0.0).0,
          not_new p laws id h.1,
          laws.decode-encode id,
          (ca_query cert_id e k).0,
          (ca_query cert_id e k).1,
        ) in
      route_of-query_same p laws "servers" (p.encode id ∷ [])
        ("tab" ∷ "=" ∷ "ca-center" ∷ "&" ∷ "certId" ∷ "=" ∷ p.encode cert_id ∷ [])
        (append "tab=ca-center&certId=" (p.encode cert_id)) opened refl
        (id_segments p laws "servers" id [] refl (apart "servers" "" refl) h tt)
        (
          inl refl,
          (
            inr (inl refl),
            (
              inl refl,
              (
                inr (inr (inl refl)),
                (inl refl, (inr (inl refl), (inr (inr (inr (inl (cert_id, refl)))), tt))),
              ),
            ),
          ),
        )
        (λ z. cc) (read (p.encode cert_id) (code_written cert_id))
        (read (escape_quotes (p.encode cert_id)) (code_escaped cert_id))
