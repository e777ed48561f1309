-- ===== src/Routes/RoundTrip.antt =====
-- Each URL of `paths` in frontend/src/appRoutes.ts opens the page that it is made for.
use openvpn_control_server.Shared.{
  ◌≡◌, refl, ◌∙◌, true, [], ◌∷◌, inl, apart, String, Option, some, append, arith, trim, split_on,
  strip_end,
}
use openvpn_control_server.Routes.Url.{UrlPlatform, IsUrlPlatform, IsId}
use openvpn_control_server.Routes.Parse.{
  server_tabs, user_tabs, organization_tabs, logs_views, documentation_sections, elem, pick_tab,
  text_or_empty, base, settings_admins, parse_servers, parse_organizations, parse_users,
  parse_settings, parse_segments, segments, route_of,
}
use openvpn_control_server.Routes.Paths
use openvpn_control_server.Routes.Reading.{
  route_of-path, route_of-with_query, segments_of_id, not_new, id_segments,
}

module _ (p : UrlPlatform) (laws : IsUrlPlatform p) where
  server_segments :
      (get : String → Option String) (id : String)
      → IsId id
      → parse_segments p get (segments (append "/servers/" (p.encode id)))
        ≡ some (record base {
          servers_view = "detail";
          selected_server_id = id;
          server_detail_tab = pick_tab (get "tab") server_tabs "overview";
          server_center_cert_id = text_or_empty (get "certId");
        })
  unfolding parse_segments parse_servers
  server_segments get id h =
      rw ((segments_of_id p laws id h.0.0).0, not_new p laws id h.1, laws.decode-encode id)

  user_segments :
      (get : String → Option String) (id : String)
      → IsId id
      → parse_segments p get (segments (append "/users/" (p.encode id)))
        ≡ some (record base {
          primary_nav = "users";
          users_sub = "profile";
          selected_user_id = id;
          user_profile_tab = pick_tab (get "tab") user_tabs "overview";
        })
  unfolding parse_segments parse_users
  user_segments get id h =
      rw ((segments_of_id p laws id h.0.0).1, not_new p laws id h.1, laws.decode-encode id)

  organization_segments :
      (get : String → Option String) (id : String)
      → IsId id
      → parse_segments p get (segments (append "/organizations/" (append (p.encode id) "/edit")))
        ≡ some (record base {
          primary_nav = "organizations";
          organizations_view = "edit";
          organization_edit_id = id;
          organization_edit_tab = pick_tab (get "tab") organization_tabs "overview";
        })
  unfolding parse_segments parse_organizations
  organization_segments get id h =
      rw ((segments_of_id p laws id h.0.0).3, not_new p laws id h.1, laws.decode-encode id)

  -- On a platform that behaves as documented, the URL of a tab of a server, for a tab that the
  -- panel knows and an id that is not empty, "new", "." or "..", opens that tab of that server.
  pub server_detail-route :
      (id tab : String)
      → IsId id
      → elem tab server_tabs ≡ true
      → route_of p (Paths.server_detail p id tab)
        ≡ some (record base {
          servers_view = "detail";
          selected_server_id = id;
          server_detail_tab = tab;
        })
  unfolding Paths.server_detail
  server_detail-route id tab h listed =
      route_of-with_query p laws "servers" (p.encode id ∷ []) "tab" tab "overview" server_tabs
        (λ t. record base {
          servers_view = "detail";
          selected_server_id = id;
          server_detail_tab = t;
        })
        (id_segments p laws "servers" id [] refl (apart "servers" "" refl) h tt)
        (omega arith, omega arith) refl refl (unfold trim in refl) (unfold elem in refl) listed
        (λ get cert. server_segments get id h ∙ rw cert)

  -- On a platform that behaves as documented, the URL of a tab of a user, for a tab that the
  -- panel knows and an id that is not empty, "new", "." or "..", opens that tab of that user's profile.
  pub user_profile-route :
      (id tab : String)
      → IsId id
      → elem tab user_tabs ≡ true
      → route_of p (Paths.user_profile p id tab)
        ≡ some (record base {
          primary_nav = "users";
          users_sub = "profile";
          selected_user_id = id;
          user_profile_tab = tab;
        })
  unfolding Paths.user_profile
  user_profile-route id tab h listed =
      route_of-with_query p laws "users" (p.encode id ∷ []) "tab" tab "overview" user_tabs
        (λ t. record base {
          primary_nav = "users";
          users_sub = "profile";
          selected_user_id = id;
          user_profile_tab = t;
        })
        (id_segments p laws "users" id [] refl (apart "users" "" refl) h tt)
        (omega arith, omega arith) refl refl (unfold trim in refl) (unfold elem in refl) listed
        (λ get cert. user_segments get id h)

  -- On a platform that behaves as documented, the URL of a tab of an organization, for a tab that
  -- the panel knows and an id that is not empty, "new", "." or "..", opens that tab of its editor.
  pub organization_edit-route :
      (id tab : String)
      → IsId id
      → elem tab organization_tabs ≡ true
      → route_of p (Paths.organization_edit p id tab)
        ≡ some (record base {
          primary_nav = "organizations";
          organizations_view = "edit";
          organization_edit_id = id;
          organization_edit_tab = tab;
        })
  unfolding Paths.organization_edit
  organization_edit-route id tab h listed =
      route_of-with_query p laws "organizations" (p.encode id ∷ "edit" ∷ []) "tab" tab "overview"
        organization_tabs
        (λ t. record base {
          primary_nav = "organizations";
          organizations_view = "edit";
          organization_edit_id = id;
          organization_edit_tab = t;
        })
        (id_segments p laws "organizations" id ("edit" ∷ []) refl (apart "organizations" "" refl) h
          (inl (refl, apart "edit" "" refl), tt))
        (omega arith, omega arith) refl refl (unfold trim in refl) (unfold elem in refl) listed
        (λ get cert. organization_segments get id h)

  -- On a platform that behaves as documented, the URL of a view of the logs that the panel knows
  -- opens that view.
  pub logs-route :
      (tab : String)
      → elem tab logs_views ≡ true
      → route_of p (Paths.logs p tab) ≡ some (record base { primary_nav = "logs"; logs_view = tab })
  unfolding Paths.logs
  logs-route tab listed =
      route_of-with_query p laws "logs" [] "tab" tab "vpn-ip" logs_views
        (λ t. record base { primary_nav = "logs"; logs_view = t })
        (inl (refl, apart "logs" "" refl), tt) (omega arith, omega arith) refl refl
        (unfold trim in refl) (unfold elem in refl) listed
        (λ get cert. unfold parse_segments segments split_on strip_end in refl)

  -- On a platform that behaves as documented, the URL of a section of the documentation that the
  -- panel knows opens that section.
  pub documentation-route :
      (section : String)
      → elem section documentation_sections ≡ true
      → route_of p (Paths.documentation p section)
        ≡ some (record base { primary_nav = "documentation"; docs_section = section })
  unfolding Paths.documentation
  documentation-route section listed =
      route_of-with_query p laws "documentation" [] "section" section "intro" documentation_sections
        (λ t. record base { primary_nav = "documentation"; docs_section = t })
        (inl (refl, apart "documentation" "" refl), tt) (omega arith, omega arith) refl refl
        (unfold trim in refl) (unfold elem in refl) listed
        (λ get cert. unfold parse_segments segments split_on strip_end in refl)

  -- On a platform that behaves as documented, the URL of an administrator opens that
  -- administrator's page, for an id that is not empty, "new", "." or "..".
  pub settings_admin-route :
      (id : String)
      → IsId id
      → route_of p (Paths.settings_admin p id)
        ≡ some (record settings_admins { admins_page = "detail"; selected_admin_id = id })
  unfolding Paths.settings_admin parse_segments parse_settings
  settings_admin-route id h = rw (
    route_of-path p laws "settings" ("admins" ∷ p.encode id ∷ []) (
      inl (refl, apart "settings" "" refl),
      id_segments p laws "admins" id [] refl (apart "admins" "" refl) h tt,
    ),
    (segments_of_id p laws id h.0.0).2,
    not_new p laws id h.1,
    laws.decode-encode id,
  )
