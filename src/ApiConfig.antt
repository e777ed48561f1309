-- ===== src/ApiConfig.antt =====
-- Where the panel finds the backend, frontend/src/apiConfig.ts. The window is a value: `none` is
-- no browser; a property that is not there is the empty text, which the code treats alike.
use openvpn_control_server.Shared.{
  ◌≡◌, refl, Bool, false, Option, none, some, String, code, trim, strip_end, or_else, eqb, is_empty,
  if◌then◌else◌, arith,
}

pub record BrowserWindow : Type 0 where
  pub data_api_url : String
  pub app_config_api_url : String
  pub origin : String

abbrev pub fallback_direct_backend : String
fallback_direct_backend = "http://localhost:8080"

unfoldable pub normalize_api_url : String → String
unfolding trim strip_end
normalize_api_url url = strip_end 47 (trim url)

unfoldable pub resolve_api_url : Option BrowserWindow → String
unfolding normalize_api_url
resolve_api_url none = fallback_direct_backend
resolve_api_url (some window) = or_else (normalize_api_url window.data_api_url) (
    or_else (normalize_api_url window.app_config_api_url)
      (or_else window.origin fallback_direct_backend))

-- The text ends with no slash, unless it is empty.
unfoldable pub ends_with_slash : String → Bool
ends_with_slash String.[] = false
ends_with_slash (String.◌∷◌ c s) =
    let rest = ends_with_slash s in if is_empty s then eqb (code c) 47 else rest

strip_end-ends : (s : String) → ends_with_slash (strip_end 47 s) ≡ false
unfolding strip_end ends_with_slash
strip_end-ends String.[] = refl
strip_end-ends (String.◌∷◌ c s) = ground (arith, strip_end-ends s)

or_else-ends :
    (s t : String)
    → ends_with_slash s ≡ false
    → ends_with_slash t ≡ false
    → ends_with_slash (or_else s t) ≡ false
or_else-ends String.[] t h k = k
or_else-ends (String.◌∷◌ c s) t h k = h

-- In a browser whose page has an origin that ends with no slash, the address of the backend ends
-- with none either, whatever the two settings hold.
pub resolve_api_url-ends :
    (window : BrowserWindow)
    → ends_with_slash window.origin ≡ false
    → ends_with_slash (resolve_api_url (some window)) ≡ false
unfolding resolve_api_url normalize_api_url
resolve_api_url-ends window h =
    let given : String = normalize_api_url window.data_api_url in
    let legacy : String = normalize_api_url window.app_config_api_url in
    or_else-ends given (or_else legacy (or_else window.origin fallback_direct_backend))
      (strip_end-ends (trim window.data_api_url))
      (or_else-ends legacy (or_else window.origin fallback_direct_backend)
        (strip_end-ends (trim window.app_config_api_url))
        (or_else-ends window.origin fallback_direct_backend h (unfold ends_with_slash in refl)))
