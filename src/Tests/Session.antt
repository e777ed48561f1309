-- ===== src/Tests/Session.antt =====
-- A sign-in with a second factor, and the clock.
use openvpn_control_server.Shared.{
  ℕ, ◌≡◌, ◌⊎◌, ◌<◌, ◌*◌, ◌∈◌, refl, true, false, List, [], ◌∷◌, Option, none, some, String, apart,
  split_on, arith,
}
use openvpn_control_server.Session.Token.{
  Claims, parse_jwt_payload, payload_part, to_base64, replace_all,
}
use openvpn_control_server.Session.Token.Base64.{token_of, parse_jwt_payload-token_of}
use openvpn_control_server.Session.Access.{
  Session, SignIn, answered, Event, login_answered, mfa_typed, mfa_submitted, mfa_answered,
  on_invalid, store_token, tick, handle, step, run,
}
use openvpn_control_server.Session.Access.Laws.{
  IsConsistent, all_issued, run-IsConsistent, step-ticked, run-issued,
}
use openvpn_control_server.Session.Setup.{
  SetupState, SetupEvent, opened, profile_loaded, settle_profile, start_effect, start_answered,
  started, typed, submitted, closed, confirm_answered, not_confirmed, no_setup, setup_run,
  setup_step, begin_setup, settle_setup, begin_confirm, settle_confirm, open_setup, close_setup,
  type_code,
}
use openvpn_control_server.Session.Setup.Laws.{IsLive, secrets_of, setup_run-IsSound}

-- Every payload expires after a hundred seconds.
abbrev decode : String → Option Claims
decode s = some (record { exp = some 100; sub = "1" })

abbrev signed_out : Session
signed_out = record {
  token = "";
  stored = none;
  session_now = 0;
  error = "";
  has_overview = false;
  path = "/";
  mfa_modal_open = false;
  mfa_pending_token = "";
  mfa_totp_code = "";
  mfa_recovery_code = "";
  mfa_error = "";
  mfa_busy = false;
}

abbrev signed_in : Session
signed_in = record signed_out { token = "a.b.c"; stored = some "a.b.c" }

signed_out-IsConsistent : IsConsistent signed_out
signed_out-IsConsistent = record {
  is_stored = refl;
  is_prompted = refl;
  is_checked = λ h. ground arith;
}

abbrev asks : SignIn
asks = record { mfa_required = true; mfa_pending_token = "p"; token = "" }

abbrev grants : SignIn
grants = record { mfa_required = false; mfa_pending_token = ""; token = "a.b.c" }

abbrev two_factors : List Event
two_factors =
    login_answered 1000 (answered asks)
    ∷ mfa_typed "123456" ""
    ∷ mfa_submitted
    ∷ mfa_answered 2000 (answered grants)
    ∷ []

run-IsConsistent_example : IsConsistent (run decode two_factors signed_out)
run-IsConsistent_example = run-IsConsistent decode two_factors signed_out signed_out-IsConsistent

run-issued_example :
    ((run decode two_factors signed_out).token ≡ "")
    ⊎ ((run decode two_factors signed_out).token ∈ ("" ∷ all_issued two_factors))
run-issued_example = run-issued decode two_factors signed_out signed_out-IsConsistent

abbrev limit : ℕ
limit = 100

step-ticked_example : (limit ≡ 0) ⊎ (99000 < limit * 1000)
unfolding step handle tick store_token on_invalid parse_jwt_payload payload_part to_base64
    replace_all split_on
step-ticked_example = step-ticked decode 99000 signed_in limit (apart "a.b.c" "" refl) refl

parse_jwt_payload-token_of_example :
    parse_jwt_payload decode (token_of "e30" "ab+/" "sig")
    ≡ some (record { exp = some 100; sub = "1" })
parse_jwt_payload-token_of_example =
    parse_jwt_payload-token_of decode "e30" "ab+/" "sig" (omega arith) (omega arith)
      (apart "ab+/" "" refl)

abbrev no_second_factor : SetupState
no_second_factor = record {
  setup = no_setup;
  is_open = false;
  totp_enabled = none;
  recovery_codes = [];
  starts = 0;
  confirms = 0;
}

-- A wrong code is checked, and a click beside the dialog meanwhile does not close it.
abbrev wrong_code : List SetupEvent
wrong_code =
    profile_loaded (some false)
    ∷ opened
    ∷ start_answered
        (started (record { qr_data_url = "data:"; manual_secret = "JBSW"; expires_at = "" }))
    ∷ typed "000000"
    ∷ submitted
    ∷ closed
    ∷ confirm_answered (not_confirmed "no")
    ∷ []

wrong_code_secret : (setup_run wrong_code no_second_factor).setup.manual_secret ≡ "JBSW"
unfolding setup_run setup_step open_setup settle_profile start_effect begin_setup settle_setup
    begin_confirm settle_confirm close_setup type_code
wrong_code_secret = refl

no_second_factor-IsLive : IsLive no_second_factor
no_second_factor-IsLive = record {
  is_busy = λ e. absurd (ground arith);
  is_loading = λ e. absurd (ground arith);
}

setup_run-IsSound_example :
    IsLive (setup_run wrong_code no_second_factor)
    × ((setup_run wrong_code no_second_factor).setup.manual_secret
        ∈ ("" ∷ "" ∷ secrets_of wrong_code))
setup_run-IsSound_example = setup_run-IsSound wrong_code no_second_factor no_second_factor-IsLive
