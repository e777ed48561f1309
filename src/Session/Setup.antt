-- ===== src/Session/Setup.antt =====
-- The second factor of the administrator that is signed in: `startMyAdminTotpSetup`,
-- `confirmMyAdminTotpSetup`, the dialog that calls them and the effect that starts it, of
-- frontend/src/App.tsx. Of the profile, which is loaded again at the end, the state has what the
-- effect reads of it.
pub mod Laws
use openvpn_control_server.Shared.{
  ℕ, zero, suc, ◌+◌, Bool, true, false, ◌&&◌, ◌||◌, not, List, [], ◌∷◌, Option, none, some, String,
  is_empty, if◌then◌else◌,
}

pub record TotpSetup : Type 0 where
  pub loading : Bool
  pub qr_data_url : String
  pub manual_secret : String
  pub expires_at : String
  pub code : String
  pub error : String
  pub busy : Bool

-- `starts` and `confirms` are the requests that have not been answered yet. Recovery codes that
-- are not there are none. `totp_enabled` is that of the profile, once it is loaded.
pub record SetupState : Type 0 where
  pub setup : TotpSetup
  pub is_open : Bool
  pub totp_enabled : Option Bool
  pub recovery_codes : List String
  pub starts : ℕ
  pub confirms : ℕ

abbrev pub no_setup : TotpSetup
no_setup = record {
  loading = false;
  qr_data_url = "";
  manual_secret = "";
  expires_at = "";
  code = "";
  error = "";
  busy = false;
}

-- What the backend sends for a new secret.
pub record Secret : Type 0 where
  pub qr_data_url : String
  pub manual_secret : String
  pub expires_at : String

pub data StartAnswer : Type 0 where
  started : (secret : Secret) → StartAnswer
  not_started : (message : String) → StartAnswer

pub data ConfirmAnswer : Type 0 where
  confirmed : (codes : List String) → ConfirmAnswer
  not_confirmed : (message : String) → ConfirmAnswer

abbrev answered_one : ℕ → ℕ
answered_one zero = zero
answered_one (suc n) = n

-- `startMyAdminTotpSetup` up to its `await`, and the rest of it.
unfoldable pub begin_setup : SetupState → SetupState
begin_setup s = record s {
  setup = record (s.setup) { loading = true; error = "" };
  starts = suc s.starts;
}

unfoldable pub settle_setup : StartAnswer → SetupState → SetupState
settle_setup (started secret) s = record s {
  setup = record no_setup {
    qr_data_url = secret.qr_data_url;
    manual_secret = secret.manual_secret;
    expires_at = secret.expires_at;
  };
  starts = answered_one s.starts;
}
settle_setup (not_started message) s = record s {
  setup = record (s.setup) { loading = false; busy = false; error = message };
  starts = answered_one s.starts;
}

-- `confirmMyAdminTotpSetup` up to its first `await`, and the rest of it.
unfoldable pub begin_confirm : SetupState → SetupState
begin_confirm s = if is_empty s.setup.code || s.setup.busy then s else record s {
  setup = record (s.setup) { busy = true; error = "" };
  confirms = suc s.confirms;
}

unfoldable pub settle_confirm : ConfirmAnswer → SetupState → SetupState
settle_confirm (confirmed codes) s = record s {
  setup = no_setup;
  recovery_codes = codes;
  confirms = answered_one s.confirms;
}
settle_confirm (not_confirmed message) s = record s {
  setup = record (s.setup) { busy = false; error = message };
  confirms = answered_one s.confirms;
}

abbrev pub is_enabled : Option Bool → Bool
is_enabled none = false
is_enabled (some b) = b

-- The effect, where one of the two values that it depends on has changed.
unfoldable pub start_effect : SetupState → SetupState
unfolding begin_setup
start_effect s = if not s.is_open || is_enabled s.totp_enabled then s else begin_setup s

-- The button that opens the dialog, with the effect that follows where it was closed. The button
-- is shown to an administrator without a second factor.
unfoldable pub open_setup : SetupState → SetupState
unfolding start_effect
open_setup s =
    let cleared = record s { setup = record (s.setup) { error = "" }; is_open = true } in
    if s.is_open then cleared else start_effect cleared

-- `Object.is` on the value of before and a new one.
abbrev pub is_same : Option Bool → Option Bool → Bool
is_same none none = true
is_same none (some b) = false
is_same (some a) none = false
is_same (some true) (some b) = b
is_same (some false) (some b) = not b

-- The profile is set, or is none where it could not be loaded, and the effect follows where the
-- value has changed.
unfoldable pub settle_profile : Option Bool → SetupState → SetupState
unfolding start_effect
settle_profile enabled s =
    let loaded = record s { totp_enabled = enabled } in
    if is_same s.totp_enabled enabled then loaded else start_effect loaded

-- A click beside the dialog, or on its cross.
unfoldable pub close_setup : SetupState → SetupState
close_setup s =
    if s.setup.busy then s else record s { setup = no_setup; is_open = false; recovery_codes = [] }

-- The effect when the page of the profile is left; the button below the recovery codes does the same.
unfoldable pub leave_profile : SetupState → SetupState
leave_profile s = record s { setup = no_setup; is_open = false; recovery_codes = [] }

-- The field of the code, which is disabled while a code is checked.
unfoldable pub type_code : String → SetupState → SetupState
type_code text s = if s.setup.busy then s else record s { setup = record (s.setup) { code = text } }

pub data SetupEvent : Type 0 where
  opened : SetupEvent
  profile_loaded : (enabled : Option Bool) → SetupEvent
  start_answered : (answer : StartAnswer) → SetupEvent
  typed : (text : String) → SetupEvent
  submitted : SetupEvent
  confirm_answered : (answer : ConfirmAnswer) → SetupEvent
  closed : SetupEvent
  left : SetupEvent

unfoldable pub setup_step : SetupEvent → SetupState → SetupState
unfolding open_setup settle_profile start_effect begin_setup settle_setup begin_confirm
    settle_confirm close_setup leave_profile type_code
setup_step opened s = open_setup s
setup_step (profile_loaded enabled) s = settle_profile enabled s
setup_step (start_answered answer) s = settle_setup answer s
setup_step (typed text) s = type_code text s
setup_step submitted s = begin_confirm s
setup_step (confirm_answered answer) s = settle_confirm answer s
setup_step closed s = close_setup s
setup_step left s = leave_profile s

unfoldable pub setup_run : List SetupEvent → SetupState → SetupState
unfolding setup_step
setup_run [] s = s
setup_run (e ∷ es) s = setup_run es (setup_step e s)
