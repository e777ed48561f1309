-- ===== src/Session/Access.antt =====
-- Sign-in and sign-out as a state machine: `login`, `submitMfaLogin`, `closeMfaModal`,
-- `refreshSession`, `logout`, the handlers of an invalid session and of the clock, and the effect
-- that stores the token, of frontend/src/App.tsx. The answers of the server are part of the events,
-- and may come at any time. Left out are the other things that `logout` empties: the profile, the
-- filters and the form of an organization.
pub mod Laws
use openvpn_control_server.Shared.{
  ℕ, ◌*◌, Bool, true, false, ◌&&◌, ◌||◌, not, List, [], ◌∷◌, Option, none, some, String, append,
  is_empty, ◌==◌, eqb, leb, trim, decimal, if◌then◌else◌,
}
use openvpn_control_server.Routes.Paths.{home}
use openvpn_control_server.Session.Token.{
  Claims, exp_of, parse_jwt_payload, read_stored_token_if_valid,
}

-- The state of the application that a session is about, with the item of the storage. An empty
-- token means that nobody is signed in.
pub record Session : Type 0 where
  pub token : String
  pub stored : Option String
  pub session_now : ℕ
  pub error : String
  pub has_overview : Bool
  pub path : String
  pub mfa_modal_open : Bool
  pub mfa_pending_token : String
  pub mfa_totp_code : String
  pub mfa_recovery_code : String
  pub mfa_error : String
  pub mfa_busy : Bool

-- The answer to a sign-in; a property that is not there is the empty text.
pub record SignIn : Type 0 where
  pub mfa_required : Bool
  pub mfa_pending_token : String
  pub token : String

-- An error of `request`, with its `retryAfterSeconds`.
pub record RequestError : Type 0 where
  pub message : String
  pub retry_after_seconds : Option ℕ

pub data Answer (A : Type 0) : Type 0 where
  answered : A → Answer A
  failed : RequestError → Answer A

-- The answer to a renewal: 401, another error, a body with its token, or no answer.
pub data Renewal : Type 0 where
  unauthorized not_ok unreachable : Renewal
  renewed : (token : String) → Renewal

-- What is sent with a second factor.
pub record SecondFactor : Type 0 where
  pub pending_token : String
  pub totp_code : String
  pub recovery_code : Option String

pub data Event : Type 0 where
  login_answered : (now : ℕ) (answer : Answer SignIn) → Event
  mfa_typed : (totp_code recovery_code : String) → Event
  mfa_submitted : Event
  mfa_answered : (now : ℕ) (answer : Answer SignIn) → Event
  mfa_closed : Event
  refresh_answered : (answer : Renewal) → Event
  -- A request with the token was answered by 401.
  request_unauthorized : Event
  ticked : (now : ℕ) → Event
  logged_out : Event
  -- The page is opened again.
  reloaded : (now : ℕ) → Event

abbrev retry_text : Option ℕ → String
retry_text none = ""
retry_text (some n) = append " Повтор через " (append (decimal n) " с.")

-- `${e.message}${extra}`
abbrev error_text : RequestError → String
error_text e = append e.message (retry_text e.retry_after_seconds)

-- The listener of the event of an invalid session.
unfoldable pub on_invalid : Session → Session
on_invalid s = record s {
  stored = none;
  token = "";
  has_overview = false;
  error = "Сессия истекла. Войдите снова.";
  path = home;
}

unfoldable pub close_mfa_modal : Session → Session
close_mfa_modal s = record s {
  mfa_modal_open = false;
  mfa_pending_token = "";
  mfa_totp_code = "";
  mfa_recovery_code = "";
  mfa_error = "";
  mfa_busy = false;
}

-- `login` after its `await`.
unfoldable pub login : ℕ → Answer SignIn → Session → Session
unfolding decimal
login now (failed e) s = record s { error = error_text e }
login now (answered result) s =
    if result.mfa_required && not (is_empty result.mfa_pending_token)
    then record s {
      mfa_pending_token = result.mfa_pending_token;
      mfa_modal_open = true;
      mfa_totp_code = "";
      mfa_recovery_code = "";
      mfa_error = "";
      error = "";
    }
    else if is_empty result.token
    then record s { error = "Сервер не вернул данные для входа. Попробуйте снова." }
    else record s { token = result.token; session_now = now; path = home }

abbrev pub given : String → Option String
given s = if is_empty s then none else some s

-- `submitMfaLogin` up to its `await`, and what it sends.
unfoldable pub begin_mfa_login : Session → Session × Option SecondFactor
unfolding trim
begin_mfa_login s = if is_empty s.mfa_pending_token || s.mfa_busy then (s, none) else (
  record s { mfa_busy = true; mfa_error = "" },
  some (record {
    pending_token = s.mfa_pending_token;
    totp_code = s.mfa_totp_code;
    recovery_code = given (trim s.mfa_recovery_code);
  }),
)

-- The rest of it.
unfoldable pub settle_mfa_login : ℕ → Answer SignIn → Session → Session
unfolding close_mfa_modal decimal
settle_mfa_login now (failed e) s = record s { mfa_error = error_text e; mfa_busy = false }
settle_mfa_login now (answered result) s =
    if is_empty result.token
    then record s { mfa_error = "Сервер не вернул токен сессии. Войдите снова."; mfa_busy = false }
    else record (close_mfa_modal (record s { token = result.token; session_now = now })) {
      path = home;
      mfa_busy = false;
    }

-- The token with which a renewal is asked for.
abbrev pub begin_refresh_session : Session → Option String
begin_refresh_session s = given s.token

unfoldable pub settle_refresh_session : Renewal → Session → Session
unfolding on_invalid
settle_refresh_session unauthorized s = on_invalid s
settle_refresh_session not_ok s = s
settle_refresh_session unreachable s = s
settle_refresh_session (renewed t) s = if is_empty t then s else record s { token = t }

unfoldable pub logout : Session → Session
logout s = record s { token = ""; has_overview = false; error = ""; path = home }

-- `useEffect(..., [token])`: where the token has changed, the storage follows it.
unfoldable pub store_token : String → Session → Session
store_token before s = if before == s.token then s else record s { stored = given s.token }

module _ (decode : String → Option Claims) where
  -- `expMs && now >= expMs`
  abbrev pub is_expired : ℕ → Option ℕ → Bool
  is_expired now none = false
  is_expired now (some exp) = not (eqb exp 0) && leb (exp * 1000) now

  -- The interval of a second; it runs while there is a token.
  unfoldable pub tick : ℕ → Session → Session
  unfolding on_invalid
  tick now s =
      if is_empty s.token
      then s
      else if is_expired now (exp_of decode (parse_jwt_payload decode s.token))
      then on_invalid (record s { session_now = now })
      else record s { session_now = now }

  -- The state when a page is opened, with what the storage holds.
  unfoldable pub opened : ℕ → String → Option String → Session
  unfolding read_stored_token_if_valid
  opened now path stored = record {
    token = (read_stored_token_if_valid decode now stored).0;
    stored = given (read_stored_token_if_valid decode now stored).0;
    session_now = now;
    error = "";
    has_overview = false;
    path = path;
    mfa_modal_open = false;
    mfa_pending_token = "";
    mfa_totp_code = "";
    mfa_recovery_code = "";
    mfa_error = "";
    mfa_busy = false;
  }

  unfoldable pub handle : Event → Session → Session
  unfolding login begin_mfa_login settle_mfa_login close_mfa_modal settle_refresh_session on_invalid
      tick logout opened
  handle (login_answered now answer) s = login now answer s
  handle (mfa_typed totp_code recovery_code) s = record s {
    mfa_totp_code = totp_code;
    mfa_recovery_code = recovery_code;
  }
  handle mfa_submitted s = (begin_mfa_login s).0
  handle (mfa_answered now answer) s = settle_mfa_login now answer s
  handle mfa_closed s = close_mfa_modal s
  handle (refresh_answered answer) s = settle_refresh_session answer s
  handle request_unauthorized s = on_invalid s
  handle (ticked now) s = tick now s
  handle logged_out s = logout s
  handle (reloaded now) s = opened now s.path s.stored

  -- An event, and then the effect.
  unfoldable pub step : Event → Session → Session
  unfolding store_token handle
  step e s = store_token s.token (handle e s)

  unfoldable pub run : List Event → Session → Session
  unfolding step
  run [] s = s
  run (e ∷ es) s = run es (step e s)
