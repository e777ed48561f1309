-- ===== src/Session/Access/Laws.antt =====
-- What holds of a session after any sequence of events.
use openvpn_control_server.Shared.{
  ◌≡◌, ◌≢◌, refl, ◌⊎◌, inl, inr, ℕ, ◌<◌, ◌*◌, true, ◌&&◌, not, List, [], ◌∷◌, ◌++◌, ◌∈◌,
  in-append_iff, Bool-cases, Option, some, String, is_empty, eq_iff, if◌then◌else◌, arith,
}
use openvpn_control_server.Session.Token.{
  Claims, exp_of, is_over, parse_jwt_payload, read_stored_token_if_valid,
}
use openvpn_control_server.Session.Access.{
  Session, answered, failed, unauthorized, not_ok, unreachable, renewed, Event, login_answered,
  mfa_typed, mfa_submitted, mfa_answered, mfa_closed, refresh_answered, request_unauthorized,
  ticked, logged_out, reloaded, on_invalid, close_mfa_modal, login, begin_mfa_login,
  settle_mfa_login, settle_refresh_session, is_expired, tick, logout, store_token, opened, handle,
  step, run, given,
}

-- The storage holds the token, if there is one; the prompt for a second factor is open exactly
-- while there is a token to answer it with, and a second factor is being checked only then.
pub record IsConsistent (s : Session) : Type 0 where
  pub is_stored : s.stored ≡ given s.token
  pub is_prompted : s.mfa_modal_open ≡ not (is_empty s.mfa_pending_token)
  pub is_checked : s.mfa_busy ≡ true → s.mfa_modal_open ≡ true

-- The same before the effect, which knows the token of before the event.
record IsReady (before : String) (s : Session) : Type 0 where
  is_stored : (s.stored ≡ given before) ⊎ (s.stored ≡ given s.token)
  is_prompted : s.mfa_modal_open ≡ not (is_empty s.mfa_pending_token)
  is_checked : s.mfa_busy ≡ true → s.mfa_modal_open ≡ true

store_token-IsConsistent :
    (before : String) (s : Session) → IsReady before s → IsConsistent (store_token before s)
unfolding store_token
store_token-IsConsistent before s h = ground (arith, eq_iff before s.token)

-- The tokens that an answer of the server grants. A sign-in that asks for a second factor grants
-- none, whatever it holds.
abbrev pub issued : Event → List String
issued (login_answered now (answered r)) =
    if r.mfa_required && not (is_empty r.mfa_pending_token) then [] else r.token ∷ []
issued (mfa_answered now (answered r)) = r.token ∷ []
issued (refresh_answered (renewed t)) = t ∷ []
issued _ = []

abbrev pub all_issued : List Event → List String
all_issued [] = []
all_issued (e ∷ es) = issued e ++ all_issued es

module _ (decode : String → Option Claims) where
  tick-cases :
      (now : ℕ) (s : Session)
      → (tick decode now s ≡ s)
        ⊎ (tick decode now s ≡ on_invalid (record s { session_now = now }))
        ⊎ (tick decode now s ≡ record s { session_now = now })
  unfolding tick
  tick-cases now s = elim (Bool-cases (is_empty s.token)) [
    | inl e ↦ inl (rw e refl)
    | inr e ↦
        elim (Bool-cases
          (is_expired decode now (exp_of decode (parse_jwt_payload decode s.token)))) [
            | inl k ↦ inr (inl (rw (e, k) refl))
            | inr k ↦ inr (inr (rw (e, k) refl))
          ]
  ]

  handle-IsReady : (e : Event) (s : Session) → IsConsistent s → IsReady s.token (handle decode e s)
  unfolding handle login settle_mfa_login settle_refresh_session opened begin_mfa_login on_invalid
      close_mfa_modal logout
  handle-IsReady (login_answered now (answered r)) s h = ground arith
  handle-IsReady (login_answered now (failed e)) s h = ground arith
  handle-IsReady (mfa_typed totp_code recovery_code) s h = ground arith
  handle-IsReady mfa_submitted s h = ground arith
  handle-IsReady (mfa_answered now (answered r)) s h = elim (Bool-cases (is_empty r.token)) [
    | inl e ↦ rw e (ground arith)
    | inr e ↦
        rw e (record { is_stored = inl h.is_stored; is_prompted = refl; is_checked = λ b. cc })
  ]
  handle-IsReady (mfa_answered now (failed e)) s h = ground arith
  handle-IsReady mfa_closed s h = ground arith
  handle-IsReady (refresh_answered unauthorized) s h = ground arith
  handle-IsReady (refresh_answered not_ok) s h = ground arith
  handle-IsReady (refresh_answered unreachable) s h = ground arith
  handle-IsReady (refresh_answered (renewed t)) s h = ground arith
  handle-IsReady request_unauthorized s h = ground arith
  handle-IsReady (ticked now) s h = elim (tick-cases now s) [
    | inl e ↦ rw e (ground arith)
    | inr (inl e) ↦ rw e (ground arith)
    | inr (inr e) ↦ rw e (ground arith)
  ]
  handle-IsReady logged_out s h = ground arith
  handle-IsReady (reloaded now) s h = ground arith

  step-IsConsistent : (e : Event) (s : Session) → IsConsistent s → IsConsistent (step decode e s)
  unfolding step
  step-IsConsistent e s h =
      store_token-IsConsistent s.token (handle decode e s) (handle-IsReady e s h)

  -- A state in which the storage holds the token that is in use, the prompt for a second factor
  -- is open exactly while there is a token to answer it with, and a second factor is being
  -- checked only while it is open, leads to such a state by any sequence of events.
  pub run-IsConsistent :
      (es : List Event) (s : Session) → IsConsistent s → IsConsistent (run decode es s)
  unfolding run
  run-IsConsistent [] s h = h
  run-IsConsistent (e ∷ es) s h = run-IsConsistent es (step decode e s) (step-IsConsistent e s h)

  store_token-token : (before : String) (s : Session) → (store_token before s).token ≡ s.token
  unfolding store_token
  store_token-token before s = ground arith

  step-token : (e : Event) (s : Session) → (step decode e s).token ≡ (handle decode e s).token
  unfolding step
  step-token e s = store_token-token s.token (handle decode e s)

  read-token :
      (now : ℕ) (t : String)
      → (read_stored_token_if_valid decode now (given t)).0
        ≡ (if is_over decode now (exp_of decode (parse_jwt_payload decode t)) then "" else t)
  unfolding read_stored_token_if_valid parse_jwt_payload
  read-token now t = ground arith

  -- When the page is opened again from a consistent state, the token stays if it names a time of
  -- expiry that has not come, and is empty if not.
  pub step-reloaded :
      (now : ℕ) (s : Session)
      → IsConsistent s
      → (step decode (reloaded now) s).token ≡ (
          if is_over decode now (exp_of decode (parse_jwt_payload decode s.token))
          then ""
          else s.token)
  unfolding handle opened
  step-reloaded now s h = rw (step-token (reloaded now) s, h.is_stored) (read-token now s.token)

  -- A token that is in use after the clock has ticked and names a time of expiry, other than 0,
  -- has not expired at that time.
  pub step-ticked :
      (now : ℕ) (s : Session) (exp : ℕ)
      → (step decode (ticked now) s).token ≢ ""
      → exp_of decode (parse_jwt_payload decode (step decode (ticked now) s).token) ≡ some exp
      → (exp ≡ 0) ⊎ (now < exp * 1000)
  unfolding handle tick on_invalid
  step-ticked now s exp n e = ground (arith, step-token (ticked now) s)

  handle-issued :
      (e : Event) (s : Session)
      → IsConsistent s
      → ((handle decode e s).token ≡ "")
        ⊎ ((handle decode e s).token ≡ s.token)
        ⊎ ((handle decode e s).token ∈ issued e)
  unfolding handle login settle_mfa_login settle_refresh_session tick opened begin_mfa_login
      on_invalid close_mfa_modal logout
  handle-issued (login_answered now (answered r)) s h = ground arith
  handle-issued (login_answered now (failed e)) s h = ground arith
  handle-issued (mfa_typed totp_code recovery_code) s h = ground arith
  handle-issued mfa_submitted s h = ground arith
  handle-issued (mfa_answered now (answered r)) s h = ground arith
  handle-issued (mfa_answered now (failed e)) s h = ground arith
  handle-issued mfa_closed s h = ground arith
  handle-issued (refresh_answered unauthorized) s h = ground arith
  handle-issued (refresh_answered not_ok) s h = ground arith
  handle-issued (refresh_answered unreachable) s h = ground arith
  handle-issued (refresh_answered (renewed t)) s h = ground arith
  handle-issued request_unauthorized s h = ground arith
  handle-issued (ticked now) s h = ground arith
  handle-issued logged_out s h = ground arith
  handle-issued (reloaded now) s h =
      ground (arith, step-reloaded now s h, step-token (reloaded now) s)

  -- After any sequence of events from a consistent state, with the answers of the server in any
  -- order, the token is empty, the one of the beginning, or one that the server granted on the
  -- way; an answer that asks for a second factor grants none.
  pub run-issued :
      (es : List Event) (s : Session)
      → IsConsistent s
      → ((run decode es s).token ≡ "") ⊎ ((run decode es s).token ∈ (s.token ∷ all_issued es))
  unfolding run
  run-issued [] s h = inr (inl refl)
  run-issued (e ∷ es) s h = ground (
    arith,
    run-issued es (step decode e s) (step-IsConsistent e s h),
    handle-issued e s h,
    step-token e s,
    in-append_iff (run decode es (step decode e s)).token (issued e) (all_issued es),
    in-append_iff (step decode e s).token (issued e) (all_issued es),
  )
