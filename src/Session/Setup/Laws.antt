-- ===== src/Session/Setup/Laws.antt =====
-- The dialog of the second factor, of frontend/src/App.tsx, along every sequence of events.
use openvpn_control_server.Shared.{
  ◌<◌, Bool, true, false, ◌||◌, not, List, [], ◌∷◌, String, ◌≡◌, ◌∈◌, if◌then◌else◌, refl, inl, inr,
  arith, is_empty, Bool-cases,
}
use openvpn_control_server.Session.Setup.{
  SetupState, SetupEvent, started, not_started, confirmed, not_confirmed, opened, profile_loaded,
  start_answered, typed, submitted, confirm_answered, closed, left, setup_step, setup_run,
  settle_profile, start_effect, is_enabled, is_same, begin_setup, settle_setup, begin_confirm,
  settle_confirm, open_setup, close_setup, leave_profile, type_code,
}

-- The secrets that the backend sent in these events.
unfoldable pub secrets_of : List SetupEvent → List String
secrets_of [] = []
secrets_of (start_answered (started secret) ∷ es) = secret.manual_secret ∷ secrets_of es
secrets_of (start_answered (not_started message) ∷ es) = secrets_of es
secrets_of (opened ∷ es) = secrets_of es
secrets_of (profile_loaded enabled ∷ es) = secrets_of es
secrets_of (typed text ∷ es) = secrets_of es
secrets_of (submitted ∷ es) = secrets_of es
secrets_of (confirm_answered answer ∷ es) = secrets_of es
secrets_of (closed ∷ es) = secrets_of es
secrets_of (left ∷ es) = secrets_of es

-- The dialog is blocked, or waits, only while a request has not been answered.
pub record IsLive (s : SetupState) : Type 0 where
  pub is_busy : s.setup.busy ≡ true → 0 < s.confirms
  pub is_loading : s.setup.loading ≡ true → 0 < s.starts

if-IsLive : (b : Bool) {s t : SetupState} → IsLive s → IsLive t → IsLive (if b then s else t)
if-IsLive true hs ht = hs
if-IsLive false hs ht = ht

start_effect-IsLive : (s : SetupState) → IsLive s → IsLive (start_effect s)
unfolding start_effect begin_setup
start_effect-IsLive s h =
    if-IsLive (not s.is_open || is_enabled s.totp_enabled) h
      (record { is_busy = h.is_busy; is_loading = λ _. omega arith })

setup_step-IsLive : (e : SetupEvent) (s : SetupState) → IsLive s → IsLive (setup_step e s)
unfolding setup_step open_setup settle_profile start_effect begin_setup settle_setup begin_confirm
    settle_confirm close_setup leave_profile type_code
setup_step-IsLive opened s h =
    if-IsLive s.is_open (record { is_busy = h.is_busy; is_loading = h.is_loading })
      (start_effect-IsLive (record s { setup = record (s.setup) { error = "" }; is_open = true })
        (record { is_busy = h.is_busy; is_loading = h.is_loading }))
setup_step-IsLive (profile_loaded enabled) s h =
    if-IsLive (is_same s.totp_enabled enabled)
      (record { is_busy = h.is_busy; is_loading = h.is_loading })
      (start_effect-IsLive (record s { totp_enabled = enabled })
        (record { is_busy = h.is_busy; is_loading = h.is_loading }))
setup_step-IsLive (start_answered (started secret)) s h = record {
  is_busy = λ e. absurd (ground arith);
  is_loading = λ e. absurd (ground arith);
}
setup_step-IsLive (start_answered (not_started message)) s h = record {
  is_busy = λ e. absurd (ground arith);
  is_loading = λ e. absurd (ground arith);
}
setup_step-IsLive (typed text) s h =
    if-IsLive s.setup.busy h (record { is_busy = h.is_busy; is_loading = h.is_loading })
setup_step-IsLive submitted s h =
    if-IsLive (is_empty s.setup.code || s.setup.busy) h
      (record { is_busy = λ _. omega arith; is_loading = h.is_loading })
setup_step-IsLive (confirm_answered (confirmed codes)) s h = record {
  is_busy = λ e. absurd (ground arith);
  is_loading = λ e. absurd (ground arith);
}
setup_step-IsLive (confirm_answered (not_confirmed message)) s h = record {
  is_busy = λ e. absurd (ground arith);
  is_loading = h.is_loading;
}
setup_step-IsLive closed s h =
    if-IsLive s.setup.busy h
      (record { is_busy = λ k. absurd (ground arith); is_loading = λ k. absurd (ground arith) })
setup_step-IsLive left s h = record {
  is_busy = λ e. absurd (ground arith);
  is_loading = λ e. absurd (ground arith);
}

setup_run-IsLive : (es : List SetupEvent) (s : SetupState) → IsLive s → IsLive (setup_run es s)
unfolding setup_run
setup_run-IsLive [] s h = h
setup_run-IsLive (e ∷ es) s h = setup_run-IsLive es (setup_step e s) (setup_step-IsLive e s h)

if-secret :
    (b : Bool) (s t : SetupState) {x : String}
    → s.setup.manual_secret ≡ x
    → t.setup.manual_secret ≡ x
    → (if b then s else t).setup.manual_secret ≡ x
if-secret true s t hs ht = hs
if-secret false s t hs ht = ht

start_effect_secret :
    (s : SetupState) → (start_effect s).setup.manual_secret ≡ s.setup.manual_secret
unfolding start_effect begin_setup
start_effect_secret s =
    if-secret (not s.is_open || is_enabled s.totp_enabled) s (begin_setup s) refl refl

-- An event leaves the secret that is shown, takes it away, or puts one there that it brought.
setup_step-secret :
    (e : SetupEvent) (s : SetupState)
    → (setup_step e s).setup.manual_secret ∈ (s.setup.manual_secret ∷ "" ∷ secrets_of (e ∷ []))
unfolding setup_step open_setup settle_profile start_effect begin_setup settle_setup begin_confirm
    settle_confirm close_setup leave_profile type_code secrets_of
setup_step-secret opened s = inl (
    if-secret s.is_open _ _ refl
      (start_effect_secret (record s { setup = record (s.setup) { error = "" }; is_open = true })))
setup_step-secret (profile_loaded enabled) s = inl (
    if-secret (is_same s.totp_enabled enabled) _ _ refl
      (start_effect_secret (record s { totp_enabled = enabled })))
setup_step-secret (start_answered (started secret)) s = inr (inr (inl refl))
setup_step-secret (start_answered (not_started message)) s = inl refl
setup_step-secret (typed text) s = elim (Bool-cases s.setup.busy) [
  | inl e ↦ rw e (inl refl)
  | inr e ↦ rw e (inl refl)
]
setup_step-secret submitted s = elim (Bool-cases (is_empty s.setup.code || s.setup.busy)) [
  | inl e ↦ rw e (inl refl)
  | inr e ↦ rw e (inl refl)
]
setup_step-secret (confirm_answered (confirmed codes)) s = inr (inl refl)
setup_step-secret (confirm_answered (not_confirmed message)) s = inl refl
setup_step-secret closed s = elim (Bool-cases s.setup.busy) [
  | inl e ↦ rw e (inl refl)
  | inr e ↦ rw e (inr (inl refl))
]
setup_step-secret left s = inr (inl refl)

secret-next :
    {x y z : String} (e : SetupEvent) (es : List SetupEvent)
    → y ∈ (x ∷ "" ∷ secrets_of (e ∷ []))
    → z ∈ (y ∷ "" ∷ secrets_of es)
    → z ∈ (x ∷ "" ∷ secrets_of (e ∷ es))
unfolding secrets_of
secret-next opened es h k = grind (arith)
secret-next (profile_loaded enabled) es h k = grind (arith)
secret-next (start_answered (started secret)) es h k = grind (arith)
secret-next (start_answered (not_started message)) es h k = grind (arith)
secret-next (typed text) es h k = grind (arith)
secret-next submitted es h k = grind (arith)
secret-next (confirm_answered answer) es h k = grind (arith)
secret-next closed es h k = grind (arith)
secret-next left es h k = grind (arith)

setup_run-secret :
    (es : List SetupEvent) (s : SetupState)
    → (setup_run es s).setup.manual_secret ∈ (s.setup.manual_secret ∷ "" ∷ secrets_of es)
unfolding setup_run
setup_run-secret [] s = inl refl
setup_run-secret (e ∷ es) s =
    secret-next e es (setup_step-secret e s) (setup_run-secret es (setup_step e s))

-- From a dialog of the second factor that is blocked only while a code is checked, every sequence
-- of events leads to such a dialog, and the secret in it is the one of the beginning, or none, or
-- one that the backend sent in between.
pub setup_run-IsSound :
    (es : List SetupEvent) (s : SetupState)
    → IsLive s
    → IsLive (setup_run es s)
      × ((setup_run es s).setup.manual_secret ∈ (s.setup.manual_secret ∷ "" ∷ secrets_of es))
setup_run-IsSound es s h = (setup_run-IsLive es s h, setup_run-secret es s)
