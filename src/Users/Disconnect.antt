-- ===== src/Users/Disconnect.antt =====
-- Ending a session: `openUserSessionDisconnect`, `submitUserSessionDisconnect` and the effect on the
-- sessions shown, of frontend/src/App.tsx. The keys of sessions that are being ended are kept in a
-- state and in the storage, whose writes succeed here.
pub mod Laws
use openvpn_control_server.Shared.{
  ℕ, Bool, true, false, ◌&&◌, ◌||◌, not, List, [], ◌∷◌, ◌++◌, Option, none, some, String, append,
  ◌==◌, is_empty, or_else, filter, if◌then◌else◌,
}
use openvpn_control_server.Users.Profiles.{has}

pub record DisconnectModal : Type 0 where
  pub is_open : Bool
  pub node_name : String
  pub session_number : String
  pub profile_name : String
  pub busy : Bool
  pub error : String

pub record Disconnecting : Type 0 where
  pub keys : List String
  pub stored : List String
  pub target_node : String
  pub target_session : String
  pub modal : DisconnectModal

abbrev pub closed_modal : DisconnectModal
closed_modal = record {
  is_open = false;
  node_name = "";
  session_number = "";
  profile_name = "";
  busy = false;
  error = "";
}

abbrev pub session_key : String → String → String
session_key node session = append node (append "-" session)

-- `session_number` is that of `openvpnSessionIdParts`.
unfoldable pub open_disconnect :
    String → String → String → String → String → Disconnecting → Disconnecting
open_disconnect node node_name session session_number profile s = record s {
  target_node = node;
  target_session = session;
  modal = record closed_modal {
    is_open = true;
    node_name = node_name;
    session_number = session_number;
    profile_name = profile;
  };
}

-- `prev.includes(key) ? prev : [...prev, key]`
abbrev pub with_key : String → List String → List String
with_key k ks = if has k ks then ks else ks ++ k ∷ []

-- `prev.filter((x) => x !== key)`
abbrev pub without_key : String → List String → List String
without_key k ks = filter (λ x. not (x == k)) ks

-- `submitUserSessionDisconnect` up to its `await`, with the node and the session that it asks to end.
unfoldable pub begin_disconnect : String → Disconnecting → Disconnecting × Option (String × String)
begin_disconnect token s =
    if is_empty s.target_node || is_empty s.target_session || is_empty token then (s, none) else (
      record s {
        keys = with_key (session_key s.target_node s.target_session) s.keys;
        stored = with_key (session_key s.target_node s.target_session) s.keys;
        modal = record (s.modal) { busy = true; error = "" };
      },
      some (s.target_node, s.target_session),
    )

pub data Answer : Type 0 where
  done : Answer
  failed : (message : String) → Answer

-- The rest of it, for the node and the session of the request.
unfoldable pub settle_disconnect : String × String → Answer → Disconnecting → Disconnecting
settle_disconnect sent done s = record s {
  target_node = "";
  target_session = "";
  modal = closed_modal;
}
settle_disconnect sent (failed message) s = record s {
  keys = without_key (session_key sent.0 sent.1) s.keys;
  stored = without_key (session_key sent.0 sent.1) s.keys;
  modal = record (s.modal) { busy = false; error = or_else message "Не удалось завершить сессию" };
}

-- `next.length !== prev.length || next.some((k, i) => k !== prev[i])`
abbrev pub has_changed : List String → List String → Bool
has_changed [] [] = false
has_changed [] (y ∷ ys) = true
has_changed (x ∷ xs) [] = true
has_changed (x ∷ xs) (y ∷ ys) = not (x == y) || has_changed xs ys

-- The effect, for the keys of the sessions that are shown as active.
unfoldable pub keep_active : List String → Disconnecting → Disconnecting
keep_active active s =
    let next = filter (λ k. has k active) s.keys in
    if has_changed next s.keys then record s { keys = next; stored = next } else s

pub data Event : Type 0 where
  opened : (node node_name session session_number profile : String) → Event
  submitted : (token : String) → Event
  answered : (sent : String × String) (answer : Answer) → Event
  shown_sessions : (active : List String) → Event

unfoldable pub step : Event → Disconnecting → Disconnecting
unfolding open_disconnect begin_disconnect settle_disconnect keep_active
step (opened node node_name session session_number profile) s =
    open_disconnect node node_name session session_number profile s
step (submitted token) s = (begin_disconnect token s).0
step (answered sent answer) s = settle_disconnect sent answer s
step (shown_sessions active) s = keep_active active s

unfoldable pub run : List Event → Disconnecting → Disconnecting
unfolding step
run [] s = s
run (e ∷ es) s = run es (step e s)
