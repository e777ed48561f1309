-- ===== src/Users/Sessions.antt =====
-- The sessions of a user's page, `loadUserProfileSessions` of frontend/src/App.tsx: those that the
-- server knows, and the connected clients that it does not know yet.
pub mod Laws
use openvpn_control_server.Shared.{
  ℕ, Bool, true, false, ◌&&◌, ◌||◌, not, List, [], ◌∷◌, ◌++◌, map, Option, none, some, String,
  append, ◌==◌, is_empty, or_else, trim, sort, leb, if◌then◌else◌,
}
use openvpn_control_server.Certificates.{Certificate}
use openvpn_control_server.Users.Profiles.{Client, has, cert_cns}

-- A row, with the time that `new Date(lastSeenAt || 0).getTime()` gives for when it was last seen.
pub record SessionRow : Type 0 where
  pub node_id : String
  pub node_name : String
  pub session_id : String
  pub common_name : String
  pub remote_ip : String
  pub virtual_ip : String
  pub connected_at : String
  pub first_seen_at : String
  pub last_seen_at : ℕ
  pub is_active : Bool
  pub in_bps : ℕ
  pub out_bps : ℕ

-- "\t"
abbrev tab : String
tab = "\t"

abbrev pub row_key : SessionRow → String
row_key r = append r.node_id (append tab r.session_id)

abbrev pub client_key : Client → String
client_key c = append c.node_id (append tab c.id)

-- What a connected client is shown as.
abbrev pub row_of : ℕ → Client → SessionRow
row_of now c = record {
  node_id = c.node_id;
  node_name = or_else c.node_name c.node_id;
  session_id = c.id;
  common_name = trim c.common_name;
  remote_ip = c.remote_ip;
  virtual_ip = c.virtual_ip;
  connected_at = or_else c.connected_at c.connected_since;
  first_seen_at = or_else c.connected_at c.connected_since;
  last_seen_at = now;
  is_active = true;
  in_bps = c.in_bps;
  out_bps = c.out_bps;
}

abbrev pub by_last_seen : SessionRow → SessionRow → Bool
by_last_seen a b = leb b.last_seen_at a.last_seen_at

module _ (to_lower : String → String) where
  -- The name of a client is one of those on the certificates.
  abbrev pub is_own : List String → Client → Bool
  is_own cns c = not (is_empty (trim c.common_name)) && has (to_lower (trim c.common_name)) cns

  -- The loop over the connected clients; `seen` holds the keys of the rows.
  unfoldable pub new_rows : ℕ → List String → List String → List Client → List SessionRow
  unfolding trim
  new_rows now cns seen [] = []
  new_rows now cns seen (c ∷ cs) =
      let rest = new_rows now cns seen cs in
      let more = new_rows now cns (client_key c ∷ seen) cs in
      if not (is_own cns c) || has (client_key c) seen then rest else row_of now c ∷ more

  unfoldable pub merged_rows : ℕ → List String → List SessionRow → List Client → List SessionRow
  unfolding new_rows sort
  merged_rows now cns list clients =
      sort by_last_seen (list ++ new_rows now cns (map row_key list) clients)

  abbrev pub merged_or : ℕ → List String → List SessionRow → List Client → List SessionRow
  merged_or now [] list clients = list
  merged_or now (cn ∷ cns) list clients = merged_rows now (cn ∷ cns) list clients

  -- The rows that are shown for the answer of the server; a failure of the request shows none.
  unfoldable pub load_user_profile_sessions :
      ℕ → String → List Certificate → List Client → Option (List SessionRow) → List SessionRow
  unfolding merged_rows cert_cns
  load_user_profile_sessions now uid certificates clients none = []
  load_user_profile_sessions now uid certificates clients (some list) =
      merged_or now (cert_cns to_lower uid certificates) list clients
