-- ===== src/Labels/Certificates.antt =====
-- How certificates are shown: `panelCertFingerprintRow`, `panelCertValidityPresentation`,
-- `userCertRowStatusPresentation` and `userCertCanShowConfigDownload` of frontend/src/App.tsx.
-- A property that an object does not have is the empty text here, since the code tells neither from
-- the other. Reading a date, `toLowerCase` and the clock are parameters.
use openvpn_control_server.Shared.{
  ℕ, ◌≡◌, Bool, true, false, ◌&&◌, not, Option, none, some, String, ◌==◌, or_else, trim, is_empty,
  ltb, if◌then◌else◌, arith,
}

pub record MaterialSummary : Type 0 where
  pub certificate_signature_hash : String
  pub fingerprint_sha1 : String
  pub fingerprint_sha256 : String
  pub fingerprint_sha384 : String
  pub fingerprint_sha512 : String

pub record LabelledValue : Type 0 where
  pub label : String
  pub value : String

unfoldable pub panel_cert_fingerprint_row :
    (String → String) → Option MaterialSummary → LabelledValue
panel_cert_fingerprint_row to_lower none = record { label = "Отпечаток (SHA-256)"; value = "—" }
panel_cert_fingerprint_row to_lower (some data') =
    let h = to_lower (or_else data'.certificate_signature_hash "sha256") in
    if h == "sha512"
    then record {
      label = "Отпечаток (SHA-512)";
      value = or_else data'.fingerprint_sha512 (or_else data'.fingerprint_sha256 "—");
    }
    else if h == "sha384"
    then record {
      label = "Отпечаток (SHA-384)";
      value = or_else data'.fingerprint_sha384 (or_else data'.fingerprint_sha256 "—");
    }
    else if h == "sha1"
    then record { label = "Отпечаток (SHA-1)"; value = or_else data'.fingerprint_sha1 "—" }
    else record { label = "Отпечаток (SHA-256)"; value = or_else data'.fingerprint_sha256 "—" }

pub record Validity : Type 0 where
  pub active : Bool
  pub text : String

pub record UserCert : Type 0 where
  pub revoked_at : String
  pub expires_at : String
  -- Nothing where the backend does not say it.
  pub has_key_material : Option Bool
  pub has_cert_pem : Bool
  pub has_key_pem : Bool
  pub agent_node_id : String

pub record RowStatus : Type 0 where
  pub text : String
  pub status_class : String

-- `get_time` is `new Date(s).getTime()`, or nothing where that is NaN; `now` is `Date.now()`.
module _ (get_time : String → Option ℕ) (now : ℕ) where
  abbrev validity_at : Option ℕ → Validity
  validity_at none = record { active = false; text = "Просрочен" }
  validity_at (some t) =
      if ltb now t
      then record { active = true; text = "Действующий" }
      else record { active = false; text = "Просрочен" }

  unfoldable pub panel_cert_validity_presentation : String → Validity
  panel_cert_validity_presentation valid_to =
      if is_empty valid_to
      then record { active = false; text = "Просрочен" }
      else validity_at (get_time valid_to)

  abbrev row_status_of : Validity → RowStatus
  row_status_of v = record {
    text = v.text;
    status_class = if v.active then "app-status app-status--ok" else "app-status app-status--bad";
  }

  unfoldable pub user_cert_row_status_presentation : UserCert → RowStatus
  unfolding panel_cert_validity_presentation
  user_cert_row_status_presentation cert =
      if is_empty cert.revoked_at
      then row_status_of (panel_cert_validity_presentation cert.expires_at)
      else record { text = "Отозван"; status_class = "app-status app-status--off" }

  abbrev has_pair : UserCert → Option Bool → Bool
  has_pair cert (some b) = b
  has_pair cert none = cert.has_cert_pem && cert.has_key_pem

  unfoldable pub user_cert_can_show_config_download : UserCert → Bool
  unfolding panel_cert_validity_presentation trim
  user_cert_can_show_config_download cert =
      if is_empty cert.revoked_at
      then (panel_cert_validity_presentation cert.expires_at).active
        && has_pair cert cert.has_key_material
        && not (is_empty (trim cert.agent_node_id))
      else false

-- A certificate whose profile can be downloaded is shown in its row as one in force: the row's
-- text and class are those of a certificate that is neither revoked nor out of date.
pub user_cert_can_show_config_download-row_status :
    (get_time : String → Option ℕ) (now : ℕ) (cert : UserCert)
    → user_cert_can_show_config_download get_time now cert ≡ true
    → user_cert_row_status_presentation get_time now cert
      ≡ record { text = "Действующий"; status_class = "app-status app-status--ok" }
unfolding user_cert_can_show_config_download user_cert_row_status_presentation
    panel_cert_validity_presentation
user_cert_can_show_config_download-row_status get_time now cert h = ground arith
