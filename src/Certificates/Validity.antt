-- ===== src/Certificates/Validity.antt =====
-- How long a certificate may be issued for: `daysRemainingUntil`, `rootCaExpiresAtIso`,
-- `certValidityDaysLimitPresentation` and the limits of the three forms, of frontend/src/App.tsx.
pub mod Laws
use openvpn_control_server.Shared.{
  ℕ, ◌+◌, ◌-◌, ◌*◌, ◌/◌, min, max, Bool, true, false, Option, none, some, String, append, is_empty,
  or_else, decimal, ltb, if◌then◌else◌,
}

abbrev pub day_ms : ℕ
day_ms = 86400000

-- `Math.max(0, Math.ceil((t - now) / 86400000))`
abbrev pub days_from : ℕ → ℕ → ℕ
days_from now t = (t - now + (day_ms - 1)) / day_ms

-- `date_ms` is `new Date(iso).getTime()`, or nothing where that is no number.
unfoldable pub days_remaining_until : (String → Option ℕ) → ℕ → String → ℕ
days_remaining_until date_ms now iso =
    if is_empty iso then 0 else elim (date_ms iso) [ none ↦ 0 | some t ↦ days_from now t ]

-- The two dates of a root CA and that of a server; a date that is not there, and the result where
-- there is none, is the empty text.
unfoldable pub root_ca_expires_at_iso : String → String → String → String
root_ca_expires_at_iso expires_at valid_to panel_root_ca_expires_at =
    or_else (or_else expires_at valid_to) panel_root_ca_expires_at

-- `Math.min(3650, Math.max(0, daysRemainingUntil(iso)))`
unfoldable pub max_cert_validity_days : (String → Option ℕ) → ℕ → String → ℕ
unfolding days_remaining_until
max_cert_validity_days date_ms now iso = min 3650 (days_remaining_until date_ms now iso)

pub record Limit : Type 0 where
  pub cap : ℕ
  pub hint : String
  pub disabled : Bool

-- `expires_label` is `formatExactRuDateTime(rootCaExpiresAtIso)`.
unfoldable pub cert_validity_days_limit_presentation : ℕ → String → Limit
unfolding decimal
cert_validity_days_limit_presentation max_days expires_label =
    if ltb max_days 1
    then record {
      cap = 0;
      hint =
          "Корневой сертификат не выбран, срок неизвестен или уже истёк. Создайте новый корневой CA или привяжите действующий на сервере.";
      disabled = true;
    }
    else record {
      cap = max_days;
      hint =
          if is_empty expires_label
          then append "Срок не может превышать оставшееся время корневого CA: максимум "
              (append (decimal max_days) " сут.")
          else append "Срок не может быть дольше корневого CA (действует до "
              (append expires_label (append "): максимум " (append (decimal max_days) " сут.")));
      disabled = false;
    }
