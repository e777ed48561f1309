-- ===== src/Certificates/Validity/Laws.antt =====
-- How the limit lies to the time that a root CA has left.
use openvpn_control_server.Shared.{
  ◌≡◌, ◌≢◌, ℕ, ◌+◌, ◌*◌, ◌≤◌, ◌<◌, ◌↔◌, max, true, false, Option, some, String, is_empty,
  is_empty_iff, arith,
}
use openvpn_control_server.Certificates.Validity.{
  day_ms, days_from, days_remaining_until, max_cert_validity_days,
  cert_validity_days_limit_presentation,
}

days_from_bounds :
    (now t : ℕ)
    → (t ≤ now + days_from now t * day_ms) × (now + days_from now t * day_ms < max now t + day_ms)
days_from_bounds now t = (omega arith, omega arith)

-- The days that are left until a date that can be read reach that date, and exceed it, or the
-- present where it has passed, by less than a day: the last day counts in full.
pub days_remaining_until_bounds :
    (date_ms : String → Option ℕ) (now t : ℕ) (iso : String)
    → iso ≢ ""
    → date_ms iso ≡ some t
    → (t ≤ now + days_remaining_until date_ms now iso * day_ms)
      × (now + days_remaining_until date_ms now iso * day_ms < max now t + day_ms)
unfolding days_remaining_until
days_remaining_until_bounds date_ms now t iso n e =
    let full : is_empty iso ≡ false = ground (arith, is_empty_iff iso) in
    rw (full, e) (days_from_bounds now t)

-- The form is closed exactly where no day is left.
pub limit_disabled :
    (date_ms : String → Option ℕ) (now t : ℕ) (iso label : String)
    → iso ≢ ""
    → date_ms iso ≡ some t
    → ((cert_validity_days_limit_presentation
          (max_cert_validity_days date_ms now iso)
          label).disabled
        ≡ true)
      ↔ (t ≤ now)
unfolding cert_validity_days_limit_presentation max_cert_validity_days days_remaining_until
limit_disabled date_ms now t iso label n e =
    let full : is_empty iso ≡ false = ground (arith, is_empty_iff iso) in
    rw (full, e) (ground arith)
