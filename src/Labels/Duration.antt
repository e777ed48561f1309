-- ===== src/Labels/Duration.antt =====
-- Durations as texts: `formatDurationRuFromMs`, `formatDurationSeconds` and
-- `formatSessionCountdown` of frontend/src/App.tsx.
pub mod Laws
use openvpn_control_server.Shared.{
  ℕ, ◌+◌, ◌*◌, ◌/◌, ◌%◌, Bool, true, false, Option, none, some, String, append, eqb, leb, ltb,
  decimal, if◌then◌else◌,
}

pub data TimeUnit : Type 0 where
  years months days hours minutes seconds : TimeUnit

-- The constants Y, MO, D, H and M.
abbrev pub in_seconds : TimeUnit → ℕ
in_seconds years = 31536000
in_seconds months = 2592000
in_seconds days = 86400
in_seconds hours = 3600
in_seconds minutes = 60
in_seconds seconds = 1

abbrev unit_text : TimeUnit → String
unit_text years = " г."
unit_text months = " мес."
unit_text days = " дн."
unit_text hours = " ч."
unit_text minutes = " мин."
unit_text seconds = " с"

-- A number of a unit and the number of a smaller one in what is left.
pub record Duration : Type 0 where
  pub whole : ℕ
  pub unit : TimeUnit
  pub part : ℕ
  pub part_unit : TimeUnit

abbrev pub in_units : ℕ → TimeUnit → TimeUnit → Duration
in_units sec u v = record {
  whole = sec / in_seconds u;
  unit = u;
  part = (sec % in_seconds u) / in_seconds v;
  part_unit = v;
}

unfoldable pub duration_of : ℕ → Duration
duration_of sec =
    if leb 31536000 sec
    then in_units sec years months
    else if leb 2592000 sec
    then in_units sec months days
    else if leb 86400 sec
    then in_units sec days hours
    else if leb 3600 sec
    then in_units sec hours minutes
    else if leb 60 sec
    then in_units sec minutes seconds
    else record { whole = sec; unit = seconds; part = 0; part_unit = seconds }

abbrev duration_text : Duration → String
duration_text d =
    let head = append (decimal d.whole) (unit_text d.unit) in
    if eqb d.part 0
    then head
    else append head (append " " (append (decimal d.part) (unit_text d.part_unit)))

-- `none` is a number that is not finite or is negative; `some ms` a number of milliseconds.
unfoldable pub format_duration_ru_from_ms : Option ℕ → String
unfolding duration_of decimal
format_duration_ru_from_ms none = "—"
format_duration_ru_from_ms (some ms) = duration_text (duration_of (ms / 1000))

abbrev with_part : ℕ → String → ℕ → String → String
with_part n u r v =
    if eqb r 0
    then append (decimal n) u
    else append (decimal n) (append u (append " " (append (decimal r) v)))

-- `none` is no number, or one that is not finite; `some s` is the seconds, rounded down, and 0 for
-- a negative number.
unfoldable pub format_duration_seconds : Option ℕ → String
unfolding decimal
format_duration_seconds none = "—"
format_duration_seconds (some s) =
    if ltb s 60
    then append (decimal s) " с"
    else let m = s / 60 in
      if ltb m 60 then with_part m " мин" (s % 60) " с" else with_part (m / 60) " ч" (m % 60) " мин"

-- `String(n).padStart(2, "0")`
abbrev pad_start : ℕ → String
pad_start n = if ltb n 10 then append "0" (decimal n) else decimal n

unfoldable pub format_session_countdown : ℕ → String
unfolding decimal
format_session_countdown s = append (pad_start (s / 60)) (append ":" (pad_start (s % 60)))
