-- ===== src/Metrics/Time.antt =====
-- Times of metrics, frontend/src/monitoringTime.ts.
use openvpn_control_server.Shared.{
  ℕ, ◌-◌, ◌*◌, Bool, false, ◌&&◌, ◌||◌, Option, none, some, String, Char, code, append, is_empty,
  trim, eqb, leb, if◌then◌else◌,
}

abbrev is_digit : Char → Bool
is_digit c = leb 48 (code c) && leb (code c) 57

abbrev is_sign : Char → Bool
is_sign c = eqb (code c) 43 || eqb (code c) 45

-- The text is "z", "Z", or an offset as "+0300" or "+03:00".
abbrev is_zone : String → Bool
is_zone (String.◌∷◌ c String.[]) = eqb (code c) 122 || eqb (code c) 90
is_zone (String.◌∷◌ a (String.◌∷◌ b (String.◌∷◌ c (String.◌∷◌ d (String.◌∷◌ e String.[]))))) =
    is_sign a && is_digit b && is_digit c && is_digit d && is_digit e
is_zone
      (String.◌∷◌ a
        (String.◌∷◌ b (String.◌∷◌ c (String.◌∷◌ x (String.◌∷◌ d (String.◌∷◌ e String.[])))))) =
    is_sign a && is_digit b && is_digit c && eqb (code x) 58 && is_digit d && is_digit e
is_zone s = false

-- `/[zZ]$|[+-]\d{2}:?\d{2}$/.test(s)`
unfoldable pub ends_with_zone : String → Bool
ends_with_zone String.[] = false
ends_with_zone (String.◌∷◌ c s) = let rest = ends_with_zone s in is_zone (String.◌∷◌ c s) || rest

-- `s.includes(c)` for a character, given by its code.
unfoldable pub has_char : ℕ → String → Bool
has_char x String.[] = false
has_char x (String.◌∷◌ c s) = let rest = has_char x s in eqb (code c) x || rest

-- `s.replace(" ", "T")`, which replaces the first space.
unfoldable pub space_to_t : String → String
space_to_t String.[] = ""
space_to_t (String.◌∷◌ c s) =
    let rest = space_to_t s in if eqb (code c) 32 then String.◌∷◌ "T" s else String.◌∷◌ c rest

abbrev with_t : String → String
with_t s = if has_char 84 s then s else space_to_t s

-- The time of a text, where `date_parse` is `Date.parse`, or nothing where that is not finite. A
-- value that is not there is none, and its text is that of `String(value)`.
module _ (date_parse : String → Option ℕ) where
  unfoldable pub parse_utc_ms : Option String → Option ℕ
  unfolding ends_with_zone has_char space_to_t trim
  parse_utc_ms none = none
  parse_utc_ms (some value) =
      let s = trim value in
      if is_empty s
      then none
      else if ends_with_zone s
      then date_parse s
      else date_parse (append (with_t s) "Z")

-- A number of minutes that is not finite is none; 0 and that stand for a quarter of an hour.
unfoldable pub monitoring_window_ms : Option ℕ → ℕ
monitoring_window_ms none = 15 * 60 * 1000
monitoring_window_ms (some m) = (if eqb m 0 then 15 else m) * 60 * 1000

-- The ends of the axis at a time; the first is 0 where the window is longer than the time.
unfoldable pub monitoring_x_range : ℕ → Option ℕ → ℕ × ℕ
unfolding monitoring_window_ms
monitoring_x_range now history_minutes = (now - monitoring_window_ms history_minutes, now)
