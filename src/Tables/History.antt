-- ===== src/Tables/History.antt =====
-- The tables of the logs: `dateMsOrZero`, `sortRowsByLastSeenDesc`, `sortRowsByCreatedDesc`, the two
-- durations, and the searches of frontend/src/App.tsx.
pub mod Laws
use openvpn_control_server.Shared.{
  ℕ, ◌-◌, ◌/◌, Bool, true, false, ◌&&◌, List, [], ◌∷◌, Option, none, some, String, is_empty, trim,
  filter, any, sort, eqb, leb, ltb, if◌then◌else◌,
}

-- A row of the logs of addresses; a property that is not there is the empty text, but for the end
-- of the row, which is none where it is null or not there, as is a duration that is no number.
pub record HistoryRow : Type 0 where
  pub id : String
  pub first_seen_at : String
  pub last_seen_at : String
  pub ended_at : Option String
  pub duration_seconds : Option ℕ

-- A row of the log of the administrators' actions.
pub record ActionRow : Type 0 where
  pub id : String
  pub created_at : String

abbrev pub or_zero : Option ℕ → ℕ
or_zero none = 0
or_zero (some n) = n

-- `date_ms` is `new Date(value).getTime()`, or nothing where that is not finite.
module _ (date_ms : String → Option ℕ) where
  abbrev pub date_ms_or_zero : String → ℕ
  date_ms_or_zero value = if is_empty value then 0 else or_zero (date_ms value)

  -- The seconds from one time to another, at least 0.
  abbrev seconds_between : ℕ → ℕ → ℕ
  seconds_between start end_ = (end_ - start) / 1000

  -- The text that a truth test and `dateMsOrZero` see.
  abbrev ended_text : Option String → String
  ended_text none = ""
  ended_text (some s) = s

  unfoldable pub client_ip_assignment_duration_seconds : ℕ → HistoryRow → Option ℕ
  client_ip_assignment_duration_seconds now item =
      let start = date_ms_or_zero item.first_seen_at in
      if eqb start 0
      then none
      else if is_empty (ended_text item.ended_at)
      then some (seconds_between start now)
      else some (seconds_between start (date_ms_or_zero (ended_text item.ended_at)))

  abbrev given_duration : Option String → Option ℕ → Option ℕ → Option ℕ
  given_duration none duration other = other
  given_duration (some s) none other = other
  given_duration (some s) (some n) other = some n

  unfoldable pub client_source_history_duration_seconds : ℕ → HistoryRow → Option ℕ
  unfolding client_ip_assignment_duration_seconds
  client_source_history_duration_seconds now item =
      given_duration item.ended_at item.duration_seconds
        (client_ip_assignment_duration_seconds now item)

  -- `collate a b` is `a.localeCompare(b, undefined, { sensitivity: "base" }) <= 0`.
  module _ (collate : String → String → Bool) where
    -- The row that was seen last comes first, then the one that was seen first last, then by id.
    abbrev pub by_last_seen : HistoryRow → HistoryRow → Bool
    by_last_seen a b =
        if eqb (date_ms_or_zero b.last_seen_at) (date_ms_or_zero a.last_seen_at)
        then if eqb (date_ms_or_zero b.first_seen_at) (date_ms_or_zero a.first_seen_at)
          then collate a.id b.id
          else leb (date_ms_or_zero b.first_seen_at) (date_ms_or_zero a.first_seen_at)
        else leb (date_ms_or_zero b.last_seen_at) (date_ms_or_zero a.last_seen_at)

    unfoldable pub sort_rows_by_last_seen_desc : List HistoryRow → List HistoryRow
    unfolding sort
    sort_rows_by_last_seen_desc rows = sort by_last_seen rows

    abbrev pub by_created : ActionRow → ActionRow → Bool
    by_created a b =
        if eqb (date_ms_or_zero b.created_at) (date_ms_or_zero a.created_at)
        then collate a.id b.id
        else leb (date_ms_or_zero b.created_at) (date_ms_or_zero a.created_at)

    unfoldable pub sort_rows_by_created_desc : List ActionRow → List ActionRow
    unfolding sort
    sort_rows_by_created_desc rows = sort by_created rows

-- The rows that a search finds; `parts` are the texts that a row is shown with, and `includes s t`
-- is `s.includes(t)`.
module _ {A : Type 0} (to_lower : String → String) (includes : String → String → Bool)
    (parts : A → List String) where
  abbrev pub is_found : String → A → Bool
  is_found q item = any (λ x. includes (to_lower x) q) (parts item)

  unfoldable pub logs_found : String → List A → List A
  unfolding trim
  logs_found search items =
      let q = to_lower (trim search) in if is_empty q then items else filter (is_found q) items
