-- ===== src/Http.antt =====
-- Requests to the backend: `request` of frontend/src/App.tsx. What `fetch` gives is an argument.
pub mod Laws
use openvpn_control_server.Shared.{
  ℕ, Bool, true, false, ◌&&◌, not, List, Option, none, some, String, is_empty, or_else, eqb, leb,
  ltb, if◌then◌else◌,
}

-- The error that is thrown, with what the answer says about it; a text that is not there is empty.
pub record ApiError : Type 0 where
  pub message : String
  pub retry_after_seconds : Option ℕ
  pub hints : Option (List String)
  pub output : String
  pub command : String
  pub config_path : String
  pub service_log : String
  pub backup_path : String
  pub rolled_back : Option Bool

abbrev pub plain_error : String → ApiError
plain_error message = record {
  message = message;
  retry_after_seconds = none;
  hints = none;
  output = "";
  command = "";
  config_path = "";
  service_log = "";
  backup_path = "";
  rolled_back = none;
}

-- The body of an answer: a value; the object of an error, whose `error` is its message; null; or
-- no JSON.
pub data Body (D : Type 0) : Type 0 where
  value : D → Body D
  error_object : ApiError → Body D
  null_json : Body D
  no_json : Body D

pub data Fetched (D : Type 0) : Type 0 where
  unreachable : Fetched D
  response : (status : ℕ) (body : Body D) → Fetched D

-- What `request` ends with; null is none. `no_value` is an answer of success that is no JSON, for
-- which the error of the parser is thrown, and `type_error` the error that reading `error` of null
-- throws.
pub data Outcome (D : Type 0) : Type 0 where
  returned : Option D → Outcome D
  returned_error_object : ApiError → Outcome D
  thrown : ApiError → Outcome D
  no_value : Outcome D
  type_error : Outcome D

-- `res.ok`
abbrev pub is_ok : ℕ → Bool
is_ok status = leb 200 status && ltb status 300

module _ {D : Type 0} where
  -- What an answer of failure ends with.
  abbrev error_of : Body D → Outcome D
  error_of (value v) = thrown (plain_error "Ошибка запроса")
  error_of (error_object e) = thrown (record e { message = or_else e.message "Ошибка запроса" })
  error_of null_json = type_error
  error_of no_json = thrown (plain_error "Ошибка запроса")

  abbrev json : Body D → Outcome D
  json (value v) = returned (some v)
  json (error_object e) = returned_error_object e
  json null_json = returned none
  json no_json = no_value

  -- What an answer of success ends with.
  abbrev success : ℕ → Body D → Outcome D
  success status body = if eqb status 204 then returned none else json body

  -- Whether the event of an invalid session is dispatched, and the outcome.
  unfoldable pub request : String → Fetched D → Bool × Outcome D
  request token unreachable =
      (false, thrown (plain_error "Ошибка сети: сервер недоступен или заблокирован браузером."))
  request token (response status body) = (
    eqb status 401 && not (is_empty token),
    (if not (is_ok status) then error_of body else success status body),
  )
