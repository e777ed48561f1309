-- ===== src/Http/Laws.antt =====
-- How a request ends.
use openvpn_control_server.Shared.{
  ◌≡◌, ◌≢◌, refl, ◌↔◌, ℕ, Bool, true, false, String, Bool-cases, inl, inr, is_empty_iff,
  or_else_full, apart, arith,
}
use openvpn_control_server.Http.{
  Body, value, error_object, null_json, no_json, unreachable, response, Outcome, returned,
  returned_error_object, thrown, no_value, type_error, is_ok, error_of, success, request,
}

-- An error of `request` was thrown, and it has a message.
abbrev pub HasMessage : {D : Type 0} → Outcome D → Type 0
HasMessage (thrown e) = e.message ≢ ""
HasMessage (returned v) = ⊥
HasMessage (returned_error_object e) = ⊥
HasMessage no_value = ⊥
HasMessage type_error = ⊥

abbrev pub is_null : {D : Type 0} → Body D → Bool
is_null null_json = true
is_null (value v) = false
is_null (error_object e) = false
is_null no_json = false

module _ {D : Type 0} where
  error_of-HasMessage : (body : Body D) → HasMessage (error_of body) ↔ (is_null body ≡ false)
  error_of-HasMessage (value v) = ((λ _. refl), λ _. apart "Ошибка запроса" "" refl)
  error_of-HasMessage (error_object e) =
      ((λ _. refl), λ _. or_else_full e.message "Ошибка запроса" (apart "Ошибка запроса" "" refl))
  error_of-HasMessage null_json = ((λ h. absurd h), λ h. cc)
  error_of-HasMessage no_json = ((λ _. refl), λ _. apart "Ошибка запроса" "" refl)

  json-HasMessage : (status : ℕ) (body : Body D) → ¬ HasMessage (success status body)
  unfolding success
  json-HasMessage status (value v) = ground arith
  json-HasMessage status (error_object e) = ground arith
  json-HasMessage status null_json = ground arith
  json-HasMessage status no_json = ground arith

  -- Whatever the server answers, `request` throws an error of its own with a message exactly
  -- where the answer is none of success and its body is not null, and the event of an invalid
  -- session goes out exactly for an answer of 401 to a request with a token; a request that
  -- cannot be sent throws an error with a message and no event goes out.
  pub request-HasMessage :
      (token : String) (status : ℕ) (body : Body D)
      → (HasMessage (request token (response status body)).1
          ↔ ((is_ok status ≡ false) × (is_null body ≡ false)))
        × (((request token (response status body)).0 ≡ true) ↔ ((status ≡ 401) × (token ≢ "")))
        × HasMessage {D = D} (request token unreachable).1
        × ((request {D = D} token unreachable).0 ≡ false)
  unfolding request
  request-HasMessage token status body = (
    elim (Bool-cases (is_ok status)) [
      | inl e ↦ rw e ((λ h. absurd (json-HasMessage status body h)), λ h. cc (h.0))
      | inr e ↦
          rw e
            ((λ h. (refl, (error_of-HasMessage body).0 h)), λ h. (error_of-HasMessage body).1 h.1)
    ],
    ground (arith, is_empty_iff token),
    apart "Ошибка сети: сервер недоступен или заблокирован браузером." "" refl,
    refl,
  )
