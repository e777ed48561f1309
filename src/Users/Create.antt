-- ===== src/Users/Create.antt =====
-- The form of a new user, `createVpnUser` of frontend/src/App.tsx: the requests that it makes, one
-- after the other, and how it ends. The server is an argument that answers each request.
pub mod Laws
use openvpn_control_server.Shared.{
  ℕ, ◌+◌, ◌*◌, min, max, Bool, true, false, ◌&&◌, ◌||◌, not, List, [], ◌∷◌, Option, none, some,
  String, ◌==◌, is_empty, trim, eqb, if◌then◌else◌,
}
use openvpn_control_server.Certificates.{Certificate, find_certificate}
use openvpn_control_server.Certificates.Validity.{day_ms}

pub record NewUser : Type 0 where
  pub full_name : String
  pub position : String
  pub email : String
  pub phone : String
  pub organization_id : String
  pub notes : String

-- The part of the form that is about a certificate. `validity_days` is what `parseInt` makes of its
-- text, or nothing where that is not finite or less than 0.
pub record CertForm : Type 0 where
  pub choice : String
  pub server_id : String
  pub new_cn : String
  pub root_ca_id : String
  pub validity_days : Option ℕ

-- What is sent of a user; null is none.
pub record UserBody : Type 0 where
  pub full_name : String
  pub position : Option String
  pub email : String
  pub phone : Option String
  pub organization_id : Option String
  pub notes : Option String

-- `expires_at` is the time whose text is sent.
pub data CreateRequest : Type 0 where
  create_user : (body : UserBody) → CreateRequest
  bind_certificate : (certificate user server : String) → CreateRequest
  issue_certificate : (user common_name root_ca server : String) (expires_at : ℕ) → CreateRequest

-- An answer with the id of what was made, or the message of the error that `request` throws.
pub data Reply : Type 0 where
  created : (id : String) → Reply
  refused : (message : String) → Reply

pub data Outcome : Type 0 where
  failed : (message : String) → Outcome
  finished : (user : String) → Outcome

abbrev pub trim_or_null : String → Option String
trim_or_null s = if is_empty (trim s) then none else some (trim s)

unfoldable pub user_body : NewUser → UserBody
unfolding trim
user_body u = record {
  full_name = trim u.full_name;
  position = trim_or_null u.position;
  email = trim u.email;
  phone = trim_or_null u.phone;
  organization_id = trim_or_null u.organization_id;
  notes = trim_or_null u.notes;
}

-- The days that a new certificate is issued for.
abbrev days_or : Option ℕ → ℕ → ℕ
days_or none d = d
days_or (some n) d = if eqb n 0 then d else n

unfoldable pub validity_days_of : ℕ → Option ℕ → ℕ
validity_days_of max_days days_raw =
    let days_cap = max 1 (if eqb max_days 0 then 1 else max_days) in
    min (days_or days_raw 1825) days_cap

abbrev pub to_create : String
to_create = "__create__"

-- The certificate that was chosen from the list, and the name of a new one.
unfoldable pub selected_cert : List Certificate → CertForm → Option Certificate
unfolding trim find_certificate
selected_cert bindable form =
    if is_empty (trim form.choice) || trim form.choice == to_create
    then none
    else find_certificate (trim form.choice) bindable

unfoldable pub new_cn_of : CertForm → String
unfolding trim
new_cn_of form = if trim form.choice == to_create then trim form.new_cn else ""

module _ (serve : CreateRequest → Reply) (now max_days : ℕ) where
  abbrev ending : String → Reply → Outcome
  ending user (created id) = finished user
  ending user (refused message) = failed message

  -- A last request.
  abbrev pub sending : String → CreateRequest → List CreateRequest × Outcome
  sending user r = (r ∷ [], ending user (serve r))

  -- What follows for a user that was created, where no certificate of the list is chosen.
  unfoldable pub without_selected : CertForm → String → List CreateRequest × Outcome
  unfolding new_cn_of validity_days_of trim
  without_selected form user =
      if not (is_empty (new_cn_of form))
      then if is_empty (trim form.server_id)
        then ([], failed "Для выпуска нового сертификата выберите сервер.")
        else sending user (
            issue_certificate user (new_cn_of form) (trim form.root_ca_id) (trim form.server_id)
              (now + validity_days_of max_days form.validity_days * day_ms))
      else if not (is_empty (trim form.choice)) && not (trim form.choice == to_create)
      then ([], failed "Выбранный сертификат не найден в списке.")
      else if trim form.choice == to_create
      then ([], failed "Укажите CN для выпуска нового сертификата.")
      else ([], finished user)

  unfoldable pub after_created :
      Option Certificate → CertForm → String → List CreateRequest × Outcome
  unfolding without_selected trim
  after_created none form user = without_selected form user
  after_created (some c) form user =
      if is_empty (trim form.server_id)
      then ([], failed "Для привязки сертификата выберите сервер.")
      else sending user (bind_certificate c.id user (trim form.server_id))

  abbrev pub continued :
      CreateRequest → Reply → (String → List CreateRequest × Outcome) → List CreateRequest × Outcome
  continued r (refused message) rest = (r ∷ [], failed message)
  continued r (created id) rest = (r ∷ (rest id).0, (rest id).1)

  unfoldable pub create_vpn_user :
      List Certificate → NewUser → CertForm → List CreateRequest × Outcome
  unfolding user_body selected_cert new_cn_of after_created trim
  create_vpn_user bindable user form =
      if not (is_empty (new_cn_of form)) && is_empty (trim form.root_ca_id)
      then ([], failed "Для выпуска сертификата по CN выберите корневой сертификат.")
      else continued (create_user (user_body user)) (serve (create_user (user_body user)))
          (after_created (selected_cert bindable form) form)
