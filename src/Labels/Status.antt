-- ===== src/Labels/Status.antt =====
-- States as texts and as classes of the style sheet: `isOpenvpnUp`, `openvpnStatusLabel`,
-- `openvpnSessionIdParts`, `dnsTypeLabel`, `rowReorderClass`, `adminLogMethodClass`,
-- `adminLogStatusClass` and the presentation of certificates, all of frontend/src/App.tsx.
-- `String.prototype.toLowerCase` and `toUpperCase` are parameters, as is the clock.
use openvpn_control_server.Shared.{
  ℕ, Bool, true, false, ◌&&◌, ◌||◌, [], ◌∷◌, Option, none, some, String, cut, ◌==◌, or_else, trim,
  is_empty, nonempty_only, join, leb, ltb, if◌then◌else◌,
}

-- What the panel reads of a server's OpenVPN service; `main_pid` is 0 where it is no number.
pub record ServiceState : Type 0 where
  pub openvpn_running : Bool
  pub active_state : String
  pub sub_state : String
  pub main_pid : ℕ

module _ (to_lower : String → String) where
  unfoldable pub is_openvpn_up : Option ServiceState → Bool
  unfolding trim
  is_openvpn_up none = false
  is_openvpn_up (some server) =
      if server.openvpn_running
      then true
      else let active = to_lower (trim server.active_state) in
        let sub = to_lower (trim server.sub_state) in
        active == "active" && (sub == "running" || sub == "started" || ltb 0 server.main_pid)

  abbrev runs_without_management : Option ServiceState → Bool
  runs_without_management none = true
  runs_without_management (some server) = if server.openvpn_running then false else true

  unfoldable pub openvpn_status_label : Option ServiceState → String
  unfolding is_openvpn_up
  openvpn_status_label server =
      if is_openvpn_up server
      then if runs_without_management server
        then "Работает (служба systemd, management недоступен)"
        else "Работает"
      else "Не работает"

pub record SessionIdParts : Type 0 where
  pub common_name : String
  pub session_number : String

abbrev id_parts : String → Option (String × String) → SessionIdParts
id_parts raw none = record { common_name = raw; session_number = raw }
id_parts raw (some (cn, num)) = record {
  common_name = or_else (trim cn) "—";
  session_number = or_else (trim num) "—";
}

unfoldable pub openvpn_session_id_parts : String → SessionIdParts
unfolding trim cut
openvpn_session_id_parts session_id =
    let raw = trim session_id in
    if is_empty raw
    then record { common_name = "—"; session_number = "—" }
    else id_parts raw (cut 124 raw)

-- The row that is dragged in a table, and the row that it is over.
pub record TableDrag : Type 0 where
  pub scope : String
  pub drag_id : String
  pub over_id : String
  pub place_after : Bool

unfoldable pub row_reorder_class : String → String → TableDrag → String
unfolding join
row_reorder_class scope rule_id table_drag =
    if table_drag.scope == scope && (if is_empty table_drag.drag_id then false else true)
    then join " " (
        nonempty_only (
          (if table_drag.drag_id == rule_id then "app-table-row--drag-source" else "")
          ∷ (if table_drag.over_id == rule_id
              then if table_drag.place_after
                then "app-table-row--drop-after"
                else "app-table-row--drop-before"
              else "")
          ∷ []))
    else ""

unfoldable pub dns_type_label : String → String
dns_type_label t =
    if t == "domain-resolver"
    then "Домен -> DNS"
    else if t == "cache"
    then "Кэширование"
    else if t == "ip-override"
    then "Подмена IP"
    else if t == "arbitrary-address"
    then "Произвольный адрес"
    else if t == "forward"
    then "Форвард"
    else if t == "hosts-file"
    then "Файл hosts"
    else if t == "listen-interface"
    then "Интерфейс"
    else t

unfoldable pub admin_log_method_class : (String → String) → String → String
admin_log_method_class to_upper method =
    let m = to_upper method in
    if m == "GET"
    then "admin-log-method admin-log-method--get"
    else if m == "POST"
    then "admin-log-method admin-log-method--post"
    else if m == "PUT" || m == "PATCH"
    then "admin-log-method admin-log-method--put"
    else if m == "DELETE"
    then "admin-log-method admin-log-method--delete"
    else if m == "HEAD" || m == "OPTIONS"
    then "admin-log-method admin-log-method--head"
    else "admin-log-method admin-log-method--other"

-- `none` is a code that is no finite number.
unfoldable pub admin_log_status_class : Option ℕ → String
admin_log_status_class none = "admin-log-status admin-log-status--other"
admin_log_status_class (some n) =
    if leb 200 n && ltb n 300
    then "admin-log-status admin-log-status--2xx"
    else if leb 300 n && ltb n 400
    then "admin-log-status admin-log-status--3xx"
    else if leb 400 n && ltb n 500
    then "admin-log-status admin-log-status--4xx"
    else if leb 500 n
    then "admin-log-status admin-log-status--5xx"
    else "admin-log-status admin-log-status--other"
