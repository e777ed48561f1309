-- ===== src/Settings/ServerFields/Limits.antt =====
-- The settings of server.conf in frontend/src/openvpnServerSettingsMeta.ts, from `verb` on.
use openvpn_control_server.Shared.{List, [], ◌∷◌, some, none}
use openvpn_control_server.Settings.Meta.{
  SettingsFieldMeta, checkbox, number, select, text, textarea, option,
}

unfoldable pub limit_fields : List SettingsFieldMeta
limit_fields =
    (record {
      key = "verb";
      label = "Verb";
      description = "Уровень детализации лога OpenVPN сервера (0–11).";
      type = number;
      placeholder = some "3";
      options = none;
    })
    ∷ (record {
      key = "client-verb";
      label = "Client-verb";
      description =
          "Уровень детализации лога в клиентском .ovpn (0–11). В server.conf не применяется.";
      type = number;
      placeholder = some "3";
      options = none;
    })
    ∷ (record {
      key = "mute";
      label = "Mute";
      description = "Подавить повторяющиеся сообщения после N раз.";
      type = number;
      placeholder = some "20";
      options = none;
    })
    ∷ (record {
      key = "mute-replay-warnings";
      label = "Mute-replay-warnings";
      description = "Не засорять лог предупреждениями о replay.";
      type = checkbox;
      placeholder = none;
      options = none;
    })
    ∷ (record {
      key = "script-security";
      label = "Script-security";
      description = "Уровень запуска скриптов (0–3).";
      type = number;
      placeholder = some "2";
      options = none;
    })
    ∷ (record {
      key = "reneg-sec";
      label = "Reneg-sec";
      description = "Переодическое согласование ключей, секунды.";
      type = number;
      placeholder = some "0";
      options = none;
    })
    ∷ (record {
      key = "hand-window";
      label = "Hand-window";
      description = "Окно рукопожатия TLS (сек).";
      type = number;
      placeholder = some "";
      options = none;
    })
    ∷ (record {
      key = "tun-mtu";
      label = "Tun-MTU";
      description = "MTU для туннеля.";
      type = number;
      placeholder = some "1500";
      options = none;
    })
    ∷ (record {
      key = "mssfix";
      label = "Mssfix";
      description = "Ограничение MSS для TCP через VPN.";
      type = number;
      placeholder = some "1450";
      options = none;
    })
    ∷ (record {
      key = "fragment";
      label = "Fragment";
      description = "Размер фрагментации UDP (0 — отключено).";
      type = number;
      placeholder = some "";
      options = none;
    })
    ∷ (record {
      key = "user";
      label = "User";
      description =
          "Пользователь ОС после старта (снижение привилегий). RHEL/Alma/Rocky: nobody. Оставьте пустым, если служба уже запускается от нужного пользователя.";
      type = text;
      placeholder = some "nobody";
      options = none;
    })
    ∷ (record {
      key = "group";
      label = "Group";
      description =
          "Группа ОС после старта. RHEL/Alma/Rocky: nobody (не nogroup). Debian/Ubuntu: nogroup.";
      type = text;
      placeholder = some "nobody";
      options = none;
    })
    ∷ (record {
      key = "ifconfig-pool-persist";
      label = "Ifconfig-pool-persist";
      description = "Файл для сохранения выдачи IP клиентам.";
      type = text;
      placeholder = some "/var/log/openvpn/ipp.txt";
      options = none;
    })
    ∷ (record {
      key = "comp-lzo";
      label = "Comp-lzo";
      description = "Сжатие (устаревшее); варианты: no, adaptive, yes.";
      type = select;
      placeholder = none;
      options = some (
          option "" "— не задано"
          ∷ option "no" "no"
          ∷ option "adaptive" "adaptive"
          ∷ option "yes" "yes"
          ∷ []);
    })
    ∷ (record {
      key = "allow-compression";
      label = "Allow-compression";
      description = "Политика компрессии (OpenVPN 2.5+): no, asym, yes.";
      type = select;
      placeholder = none;
      options = some (
          option "" "— не задано"
          ∷ option "no" "no"
          ∷ option "asym" "asym"
          ∷ option "yes" "yes"
          ∷ []);
    })
    ∷ (record {
      key = "push";
      label = "Push (по одной строке)";
      description = "Директивы, которые сервер отправит клиенту (каждая строка — отдельный push).";
      type = textarea;
      placeholder = some "redirect-gateway def1\nroute 192.168.1.0 255.255.255.0";
      options = none;
    })
    ∷ (record {
      key = "route";
      label = "Маршруты (route)";
      description =
          "Статические маршруты на сервере через VPN (каждая строка: сеть маска или полная форма).";
      type = textarea;
      placeholder = some "10.10.0.0 255.255.0.0";
      options = none;
    })
    ∷ []
