-- ===== src/Settings/ClientFields.antt =====
-- The settings of a client's profile, frontend/src/openvpnClientSettingsMeta.ts.
use openvpn_control_server.Shared.{List, [], ◌∷◌, some, none}
use openvpn_control_server.Settings.Meta.{SettingsFieldMeta, checkbox, number, select, text, option}

unfoldable pub openvpn_client_settings_fields : List SettingsFieldMeta
openvpn_client_settings_fields =
    (record {
      key = "client";
      label = "Директива client в .ovpn";
      description =
          "«Да» — в сгенерированный профиль попадает client: обычное подключение к вашему OpenVPN-серверу (ноутбук, телефон). «Нет» — без client (только для нестандартных конфигов; для обычных пользователей — «Да»). Это не переключатель site-to-site.";
      type = checkbox;
      placeholder = none;
      options = none;
    })
    ∷ (record {
      key = "proto";
      label = "Протокол";
      description =
          "Можно фиксировать (udp/tcp) или оставить {{proto}} для автоподстановки сервера.";
      type = text;
      placeholder = some "{{proto}}";
      options = none;
    })
    ∷ (record {
      key = "data-ciphers-fallback";
      label = "Data-ciphers-fallback";
      description =
          "Резервные шифры в .ovpn (OpenVPN 2.5+). Должны совпадать с server.conf, если не заданы в общих настройках сервера.";
      type = text;
      placeholder = some "AES-256-CBC:AES-128-CBC";
      options = none;
    })
    ∷ (record {
      key = "persist-key";
      label = "Persist-key";
      description = "Сохранять ключи при рестарте клиента.";
      type = checkbox;
      placeholder = none;
      options = none;
    })
    ∷ (record {
      key = "persist-tun";
      label = "Persist-tun";
      description = "Сохранять TUN-интерфейс при рестарте клиента.";
      type = checkbox;
      placeholder = none;
      options = none;
    })
    ∷ (record {
      key = "remote-cert-tls";
      label = "Remote-cert-tls";
      description = "Ожидаемый тип удалённого сертификата, обычно server.";
      type = text;
      placeholder = some "server";
      options = none;
    })
    ∷ (record {
      key = "comp-lzo";
      label = "Comp-lzo";
      description = "Параметры LZO-сжатия клиента (например yes/no/adaptive).";
      type = select;
      placeholder = none;
      options = some (
          option "" "— не задано"
          ∷ option "no" "no"
          ∷ option "adaptive" "adaptive"
          ∷ option "yes" "yes"
          ∷ []);
    })
    ∷ (record {
      key = "mute";
      label = "Mute";
      description = "Подавление повторяющихся сообщений лога после N срабатываний.";
      type = number;
      placeholder = some "20";
      options = none;
    })
    ∷ (record {
      key = "verb";
      label = "Verb";
      description = "Уровень детализации лога клиента (0–11).";
      type = number;
      placeholder = some "3";
      options = none;
    })
    ∷ []
