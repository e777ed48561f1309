-- ===== src/Settings/ServerFields/Session.antt =====
-- The settings of server.conf in frontend/src/openvpnServerSettingsMeta.ts, from `up` on.
use openvpn_control_server.Shared.{List, [], ◌∷◌, some, none}
use openvpn_control_server.Settings.Meta.{SettingsFieldMeta, checkbox, text}

unfoldable pub session_fields : List SettingsFieldMeta
session_fields =
    (record {
      key = "up";
      label = "Up";
      description = "Скрипт после поднятия TUN/TAP.";
      type = text;
      placeholder = some "";
      options = none;
    })
    ∷ (record {
      key = "down";
      label = "Down";
      description = "Скрипт после опускания TUN/TAP.";
      type = text;
      placeholder = some "";
      options = none;
    })
    ∷ (record {
      key = "persist-key";
      label = "Persist-key";
      description = "Не перечитывать ключи при рестарте OpenVPN.";
      type = checkbox;
      placeholder = none;
      options = none;
    })
    ∷ (record {
      key = "persist-tun";
      label = "Persist-tun";
      description = "Сохранять TUN/TAP при рестарте.";
      type = checkbox;
      placeholder = none;
      options = none;
    })
    ∷ (record {
      key = "duplicate-cn";
      label = "Duplicate-cn";
      description = "Разрешить несколько сессий с одним и тем же CN.";
      type = checkbox;
      placeholder = none;
      options = none;
    })
    ∷ (record {
      key = "client-to-client";
      label = "Client-to-client";
      description = "Разрешить трафик между клиентами VPN.";
      type = checkbox;
      placeholder = none;
      options = none;
    })
    ∷ (record {
      key = "float";
      label = "Float";
      description = "Разрешить смену IP клиента без переподключения сертификата.";
      type = checkbox;
      placeholder = none;
      options = none;
    })
    ∷ (record {
      key = "data-ciphers";
      label = "Data-ciphers";
      description = "Список шифров данных (OpenVPN 2.5+), например AES-256-GCM:AES-128-GCM.";
      type = text;
      placeholder = some "AES-256-GCM:AES-128-GCM";
      options = none;
    })
    ∷ (record {
      key = "data-ciphers-fallback";
      label = "Data-ciphers-fallback";
      description =
          "Резервные шифры данных для согласования со старыми клиентами/пирами (OpenVPN 2.5+), например AES-256-CBC:AES-128-CBC. Используется в server.conf и в клиентском .ovpn.";
      type = text;
      placeholder = some "AES-256-CBC:AES-128-CBC";
      options = none;
    })
    ∷ (record {
      key = "tls-ciphersuites";
      label = "TLS-ciphersuites";
      description = "Наборы TLS 1.3 для управляющего канала (если используется).";
      type = text;
      placeholder = some "";
      options = none;
    })
    ∷ (record {
      key = "cipher";
      label = "Cipher (legacy)";
      description =
          "Устаревшая директива cipher; для новых установок предпочтительно data-ciphers.";
      type = text;
      placeholder = some "";
      options = none;
    })
    ∷ (record {
      key = "auth";
      label = "Auth (HMAC)";
      description =
          "Алгоритм HMAC (например SHA256). Сохраняется в настройках панели; в server.conf не записывается при шифрах AES-GCM в data-ciphers.";
      type = text;
      placeholder = some "SHA256";
      options = none;
    })
    ∷ (record {
      key = "tls-version-min";
      label = "Мин. версия TLS";
      description = "Например 1.2 или 1.3.";
      type = text;
      placeholder = some "1.2";
      options = none;
    })
    ∷ []
