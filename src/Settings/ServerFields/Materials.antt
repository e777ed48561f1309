-- ===== src/Settings/ServerFields/Materials.antt =====
-- The settings of server.conf in frontend/src/openvpnServerSettingsMeta.ts, from `max-clients` on.
use openvpn_control_server.Shared.{List, [], ◌∷◌, some, none}
use openvpn_control_server.Settings.Meta.{SettingsFieldMeta, number, text, textarea}

unfoldable pub material_fields : List SettingsFieldMeta
material_fields =
    (record {
      key = "max-clients";
      label = "Макс. клиентов";
      description = "Ограничение одновременных подключений.";
      type = number;
      placeholder = some "100";
      options = none;
    })
    ∷ (record {
      key = "keepalive";
      label = "Keepalive";
      description = "Два числа через пробел: ping и ping-restart (сек), например 10 120.";
      type = text;
      placeholder = some "10 120";
      options = none;
    })
    ∷ (record {
      key = "ca";
      label = "ca (корневой сертификат)";
      description =
          "Путь к файлу корневого сертификата (директива OpenVPN ca), например /etc/openvpn/ca.crt.";
      type = text;
      placeholder = some "/etc/openvpn/ca.crt";
      options = none;
    })
    ∷ (record {
      key = "cert";
      label = "Cert";
      description = "Путь к сертификату сервера.";
      type = text;
      placeholder = some "/etc/openvpn/server.crt";
      options = none;
    })
    ∷ (record {
      key = "key";
      label = "Key";
      description = "Путь к закрытому ключу сервера.";
      type = text;
      placeholder = some "/etc/openvpn/server.key";
      options = none;
    })
    ∷ (record {
      key = "dh";
      label = "DH";
      description = "Путь к файлу Диффи-Хеллмана (если не используется только ecdh-curve).";
      type = text;
      placeholder = some "/etc/openvpn/dh.pem";
      options = none;
    })
    ∷ (record {
      key = "ecdh-curve";
      label = "ECDH-curve";
      description =
          "Кривая для ECDH (альтернатива/дополнение к dh в зависимости от версии и конфигурации).";
      type = text;
      placeholder = some "secp384r1";
      options = none;
    })
    ∷ (record {
      key = "tls-auth";
      label = "TLS-auth";
      description =
          "Файл статического ключа и при необходимости направление (0|1), например /etc/openvpn/ta.key 0.";
      type = text;
      placeholder = some "/etc/openvpn/ta.key 0";
      options = none;
    })
    ∷ (record {
      key = "tls-crypt";
      label = "TLS-crypt";
      description = "Путь к файлу tls-crypt (если используется вместо tls-auth).";
      type = text;
      placeholder = some "";
      options = none;
    })
    ∷ (record {
      key = "tls-crypt-v2";
      label = "TLS-crypt-v2";
      description = "Путь к ключу tls-crypt-v2.";
      type = text;
      placeholder = some "";
      options = none;
    })
    ∷ (record {
      key = "crl-verify";
      label = "CRL-verify";
      description = "Путь к отозванным сертификатам (CRL).";
      type = text;
      placeholder = some "/etc/openvpn/crl.pem";
      options = none;
    })
    ∷ (record {
      key = "verify-x509-name";
      label = "Verify-x509-name";
      description = "Проверка имени в сертификате клиента, например CN или формат из man openvpn.";
      type = text;
      placeholder = some "";
      options = none;
    })
    ∷ (record {
      key = "management";
      label = "Management";
      description = "Интерфейс management: IP порт [pw-file], например 127.0.0.1 7505.";
      type = text;
      placeholder = some "127.0.0.1 7505";
      options = none;
    })
    ∷ (record {
      key = "status";
      label = "Status";
      description = "Файл статуса и опционально интервал, например /var/log/openvpn/status.log 10.";
      type = text;
      placeholder = some "/var/log/openvpn/status.log";
      options = none;
    })
    ∷ (record {
      key = "log";
      label = "Log";
      description = "Файл лога OpenVPN (перезапись).";
      type = text;
      placeholder = some "/var/log/openvpn/openvpn.log";
      options = none;
    })
    ∷ (record {
      key = "log-append";
      label = "Log-append";
      description = "Файл лога с дописыванием.";
      type = text;
      placeholder = some "";
      options = none;
    })
    ∷ (record {
      key = "plugin";
      label = "Plugin (по одной строке)";
      description = "Модуль и аргументы инициализации, каждая строка — отдельная директива plugin.";
      type = textarea;
      placeholder = some "/usr/lib/openvpn/openvpn-plugin-auth-pam.so login";
      options = none;
    })
    ∷ []
