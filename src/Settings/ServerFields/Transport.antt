-- ===== src/Settings/ServerFields/Transport.antt =====
-- The settings of server.conf in frontend/src/openvpnServerSettingsMeta.ts, from `port` on.
use openvpn_control_server.Shared.{List, [], ◌∷◌, some, none}
use openvpn_control_server.Settings.Meta.{SettingsFieldMeta, checkbox, number, select, text, option}

unfoldable pub transport_fields : List SettingsFieldMeta
transport_fields =
    (record {
      key = "port";
      label = "Порт";
      description = "Порт, на котором OpenVPN слушает клиентов (UDP или TCP).";
      type = number;
      placeholder = some "1194";
      options = none;
    })
    ∷ (record {
      key = "proto";
      label = "Протокол";
      description = "Транспорт: udp, tcp, udp6, tcp6.";
      type = select;
      placeholder = none;
      options = some (
          option "udp" "UDP"
          ∷ option "tcp" "TCP"
          ∷ option "udp6" "UDP6"
          ∷ option "tcp6" "TCP6"
          ∷ []);
    })
    ∷ (record {
      key = "dev";
      label = "Тип / имя TUN/TAP";
      description = "Например tun0, tap0 или tun — имя виртуального интерфейса.";
      type = text;
      placeholder = some "tun0";
      options = none;
    })
    ∷ (record {
      key = "remote";
      label = "Remote (клиентский профиль)";
      description =
          "Адрес и порт сервера для генерации клиентского .ovpn, например vpn.example.com 1194.";
      type = text;
      placeholder = some "{{host}} {{port}}";
      options = none;
    })
    ∷ (record {
      key = "resolv-retry";
      label = "Resolv-retry (клиентский профиль)";
      description = "Повтор DNS-резолва в клиентском профиле (например infinite).";
      type = text;
      placeholder = some "infinite";
      options = none;
    })
    ∷ (record {
      key = "nobind";
      label = "Nobind (клиентский профиль)";
      description = "Не привязывать фиксированный локальный порт в клиентском профиле.";
      type = checkbox;
      placeholder = none;
      options = none;
    })
    ∷ (record {
      key = "key-direction";
      label = "Key-direction (клиентский профиль)";
      description =
          "Направление key-direction в клиентском .ovpn (0 или 1). Пусто или {{key_direction}} — вычисляется из tls-auth на сервере (инверсия 0↔1).";
      type = text;
      placeholder = some "1";
      options = none;
    })
    ∷ (record {
      key = "remote-cert-tls";
      label = "Remote-cert-tls (клиентский профиль)";
      description =
          "Только для клиентского .ovpn (обычно server). В server.conf не записывается; сохраняется в настройках узла для генерации профилей.";
      type = text;
      placeholder = some "server";
      options = none;
    })
    ∷ (record {
      key = "topology";
      label = "Топология";
      description = "Режим адресации VPN-подсети: subnet (рекомендуется), net30, p2p.";
      type = select;
      placeholder = none;
      options = some (option "subnet" "subnet" ∷ option "net30" "net30" ∷ option "p2p" "p2p" ∷ []);
    })
    ∷ (record {
      key = "local";
      label = "Local";
      description = "Локальный адрес привязки (директива local), например 10.0.2.3.";
      type = text;
      placeholder = some "10.0.2.3";
      options = none;
    })
    ∷ (record {
      key = "daemon";
      label = "Daemon";
      description = "Запуск в фоне (директива daemon без аргументов).";
      type = checkbox;
      placeholder = none;
      options = none;
    })
    ∷ (record {
      key = "mode";
      label = "Mode";
      description = "Режим процесса OpenVPN, для сервера обычно server.";
      type = select;
      placeholder = none;
      options = some (option "" "— не задано" ∷ option "server" "server" ∷ option "p2p" "p2p" ∷ []);
    })
    ∷ (record {
      key = "server";
      label = "Сервер (сеть VPN)";
      description = "Две части: адрес сети и маска, например 10.8.0.0 255.255.255.0";
      type = text;
      placeholder = some "10.8.0.0 255.255.255.0";
      options = none;
    })
    ∷ (record {
      key = "server-bridge";
      label = "Server-bridge";
      description = "Для режима моста (Ethernet): параметры bridge, если используется tap+bridge.";
      type = text;
      placeholder = some "";
      options = none;
    })
    ∷ []
