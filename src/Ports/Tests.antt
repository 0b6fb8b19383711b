-- ===== src/Ports/Tests.antt =====
-- The sample transports over small systems, and the theorems there.
mod Systems
use paho_cpp_static.Ports.Tests.Systems.{
  toy, toy_winsock, toy_tls, toy_account, toy_ledger, toy_resolver, toy_stream, toy_quiet,
  toy_ticks, toy_session,
}
use paho_cpp_static.Config.{default_config}
use paho_cpp_static.Ports.Tls.Contract.{IsReady, tls_transport-Meets}
use paho_cpp_static.Codec.Stream.{list_stream}
use paho_cpp_static.TxQueue.{peek}
use paho_cpp_static.Ports.TcpIp.Client.{Stream, Ticks, tcp_ip_pump_in_order, tcp_env}
use paho_cpp_static.Ports.Winsock.Contract.{winsock_transport_releases, winsock_transport-Meets}
use paho_cpp_static.Client.Transmit.{pump_tx}
use paho_cpp_static.Ports.Winsock.System.{Account, Winsock}
use paho_cpp_static.Ports.Posix.{Resolver, posix_transport}
use paho_cpp_static.Ports.Tls.Library.{Mbedtls}
use paho_cpp_static.Ports.Winsock.{winsock_transport, stop_winsock}
use paho_cpp_static.Ports.Tls.{tls_transport, Peer}
use paho_cpp_static.Ports.Posix.Contract.{Quiet, posix_transport_releases}
use paho_cpp_static.TxQueue.Inv.{IsValid}
use paho_cpp_static.Ports.Clocks.{posix_now_ms, win_now_ms, now_ms_elapsed}
use paho_cpp_static.Ports.TcpIp.Contract.{tcp_ip_transport-Meets, tcp_ip_transport_releases}
use paho_cpp_static.Ports.Ipv4.Exact.{parse_ipv4_exact}
use paho_cpp_static.Client.State.{elapsed_ms, Setup, Sys, new_client, Handlers, finish}
use paho_cpp_static.Ports.Ipv4.Quad.{dotted_quad}
use paho_cpp_static.Ports.TcpIp.{tcp_ip_transport}
use paho_cpp_static.Prelude.{
  List, ℕ, [], ◌∷◌, some, ◌≡◌, refl, true, inr, arith, ◌++◌, take, length, if◌then◌else◌, ltb, ◌-◌,
  suc, ◌≤◌, none, false,
}
use mathlib.Core.Option
use paho_cpp_static.Ports.TcpIp
use paho_cpp_static.Ports.Winsock as Wsa
use paho_cpp_static.Ports.Tls
use paho_cpp_static.Ports.Posix
use paho_cpp_static.Ports.Tls.Verified.{tls_transport_is_trusted}
use paho_cpp_static.Ports.Ipv4.{parse_ipv4, ipv4, unset, Ipv4}
use paho_cpp_static.Ports.Sockets.{Sockets, done, failed, Held, Answer}
use paho_cpp_static.Ports.Ledger.{Ledger, without, Owns}
use paho_cpp_static.Ports.Contract.{Meets, connects, sends, receives, Use, use_all}

-- "10.0.1.255"
abbrev gateway : List ℕ
gateway = b'1' ∷ b'0' ∷ b'.' ∷ b'0' ∷ b'.' ∷ b'1' ∷ b'.' ∷ b'2' ∷ b'5' ∷ b'5' ∷ []

abbrev gateway_address : Ipv4
gateway_address = record { octets = 10 ∷ 0 ∷ 1 ∷ 255 ∷ [] }

gateway_octets : parse_ipv4 (some gateway) ≡ some gateway_address
unfolding parse_ipv4
gateway_octets = refl

three_octets : ipv4 (some (b'1' ∷ b'.' ∷ b'2' ∷ b'.' ∷ b'3' ∷ [])) ≡ unset
unfolding ipv4
three_octets = refl

parse_ipv4_exact_example :
    parse_ipv4 (some gateway) ≡ Option.map (λ os. record { octets = os }) (dotted_quad gateway)
parse_ipv4_exact_example = parse_ipv4_exact gateway

-- Standard input, output and error are open.
abbrev standard : List ℕ
standard = 0 ∷ 1 ∷ 2 ∷ []

abbrev calls : List Use
calls = connects ∷ connects ∷ sends (5 ∷ 6 ∷ 7 ∷ []) ∷ receives 8 ∷ []

tcp_ip_transport_releases_example :
    (TcpIp.close toy (
      use_all
        (tcp_ip_transport toy gateway_address 1883)
        calls
        (TcpIp.fresh toy (standard, [])))).world.0
    ≡ standard
tcp_ip_transport_releases_example =
    tcp_ip_transport_releases toy toy_ledger standard gateway_address 1883 calls (standard, []) refl

now_ms_elapsed_example :
    (elapsed_ms (posix_now_ms 4294967 300000000) (posix_now_ms 4294967 200000000) ≡ 100)
    × (elapsed_ms (win_now_ms 4294967300) (win_now_ms 4294967200) ≡ 100)
now_ms_elapsed_example =
    now_ms_elapsed 4294967 200000000 4294967 300000000 4294967200 4294967300 (omega arith)
      (omega arith) (omega arith) (omega arith)

winsock_transport_releases_example :
    let last =
      use_all
        (winsock_transport toy_winsock gateway_address 1883)
        calls
        (Wsa.fresh toy_winsock ([], 0)) in
    ((Wsa.close toy_winsock last).world.0 ≡ []) × ((Wsa.close toy_winsock last).world.1 ≡ 0)
winsock_transport_releases_example =
    winsock_transport_releases toy_winsock toy_account [] 0 (inr refl) gateway_address 1883 calls
      ([], 0) refl refl

posix_transport_releases_example :
    (Posix.close toy (
      use_all
        (posix_transport toy toy_resolver gateway 1883)
        calls
        (record { fd = none; connected = false; world = (standard, []) }))).world.0
    ≡ standard
posix_transport_releases_example =
    posix_transport_releases toy toy_resolver toy_ledger toy_quiet standard gateway 1883 calls
      (standard, []) refl

abbrev broker : Tls.Peer
broker = record { host = gateway; port = []; ca_pem = [] }

tls_transport_is_trusted_example :
    ((use_all (tls_transport toy_tls broker) calls (Tls.construct toy_tls 0)).setup_done ≡ true)
    × (toy_tls.verified
          (use_all (tls_transport toy_tls broker) calls (Tls.construct toy_tls 0)).world
        ≡ true)
unfolding use_all paho_cpp_static.Ports.Contract.use_once Tls.recv Tls.send Tls.connect
    Tls.construct Tls.begin Tls.setup Tls.shake Tls.shaken
tls_transport_is_trusted_example = tls_transport_is_trusted toy_tls toy_session broker calls 0 refl

abbrev online : Sys (Held (List ℕ × List ℕ))
online = record {
  client = record (new_client default_config) {
    tx = record { capacity = 8; buffer = 1 ∷ 2 ∷ 3 ∷ 4 ∷ 5 ∷ 6 ∷ 7 ∷ 8 ∷ []; head = 1; tail = 6 };
  };
  world = record { fd = some 3; connected = true; world = (3 ∷ [], 9 ∷ []) };
}

online-IsValid : IsValid online.client.tx
online-IsValid = record { storage = refl; ordered = omega arith; within = omega arith }

abbrev silent : Handlers
silent = record {
  on_subscription = λ h m. finish;
  on_message = λ m. finish;
  on_connect = λ info. finish;
  on_disconnect = λ e. finish;
  on_delivery = λ id. finish;
  on_suback = λ id codes. finish;
}

abbrev online_setup : Setup
online_setup = record {
  streams = list_stream;
  env = tcp_env toy toy_ledger toy_stream toy_ticks gateway_address 1883;
  cfg = default_config;
  handlers = silent;
}

tcp_ip_pump_in_order_example :
    (pump_tx online_setup online).1.world.world.1 ++ peek (pump_tx online_setup online).1.client.tx
    ≡ online.world.world.1 ++ peek online.client.tx
tcp_ip_pump_in_order_example =
    tcp_ip_pump_in_order toy toy_ledger toy_stream toy_ticks gateway_address 1883 list_stream
      default_config silent online online-IsValid
