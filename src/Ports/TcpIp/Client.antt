-- ===== src/Ports/TcpIp/Client.antt =====
-- The client's pump_tx over a TcpIpTransport and a clock.
use paho_cpp_static.TxQueue.{peek}
use paho_cpp_static.Client.Transmit.{pump_tx}
use paho_cpp_static.TxQueue.Inv.{IsValid}
use paho_cpp_static.Config.{Config}
use paho_cpp_static.Codec.Stream.{ByteStream}
use paho_cpp_static.Ports.Clocks.{posix_now_ms}
use paho_cpp_static.Ports.TcpIp.Contract.{tcp_ip_transport-Meets}
use paho_cpp_static.Ports.Ipv4.{Ipv4}
use paho_cpp_static.Prelude.{
  ℕ, List, ◌≡◌, ◌++◌, take, [], some, none, true, false, refl, Option, Bool, ◌<◌, ◌^◌, arith, suc,
  zero, ◌∙◌, ap, append-nil,
}
use paho_cpp_static.Error.{is_ok, Error}
use paho_cpp_static.Ports.Sockets.{Sockets, Answer, done, failed, Held, send_on, send_answer}
use paho_cpp_static.Ports.Contract.{outside}
use paho_cpp_static.Ports.TcpIp.{tcp_ip_transport, send, Ipv4, Option, Bool, classify}
use paho_cpp_static.Ports.Ledger.{Ledger, Owns}
use paho_cpp_static.Client.Wire.{Peer, pump_tx_in_order}
use paho_cpp_static.Client.State.{Env, Setup, Sys, Handlers}

abbrev pub accepted_bytes : Answer ℕ → List ℕ → List ℕ
accepted_bytes (done n) bytes = take n bytes
accepted_bytes (failed e) bytes = []

-- A system that puts the bytes that send() accepts into a stream, and no others.
pub record Stream (s : Sockets) : Type 0 where
  pub put : s.World → List ℕ
  pub on_send :
      (fd : ℕ) (bytes : List ℕ) (w : s.World)
      → put (s.send fd bytes w).1 ≡ put w ++ accepted_bytes (s.send fd bytes w).0 bytes

-- The monotonic clock of the system, which a reading leaves as it is but for the time.
pub record Ticks (s : Sockets) (stream : Stream s) : Type 0 where
  pub read : s.World → ℕ × ℕ × s.World
  pub on_read : (w : s.World) → stream.put (read w).2 ≡ stream.put w

taken :
    (c : ℕ → Error) (a : Answer ℕ) (bytes : List ℕ)
    → accepted_bytes a bytes ≡ take (send_answer c a).1 bytes
taken c (done zero) bytes = refl
taken c (done (suc n)) bytes = refl
taken c (failed e) bytes = refl

nothing :
    (c : ℕ → Error) (a : Answer ℕ) (bytes : List ℕ)
    → is_ok (send_answer c a).0 ≡ false
    → accepted_bytes a bytes ≡ []
nothing c (done zero) bytes e = refl
nothing c (done (suc n)) bytes e = absurd cc
nothing c (failed n) bytes e = refl

module _ (s : Sockets) (ledger : Ledger s) (stream : Stream s) (ticks : Ticks s stream)
    (address : Ipv4) (port : ℕ) where
  unfoldable pub now_ms : Held s.World → ℕ × Held s.World
  now_ms h =
      let (sec, nsec, w) = ticks.read h.world in (posix_now_ms sec nsec, record h { world = w })

  pub now_ms_u32 : (h : Held s.World) → (now_ms h).0 < 2 ^ 32
  unfolding posix_now_ms now_ms
  now_ms_u32 h = omega arith

  abbrev pub tcp_env : Env
  tcp_env =
      outside (tcp_ip_transport s address port) (Owns s ledger [])
        (tcp_ip_transport-Meets s ledger [] address port) now_ms now_ms_u32

  sent_ok :
      (fd : Option ℕ) (connected : Bool) (bytes : List ℕ) (h : Held s.World)
      → is_ok (send_on s (classify s) fd connected bytes h).0 ≡ true
      → stream.put (send_on s (classify s) fd connected bytes h).2.world
        ≡ stream.put h.world ++ take (send_on s (classify s) fd connected bytes h).1 bytes
  unfolding send_on
  sent_ok (some fd) true bytes h e =
      stream.on_send fd bytes h.world
      ∙ ap (λ l. stream.put h.world ++ l) (taken (classify s) (s.send fd bytes h.world).0 bytes)
  sent_ok (some fd) false bytes h e = absurd cc
  sent_ok none connected bytes h e = absurd cc

  sent_error :
      (fd : Option ℕ) (connected : Bool) (bytes : List ℕ) (h : Held s.World)
      → is_ok (send_on s (classify s) fd connected bytes h).0 ≡ false
      → stream.put (send_on s (classify s) fd connected bytes h).2.world ≡ stream.put h.world
  unfolding send_on
  sent_error (some fd) true bytes h e =
      stream.on_send fd bytes h.world
      ∙ ap (λ l. stream.put h.world ++ l) (nothing (classify s) (s.send fd bytes h.world).0 bytes e)
      ∙ append-nil (stream.put h.world)
  sent_error (some fd) false bytes h e = refl
  sent_error none connected bytes h e = refl

  tcp_peer : Peer tcp_env
  unfolding send now_ms
  tcp_peer = record {
    received = λ h. stream.put h.world;
    on_ok = λ bytes h. sent_ok h.fd h.connected bytes h;
    on_error = λ bytes h. sent_error h.fd h.connected bytes h;
    on_clock = λ h. ticks.on_read h.world;
  }

  -- A client over a TcpIpTransport and a PosixClock, with its transmit queue in order: what the system
  -- has accepted from pump_tx, followed by what waits in the queue, stays the same, however many
  -- bytes each send() takes and with whatever error number it fails.
  pub tcp_ip_pump_in_order :
      (streams : ByteStream) (cfg : Config) (handlers : Handlers) (x : Sys (Held s.World))
      → IsValid x.client.tx
      → let u : Setup = record {
        streams = streams;
        env = tcp_env;
        cfg = cfg;
        handlers = handlers;
      } in
        stream.put (pump_tx u x).1.world.world ++ peek (pump_tx u x).1.client.tx
        ≡ stream.put x.world.world ++ peek x.client.tx
  unfolding tcp_peer
  tcp_ip_pump_in_order streams cfg handlers x v =
      pump_tx_in_order (record { streams = streams; env = tcp_env; cfg = cfg; handlers = handlers })
        tcp_peer x v
