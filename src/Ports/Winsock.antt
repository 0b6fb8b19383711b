-- ===== src/Ports/Winsock.antt =====
-- examples/winsock_transport.hpp: WinsockTransport. A timeout is not negative.
pub mod System
pub mod Account
pub mod Connect
pub mod Contract
use paho_cpp_static.Prelude.{
  ℕ, List, Option, none, some, Bool, true, false, ◌||◌, ◌==◌, [], ◌∷◌, if◌then◌else◌, ◌-◌, ◌^◌, ◌/◌,
  ◌%◌, ◌*◌, ltb, length, take, suc, zero,
}
use paho_cpp_static.Error.{Error, ok, would_block, transport_closed, transport_failure}
use paho_cpp_static.Ports.Ipv4.{Ipv4, to_uint32}
use paho_cpp_static.Ports.Contract.{Transport}
use paho_cpp_static.Ports.Sockets.{Answer, done, failed}
use paho_cpp_static.Ports.Winsock.System.{Winsock}

-- The members that change, and the system behind them.
pub record Guest (W : Type 0) : Type 0 where
  pub sock : Option ℕ
  pub connected : Bool
  pub wsa_started : Bool
  pub world : W

abbrev pub clamp_to_int : ℕ → ℕ
clamp_to_int n = if ltb n (2 ^ 31 - 1) then n else 2 ^ 31 - 1

module _ (v : Winsock) where
  unfoldable pub start_on : Bool → Guest v.World → Bool × Guest v.World
  start_on true h = (true, h)
  start_on false h =
      let (fine, w) = v.start h.world in (fine, record h { wsa_started = fine; world = w })

  unfoldable pub start_winsock : Guest v.World → Bool × Guest v.World
  unfolding start_on
  start_winsock h = start_on h.wsa_started h

  unfoldable pub cleanup_if : Bool → v.World → v.World
  cleanup_if true w = v.cleanup w
  cleanup_if false w = w

  unfoldable pub stop_winsock : Guest v.World → Guest v.World
  unfolding cleanup_if
  stop_winsock h = record h { wsa_started = false; world = cleanup_if h.wsa_started h.world }

  unfoldable pub close_socket : Option ℕ → v.World → v.World
  close_socket none w = w
  close_socket (some fd) w = v.closesocket fd w

  unfoldable pub close : Guest v.World → Guest v.World
  unfolding stop_winsock close_socket
  close h =
      stop_winsock
        (record h { sock = none; connected = false; world = close_socket h.sock h.world })

  -- An error other than a retry closes the socket.
  unfoldable pub classify : ℕ → Guest v.World → Error × Guest v.World
  classify e h =
      if e == v.ewouldblock || e == v.eintr
      then (would_block, h)
      else if e == v.econnreset
          || e == v.econnaborted
          || e == v.enetreset
          || e == v.eshutdown
          || e == v.enotconn
      then (transport_closed, close h)
      else (transport_failure, close h)

  unfoldable pub send_answer : Answer ℕ → Guest v.World → Error × ℕ × Guest v.World
  send_answer (done zero) h = (transport_closed, 0, h)
  send_answer (done (suc n)) h = (ok, suc n, h)
  send_answer (failed e) h = let (code, h') = classify e h in (code, 0, h')

  -- Behind the test of sock_ and connected_.
  unfoldable pub send_on : Option ℕ → Bool → List ℕ → Guest v.World → Error × ℕ × Guest v.World
  send_on (some fd) true bytes h =
      let (a, w) = v.send fd (take (clamp_to_int (length bytes)) bytes) h.world in
      send_answer a (record h { world = w })
  send_on fd connected bytes h = (transport_closed, 0, h)

  unfoldable pub send : List ℕ → Guest v.World → Error × ℕ × Guest v.World
  unfolding send_on
  send bytes h = send_on h.sock h.connected bytes h

  unfoldable pub recv_answer : Answer (List ℕ) → Guest v.World → Error × List ℕ × Guest v.World
  recv_answer (done []) h = (transport_closed, [], h)
  recv_answer (done (b ∷ bytes)) h = (ok, b ∷ bytes, h)
  recv_answer (failed e) h = let (code, h') = classify e h in (code, [], h')

  unfoldable pub recv_on : Option ℕ → Bool → ℕ → Guest v.World → Error × List ℕ × Guest v.World
  recv_on (some fd) true room h =
      let (a, w) = v.recv fd (clamp_to_int room) h.world in recv_answer a (record h { world = w })
  recv_on fd connected room h = (transport_closed, [], h)

  unfoldable pub recv : ℕ → Guest v.World → Error × List ℕ × Guest v.World
  unfolding recv_on
  recv room h = recv_on h.sock h.connected room h

  abbrev pub is_connected : Guest v.World → Bool
  is_connected h = h.connected

  unfoldable pub wait_readable : ℕ → Guest v.World → Guest v.World
  wait_readable timeout_ms h = record h {
    world = elim h.sock [
      | none ↦ h.world
      | some fd ↦ v.select_read fd (timeout_ms / 1000) (timeout_ms % 1000 * 1000) h.world
    ];
  }

  -- begin_connect, from its end to its start: the answer of connect(), of ioctlsocket(), of socket(),
  -- and of start_winsock.
  unfoldable pub begin_answer : Answer (Unit {0}) → Guest v.World → Error × Guest v.World
  begin_answer (done u) h = (ok, record h { connected = true })
  begin_answer (failed e) h =
      if e == v.ewouldblock || e == v.einprogress || e == v.ealready
      then (would_block, h)
      else (transport_failure, close h)

  unfoldable pub begin_options : Ipv4 → ℕ → ℕ → Bool → Guest v.World → Error × Guest v.World
  begin_options address port fd true h =
      let (a, w) = v.connect fd (to_uint32 address) port (v.set_no_delay fd h.world) in
      begin_answer a (record h { world = w })
  begin_options address port fd false h = (transport_failure, close h)

  unfoldable pub begin_socket : Ipv4 → ℕ → Option ℕ → Guest v.World → Error × Guest v.World
  begin_socket address port (some fd) h =
      let (fine, w) = v.set_nonblocking fd h.world in
      begin_options address port fd fine (record h { sock = some fd; world = w })
  begin_socket address port none h = (transport_failure, stop_winsock (record h { sock = none }))

  unfoldable pub begin_started : Ipv4 → ℕ → Bool → Guest v.World → Error × Guest v.World
  begin_started address port true h =
      let (a, w) = v.socket h.world in begin_socket address port a (record h { world = w })
  begin_started address port false h = (transport_failure, h)

  unfoldable pub begin_connect : Ipv4 → ℕ → Guest v.World → Error × Guest v.World
  begin_connect address port h =
      let (fine, h') = start_winsock h in begin_started address port fine h'

  -- finish_connect: the answer of getsockopt(), and of select().
  unfoldable pub finish_error : Answer ℕ → Guest v.World → Error × Guest v.World
  finish_error (done zero) h = (ok, record h { connected = true })
  finish_error (done (suc e)) h = (transport_failure, close h)
  finish_error (failed e) h = (transport_failure, close h)

  unfoldable pub finish_select : ℕ → Answer ℕ → Guest v.World → Error × Guest v.World
  finish_select fd (done zero) h = (would_block, h)
  finish_select fd (done (suc n)) h =
      let (a, w) = v.so_error fd h.world in finish_error a (record h { world = w })
  finish_select fd (failed e) h = (transport_failure, close h)

  unfoldable pub finish_connect : ℕ → Guest v.World → Error × Guest v.World
  finish_connect fd h =
      let (a, w) = v.select_both fd h.world in finish_select fd a (record h { world = w })

  unfoldable pub connect_on : Ipv4 → ℕ → Option ℕ → Bool → Guest v.World → Error × Guest v.World
  connect_on address port fd true h = (ok, h)
  connect_on address port none false h = begin_connect address port h
  connect_on address port (some fd) false h = finish_connect fd h

  unfoldable pub connect : Ipv4 → ℕ → Guest v.World → Error × Guest v.World
  unfolding connect_on
  connect address port h = connect_on address port h.sock h.connected h

  -- An object as it is constructed.
  abbrev pub fresh : v.World → Guest v.World
  fresh w = record { sock = none; connected = false; wsa_started = false; world = w }

  abbrev pub winsock_transport : Ipv4 → ℕ → Transport
  winsock_transport address port = record {
    Self = Guest v.World;
    connect = connect address port;
    send = send;
    recv = recv;
    close = close;
    is_connected = is_connected;
  }
