-- ===== src/Ports/TcpIp.antt =====
-- examples/tcp_ip_transport.hpp: TcpIpTransport. A timeout is not negative.
pub mod Contract
pub mod Client
use paho_cpp_static.Prelude.{
  ℕ, List, Option, none, some, Bool, true, false, ◌||◌, ◌==◌, [], if◌then◌else◌, bit_or, suc, zero,
}
use paho_cpp_static.Error.{Error, ok, would_block, transport_closed, transport_failure}
use paho_cpp_static.Ports.Ipv4.{Ipv4, to_uint32}
use paho_cpp_static.Ports.Contract.{Transport}
use paho_cpp_static.Ports.Sockets.{
  Sockets, Answer, done, failed, Held, send_answer, recv_answer, close_fd, send_on, close_held,
  recv_on,
}

module _ (s : Sockets) where
  unfoldable pub close : Held s.World → Held s.World
  close = close_held s

  unfoldable pub classify : ℕ → Error
  classify e =
      if e == s.eagain || e == s.ewouldblock || e == s.eintr
      then would_block
      else if e == s.epipe || e == s.econnreset || e == s.enotconn
      then transport_closed
      else transport_failure

  unfoldable pub send : List ℕ → Held s.World → Error × ℕ × Held s.World
  unfolding send_on
  send bytes h = send_on s classify h.fd h.connected bytes h

  unfoldable pub recv : ℕ → Held s.World → Error × List ℕ × Held s.World
  unfolding recv_on
  recv room h = recv_on s classify h.fd h.connected room h

  abbrev pub is_connected : Held s.World → Bool
  is_connected h = h.connected

  unfoldable pub wait_readable : ℕ → Held s.World → Held s.World
  wait_readable timeout_ms h = record h {
    world = elim h.fd [ none ↦ h.world | some fd ↦ s.poll_in fd timeout_ms h.world ];
  }

  -- begin_connect, from its end to its start: the answer of connect(), of the second fcntl(), of the
  -- first, and of socket().
  unfoldable pub begin_answer : Answer (Unit {0}) → Held s.World → Error × Held s.World
  begin_answer (done u) h = (ok, record h { connected = true })
  begin_answer (failed e) h =
      if e == s.einprogress || e == s.ealready || e == s.eintr
      then (would_block, h)
      else (transport_failure, close h)

  unfoldable pub begin_options :
      Ipv4 → ℕ → ℕ → Answer (Unit {0}) → Held s.World → Error × Held s.World
  begin_options address port fd (done u) h =
      let (a, w) = s.connect fd (s.inet (to_uint32 address) port) (s.set_no_delay fd h.world) in
      begin_answer a (record h { world = w })
  begin_options address port fd (failed e) h = (transport_failure, close h)

  unfoldable pub begin_flags : Ipv4 → ℕ → ℕ → Answer ℕ → Held s.World → Error × Held s.World
  begin_flags address port fd (done flags) h =
      let (a, w) = s.set_flags fd (bit_or flags s.o_nonblock) h.world in
      begin_options address port fd a (record h { world = w })
  begin_flags address port fd (failed e) h = (transport_failure, close h)

  unfoldable pub begin_socket : Ipv4 → ℕ → Answer ℕ → Held s.World → Error × Held s.World
  begin_socket address port (done fd) h =
      let (a, w) = s.get_flags fd h.world in
      begin_flags address port fd a (record h { fd = some fd; world = w })
  begin_socket address port (failed e) h = (transport_failure, record h { fd = none })

  unfoldable pub begin_connect : Ipv4 → ℕ → Held s.World → Error × Held s.World
  begin_connect address port h =
      let (a, w) = s.socket s.tcp h.world in begin_socket address port a (record h { world = w })

  -- finish_connect: the answer of getsockopt(), and of poll().
  unfoldable pub finish_error : Answer ℕ → Held s.World → Error × Held s.World
  finish_error (done zero) h = (ok, record h { connected = true })
  finish_error (done (suc e)) h = (transport_failure, close h)
  finish_error (failed e) h = (transport_failure, close h)

  unfoldable pub finish_poll : ℕ → Answer ℕ → Held s.World → Error × Held s.World
  finish_poll fd (done zero) h = (would_block, h)
  finish_poll fd (done (suc n)) h =
      let (a, w) = s.so_error fd h.world in finish_error a (record h { world = w })
  finish_poll fd (failed e) h =
      if e == s.eintr then (would_block, h) else (transport_failure, close h)

  unfoldable pub finish_connect : ℕ → Held s.World → Error × Held s.World
  finish_connect fd h =
      let (a, w) = s.poll_out fd h.world in finish_poll fd a (record h { world = w })

  unfoldable pub connect_on : Ipv4 → ℕ → Option ℕ → Bool → Held s.World → Error × Held s.World
  connect_on address port fd true h = (ok, h)
  connect_on address port none false h = begin_connect address port h
  connect_on address port (some fd) false h = finish_connect fd h

  unfoldable pub connect : Ipv4 → ℕ → Held s.World → Error × Held s.World
  unfolding connect_on
  connect address port h = connect_on address port h.fd h.connected h

  -- An object as it is constructed.
  abbrev pub fresh : s.World → Held s.World
  fresh w = record { fd = none; connected = false; world = w }

  abbrev pub tcp_ip_transport : Ipv4 → ℕ → Transport
  tcp_ip_transport address port = record {
    Self = Held s.World;
    connect = connect address port;
    send = send;
    recv = recv;
    close = close;
    is_connected = is_connected;
  }
