-- ===== src/Ports/Posix.antt =====
-- examples/posix_transport.hpp: PosixTransport. A timeout is not negative.
pub mod Contract
use paho_cpp_static.Prelude.{
  ℕ, List, Option, none, some, Bool, true, false, ◌||◌, ◌==◌, [], if◌then◌else◌, bit_or, ◌-◌, ◌^◌,
  ◌/◌, ◌%◌, ◌*◌, zero, suc,
}
use paho_cpp_static.Error.{Error, ok, would_block, transport_closed, transport_failure}
use paho_cpp_static.Ports.Contract.{Transport}
use paho_cpp_static.Ports.Sockets.{
  Sockets, Answer, done, failed, Held, send_answer, recv_answer, close_fd, send_on, close_held,
  recv_on,
}

-- The resolver. `Found` stands for the list of addresses that getaddrinfo() returns, a null pointer
-- and a failure both being `none`; `format_u size n` is what snprintf() leaves of the decimal digits
-- of n in a buffer of that size; `errno_after_free res w e` is errno behind freeaddrinfo(), where it
-- was e in front of it.
pub record Resolver (s : Sockets) : Type 1 where
  pub Found : Type 0
  pub format_u : ℕ → ℕ → List ℕ
  pub getaddrinfo : List ℕ → List ℕ → s.World → Option Found × s.World
  pub freeaddrinfo : Found → s.World → s.World
  pub errno_after_free : Found → s.World → ℕ → ℕ
  pub kind_of : Found → s.Kind
  pub address_of : Found → s.Address

-- The int that fcntl() returns, -1 being all ones.
abbrev pub flags_of : Answer ℕ → ℕ
flags_of (done flags) = flags
flags_of (failed e) = 2 ^ 32 - 1

-- What connect() returned, with errno as it is read later on.
abbrev pub reread : (ℕ → ℕ) → Answer (Unit {0}) → Answer (Unit {0})
reread later (done u) = done u
reread later (failed e) = failed (later e)

module _ (s : Sockets) where
  unfoldable pub close : Held s.World → Held s.World
  close = close_held s

  abbrev pub retry : ℕ → Bool
  retry e = e == s.eagain || e == s.ewouldblock || e == s.eintr

  unfoldable pub send_error : ℕ → Error
  send_error e =
      if retry e
      then would_block
      else if e == s.epipe || e == s.econnreset
      then transport_closed
      else transport_failure

  unfoldable pub recv_error : ℕ → Error
  recv_error e =
      if retry e
      then would_block
      else if e == s.econnreset
      then transport_closed
      else transport_failure

  unfoldable pub send : List ℕ → Held s.World → Error × ℕ × Held s.World
  unfolding send_on
  send bytes h = send_on s send_error h.fd h.connected bytes h

  unfoldable pub recv : ℕ → Held s.World → Error × List ℕ × Held s.World
  unfolding recv_on
  recv room h = recv_on s recv_error h.fd h.connected room h

  abbrev pub is_connected : Held s.World → Bool
  is_connected h = h.connected

  unfoldable pub wait_readable : ℕ → Held s.World → Held s.World
  wait_readable timeout_ms h = record h {
    world = elim h.fd [
      | none ↦ h.world
      | some fd ↦ s.select_read fd (timeout_ms / 1000) (timeout_ms % 1000 * 1000) h.world
    ];
  }

  module _ (r : Resolver s) where
    -- The first half of connect, from its end to its start: the answer of connect(), of socket(), and
    -- of getaddrinfo().
    unfoldable pub begin_answer : Answer (Unit {0}) → Held s.World → Error × Held s.World
    begin_answer (done u) h = (ok, record h { connected = true })
    begin_answer (failed e) h =
        if e == s.einprogress || e == s.ealready
        then (would_block, h)
        else (transport_failure, close h)

    unfoldable pub begin_socket : r.Found → Answer ℕ → Held s.World → Error × Held s.World
    begin_socket res (done fd) h =
        let (flags, w1) = s.get_flags fd h.world in
        let (set, w2) = s.set_flags fd (bit_or (flags_of flags) s.o_nonblock) w1 in
        let (a, w3) = s.connect fd (r.address_of res) (s.set_no_delay fd w2) in
        begin_answer (reread (r.errno_after_free res w3) a)
          (record h { fd = some fd; world = r.freeaddrinfo res w3 })
    begin_socket res (failed e) h =
        (transport_failure, record h { fd = none; world = r.freeaddrinfo res h.world })

    unfoldable pub begin_resolved : Option r.Found → Held s.World → Error × Held s.World
    begin_resolved none h = (transport_failure, h)
    begin_resolved (some res) h =
        let (a, w) = s.socket (r.kind_of res) h.world in begin_socket res a (record h { world = w })

    unfoldable pub begin_connect : List ℕ → ℕ → Held s.World → Error × Held s.World
    begin_connect host port h =
        let (found, w) = r.getaddrinfo host (r.format_u 8 port) h.world in
        begin_resolved found (record h { world = w })

    -- The second half: the answer of getsockopt(), and of select().
    unfoldable pub finish_error : Answer ℕ → Held s.World → Error × Held s.World
    finish_error (done zero) h = (ok, record h { connected = true })
    finish_error (done (suc e)) h = (transport_failure, close h)
    finish_error (failed e) h = (transport_failure, close h)

    unfoldable pub finish_select : ℕ → Answer ℕ → Held s.World → Error × Held s.World
    finish_select fd (done zero) h = (would_block, h)
    finish_select fd (done (suc n)) h =
        let (a, w) = s.so_error fd h.world in finish_error a (record h { world = w })
    finish_select fd (failed e) h = (transport_failure, close h)

    unfoldable pub finish_connect : ℕ → Held s.World → Error × Held s.World
    finish_connect fd h =
        let (a, w) = s.select_write fd h.world in finish_select fd a (record h { world = w })

    unfoldable pub connect_on : List ℕ → ℕ → Option ℕ → Bool → Held s.World → Error × Held s.World
    connect_on host port (some fd) true h = (ok, h)
    connect_on host port (some fd) false h = finish_connect fd h
    connect_on host port none connected h = begin_connect host port h

    unfoldable pub connect : List ℕ → ℕ → Held s.World → Error × Held s.World
    unfolding connect_on
    connect host port h = connect_on host port h.fd h.connected h

    abbrev pub posix_transport : List ℕ → ℕ → Transport
    posix_transport host port = record {
      Self = Held s.World;
      connect = connect host port;
      send = send;
      recv = recv;
      close = close;
      is_connected = is_connected;
    }
