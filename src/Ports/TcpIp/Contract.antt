-- ===== src/Ports/TcpIp/Contract.antt =====
-- TcpIpTransport: its codes, its counts and what it owns.
use paho_cpp_static.Ports.Contract.{Meets, Use, use_all, use_all-Holds}
use paho_cpp_static.Ports.Sockets.Answers.{
  Classifies, send_on-Sent, send_on_unconnected, recv_on-Received, recv_on_unconnected,
}
use paho_cpp_static.Ports.Ipv4.{Ipv4, to_uint32}
use paho_cpp_static.Prelude.{
  ℕ, List, Option, none, some, ◌≡◌, ◌∷◌, Bool, true, false, refl, bit_or, zero, suc, arith, ◌∙◌, ap,
}
use paho_cpp_static.Ports.Sockets.{Sockets, Answer, done, failed, Held}
use paho_cpp_static.Ports.TcpIp.{
  close, begin_answer, finish_poll, finish_error, begin_flags, connect_on, begin_socket,
  begin_options, Ipv4, begin_connect, finish_connect, send_on, send, recv_on, connect, classify,
  recv, tcp_ip_transport, fresh,
}
use paho_cpp_static.Ports.Ledger.{
  Ledger, Owns, Outcome, with_opened, holding, close_held-Outcome, send_on-Owns, recv_on-Owns,
  close_held-Owns,
}

module _ (s : Sockets) (ledger : Ledger s) (base : List ℕ) where
  begin_answer_lem :
      (a : Answer (Unit {0})) (fd : ℕ) (w : s.World)
      → ledger.open_fds w ≡ fd ∷ base
      → Outcome s ledger base (begin_answer s a (holding fd w))
  unfolding begin_answer close
  begin_answer_lem (done u) fd w o = (refl, refl, (o, λ e. absurd cc))
  begin_answer_lem (failed e) fd w o =
      let c = close_held-Outcome s ledger base (holding fd w) (o, λ e. refl) in ground arith

  begin_options_lem :
      (address : Ipv4) (port : ℕ) (a : Answer (Unit {0})) (fd : ℕ) (w : s.World)
      → ledger.open_fds w ≡ fd ∷ base
      → Outcome s ledger base (begin_options s address port fd a (holding fd w))
  unfolding begin_options close
  begin_options_lem address port (done u) fd w o = begin_answer_lem _ fd _ (
      ledger.on_connect fd (s.inet (to_uint32 address) port) (s.set_no_delay fd w)
      ∙ ledger.on_set_no_delay fd w
      ∙ o)
  begin_options_lem address port (failed e) fd w o =
      close_held-Outcome s ledger base (holding fd w) (o, λ e. refl)

  begin_flags_lem :
      (address : Ipv4) (port : ℕ) (a : Answer ℕ) (fd : ℕ) (w : s.World)
      → ledger.open_fds w ≡ fd ∷ base
      → Outcome s ledger base (begin_flags s address port fd a (holding fd w))
  unfolding begin_flags close
  begin_flags_lem address port (done flags) fd w o =
      begin_options_lem address port _ fd _
        (ledger.on_set_flags fd (bit_or flags s.o_nonblock) w ∙ o)
  begin_flags_lem address port (failed e) fd w o =
      close_held-Outcome s ledger base (holding fd w) (o, λ e. refl)

  begin_socket_lem :
      (address : Ipv4) (port : ℕ) (a : Answer ℕ) (w : s.World)
      → ledger.open_fds w ≡ with_opened a base
      → Outcome s ledger base
          (begin_socket s address port a (record { fd = none; connected = false; world = w }))
  unfolding begin_socket
  begin_socket_lem address port (done fd) w o =
      begin_flags_lem address port _ fd _ (ledger.on_get_flags fd w ∙ o)
  begin_socket_lem address port (failed e) w o = (refl, refl, (o, λ e. refl))

  finish_error_lem :
      (a : Answer ℕ) (fd : ℕ) (w : s.World)
      → ledger.open_fds w ≡ fd ∷ base
      → Outcome s ledger base (finish_error s a (holding fd w))
  unfolding finish_error close
  finish_error_lem (done zero) fd w o = (refl, refl, (o, λ e. absurd cc))
  finish_error_lem (done (suc n)) fd w o =
      close_held-Outcome s ledger base (holding fd w) (o, λ e. refl)
  finish_error_lem (failed e) fd w o =
      close_held-Outcome s ledger base (holding fd w) (o, λ e. refl)

  finish_poll_lem :
      (a : Answer ℕ) (fd : ℕ) (w : s.World)
      → ledger.open_fds w ≡ fd ∷ base
      → Outcome s ledger base (finish_poll s fd a (holding fd w))
  unfolding finish_poll close
  finish_poll_lem (done zero) fd w o = (refl, refl, (o, λ e. refl))
  finish_poll_lem (done (suc n)) fd w o = finish_error_lem _ fd _ (ledger.on_so_error fd w ∙ o)
  finish_poll_lem (failed e) fd w o =
      let c = close_held-Outcome s ledger base (holding fd w) (o, λ e. refl) in ground arith

  connect_on_lem :
      (address : Ipv4) (port : ℕ) (fd : Option ℕ) (connected : Bool) (w : s.World)
      → Owns s ledger base (record { fd = fd; connected = connected; world = w })
      → Outcome s ledger base (
          connect_on s address port fd connected
            (record { fd = fd; connected = connected; world = w }))
  unfolding connect_on begin_connect finish_connect
  connect_on_lem address port fd true w o = (refl, refl, o)
  connect_on_lem address port none false w (o, c) =
      begin_socket_lem address port _ _
        (ledger.on_socket s.tcp w ∙ ap (with_opened (s.socket s.tcp w).0) o)
  connect_on_lem address port (some fd) false w (o, c) =
      finish_poll_lem _ fd _ (ledger.on_poll_out fd w ∙ o)

  connect_lem :
      (address : Ipv4) (port : ℕ) (h : Held s.World)
      → Owns s ledger base h
      → Outcome s ledger base (connect s address port h)
  unfolding connect
  connect_lem address port h o = connect_on_lem address port h.fd h.connected h.world o

  classify-Classifies : Classifies (classify s)
  unfolding classify
  classify-Classifies e = ground arith

  -- TcpIpTransport keeps to the part of include/mqtt/transport.hpp that Meets states: only the documented
  -- codes, connected exactly after a connect that returns Ok, nothing moved and no call made without a
  -- connection, nothing counted on a failure, never more than was given, an idempotent close. Meanwhile
  -- the descriptors open besides its own stay as they are.
  pub tcp_ip_transport-Meets :
      (address : Ipv4) (port : ℕ) → Meets (tcp_ip_transport s address port) (Owns s ledger base)
  unfolding send recv close
  tcp_ip_transport-Meets address port = record {
    connect_answers = λ h o. (connect_lem address port h o).0;
    connect_connects = λ h o. (connect_lem address port h o).1;
    connect-Holds = λ h o. (connect_lem address port h o).2;
    send_answers =
        λ bytes h. (send_on-Sent s (classify s) classify-Classifies h.fd h.connected bytes h).0;
    send_fails =
        λ bytes h. (send_on-Sent s (classify s) classify-Classifies h.fd h.connected bytes h).1;
    send_partial =
        λ bytes h. (send_on-Sent s (classify s) classify-Classifies h.fd h.connected bytes h).2;
    send_unconnected = λ bytes h e.
        ap (λ c. send_on s (classify s) h.fd c bytes h) e
        ∙ send_on_unconnected s (classify s) classify-Classifies h.fd bytes h;
    send-Holds = λ bytes h. send_on-Owns s ledger base (classify s) h.fd h.connected bytes h;
    recv_answers =
        λ room h. (recv_on-Received s (classify s) classify-Classifies h.fd h.connected room h).0;
    recv_fails =
        λ room h. (recv_on-Received s (classify s) classify-Classifies h.fd h.connected room h).1;
    recv_partial =
        λ room h. (recv_on-Received s (classify s) classify-Classifies h.fd h.connected room h).2;
    recv_unconnected = λ room h e.
        ap (λ c. recv_on s (classify s) h.fd c room h) e
        ∙ recv_on_unconnected s (classify s) classify-Classifies h.fd room h;
    recv-Holds = λ room h. recv_on-Owns s ledger base (classify s) h.fd h.connected room h;
    close_closes = λ h. refl;
    close_twice = λ h. refl;
    close-Holds = close_held-Owns s ledger base;
  }

  -- Whatever sequence of calls of connect, send, recv and close is made on a new TcpIpTransport, and
  -- whatever the system answers, one more close leaves exactly those descriptors open that were open
  -- before it was made.
  pub tcp_ip_transport_releases :
      (address : Ipv4) (port : ℕ) (uses : List Use) (w : s.World)
      → ledger.open_fds w ≡ base
      → ledger.open_fds (close s (use_all (tcp_ip_transport s address port) uses (fresh s w))).world
        ≡ base
  unfolding close
  tcp_ip_transport_releases address port uses w o =
      let last =
        use_all-Holds (tcp_ip_transport s address port) (Owns s ledger base)
          (tcp_ip_transport-Meets address port) uses (fresh s w) (o, λ e. refl) in
      (close_held-Owns s ledger base (use_all (tcp_ip_transport s address port) uses (fresh s w))
        last).0
