-- ===== src/Ports/Posix/Contract.antt =====
-- PosixTransport: its codes, its counts and what it owns.
use paho_cpp_static.Ports.Contract.{Meets, Use, use_all, use_all-Holds}
use paho_cpp_static.Ports.Sockets.Answers.{
  Classifies, send_on-Sent, send_on_unconnected, recv_on-Received, recv_on_unconnected,
}
use paho_cpp_static.Prelude.{
  ℕ, List, Option, none, some, ◌≡◌, ◌∷◌, Bool, true, false, refl, bit_or, zero, suc, arith, ◌∙◌, ap,
}
use paho_cpp_static.Ports.Sockets.{Sockets, Answer, done, failed, Held}
use paho_cpp_static.Ports.Posix.{
  Resolver, recv_on, finish_error, send_on, send, connect_on, connect, close, recv_error,
  begin_answer, finish_select, send_error, begin_socket, begin_resolved, begin_connect, flags_of,
  recv, posix_transport, finish_connect,
}
use paho_cpp_static.Ports.Ledger.{
  Ledger, Owns, Outcome, with_opened, holding, close_held-Outcome, send_on-Owns, recv_on-Owns,
  close_held-Owns,
}

-- The resolver opens no descriptor that it leaves open.
pub record Quiet (s : Sockets) (r : Resolver s) (ledger : Ledger s) : Type 0 where
  pub on_getaddrinfo :
      (host port : List ℕ) (w : s.World)
      → ledger.open_fds (r.getaddrinfo host port w).1 ≡ ledger.open_fds w
  pub on_freeaddrinfo :
      (res : r.Found) (w : s.World) → ledger.open_fds (r.freeaddrinfo res w) ≡ ledger.open_fds w

module _ (s : Sockets) (r : Resolver s) (ledger : Ledger s) (quiet : Quiet s r ledger)
    (base : List ℕ) where
  begin_answer_lem :
      (a : Answer (Unit {0})) (fd : ℕ) (w : s.World)
      → ledger.open_fds w ≡ fd ∷ base
      → Outcome s ledger base (begin_answer s r a (holding fd w))
  unfolding begin_answer close
  begin_answer_lem (done u) fd w o = (refl, refl, (o, λ e. absurd cc))
  begin_answer_lem (failed e) fd w o =
      let c = close_held-Outcome s ledger base (holding fd w) (o, λ e. refl) in ground arith

  begin_socket_lem :
      (res : r.Found) (a : Answer ℕ) (w : s.World)
      → ledger.open_fds w ≡ with_opened a base
      → Outcome s ledger base
          (begin_socket s r res a (record { fd = none; connected = false; world = w }))
  unfolding begin_socket
  begin_socket_lem res (done fd) w o =
      let w1 = (s.get_flags fd w).1 in
      let flags = bit_or (flags_of (s.get_flags fd w).0) s.o_nonblock in
      let w2 = (s.set_flags fd flags w1).1 in
      begin_answer_lem _ fd _ (
        quiet.on_freeaddrinfo res _
        ∙ ledger.on_connect fd (r.address_of res) (s.set_no_delay fd w2)
        ∙ ledger.on_set_no_delay fd w2
        ∙ ledger.on_set_flags fd flags w1
        ∙ ledger.on_get_flags fd w
        ∙ o)
  begin_socket_lem res (failed e) w o = (refl, refl, (quiet.on_freeaddrinfo res w ∙ o, λ e. refl))

  begin_resolved_lem :
      (found : Option r.Found) (w : s.World)
      → ledger.open_fds w ≡ base
      → Outcome s ledger base
          (begin_resolved s r found (record { fd = none; connected = false; world = w }))
  unfolding begin_resolved
  begin_resolved_lem none w o = (refl, refl, (o, λ e. refl))
  begin_resolved_lem (some res) w o =
      begin_socket_lem res _ _
        (ledger.on_socket (r.kind_of res) w ∙ ap (with_opened (s.socket (r.kind_of res) w).0) o)

  finish_error_lem :
      (a : Answer ℕ) (fd : ℕ) (w : s.World)
      → ledger.open_fds w ≡ fd ∷ base
      → Outcome s ledger base (finish_error s r a (holding fd w))
  unfolding finish_error close
  finish_error_lem (done zero) fd w o = (refl, refl, (o, λ e. absurd cc))
  finish_error_lem (done (suc n)) fd w o =
      close_held-Outcome s ledger base (holding fd w) (o, λ e. refl)
  finish_error_lem (failed e) fd w o =
      close_held-Outcome s ledger base (holding fd w) (o, λ e. refl)

  finish_select_lem :
      (a : Answer ℕ) (fd : ℕ) (w : s.World)
      → ledger.open_fds w ≡ fd ∷ base
      → Outcome s ledger base (finish_select s r fd a (holding fd w))
  unfolding finish_select close
  finish_select_lem (done zero) fd w o = (refl, refl, (o, λ e. refl))
  finish_select_lem (done (suc n)) fd w o = finish_error_lem _ fd _ (ledger.on_so_error fd w ∙ o)
  finish_select_lem (failed e) fd w o =
      let c = close_held-Outcome s ledger base (holding fd w) (o, λ e. refl) in ground arith

  connect_on_lem :
      (host : List ℕ) (port : ℕ) (fd : Option ℕ) (connected : Bool) (w : s.World)
      → Owns s ledger base (record { fd = fd; connected = connected; world = w })
      → Outcome s ledger base (
          connect_on s r host port fd connected
            (record { fd = fd; connected = connected; world = w }))
  unfolding connect_on begin_connect finish_connect
  connect_on_lem host port (some fd) true w o = (refl, refl, o)
  connect_on_lem host port (some fd) false w (o, c) =
      finish_select_lem _ fd _ (ledger.on_select_write fd w ∙ o)
  connect_on_lem host port none true w (o, c) = let wrong = c refl in absurd cc
  connect_on_lem host port none false w (o, c) =
      begin_resolved_lem _ _ (quiet.on_getaddrinfo host (r.format_u 8 port) w ∙ o)

  connect_lem :
      (host : List ℕ) (port : ℕ) (h : Held s.World)
      → Owns s ledger base h
      → Outcome s ledger base (connect s r host port h)
  unfolding connect
  connect_lem host port h o = connect_on_lem host port h.fd h.connected h.world o

  send_error-Classifies : Classifies (send_error s)
  unfolding send_error
  send_error-Classifies e = ground arith

  recv_error-Classifies : Classifies (recv_error s)
  unfolding recv_error
  recv_error-Classifies e = ground arith

  -- PosixTransport keeps to the part of include/mqtt/transport.hpp that Meets states: only the documented
  -- codes, connected exactly after a connect that returns Ok, nothing moved and no call made without a
  -- connection, nothing counted on a failure, never more than was given, an idempotent close. Meanwhile
  -- the descriptors open besides its own stay as they are.
  pub posix_transport-Meets :
      (host : List ℕ) (port : ℕ) → Meets (posix_transport s r host port) (Owns s ledger base)
  unfolding send recv close
  posix_transport-Meets host port = record {
    connect_answers = λ h o. (connect_lem host port h o).0;
    connect_connects = λ h o. (connect_lem host port h o).1;
    connect-Holds = λ h o. (connect_lem host port h o).2;
    send_answers =
        λ bytes h. (send_on-Sent s (send_error s) send_error-Classifies h.fd h.connected bytes h).0;
    send_fails =
        λ bytes h. (send_on-Sent s (send_error s) send_error-Classifies h.fd h.connected bytes h).1;
    send_partial =
        λ bytes h. (send_on-Sent s (send_error s) send_error-Classifies h.fd h.connected bytes h).2;
    send_unconnected = λ bytes h e.
        ap (λ c. send_on s (send_error s) h.fd c bytes h) e
        ∙ send_on_unconnected s (send_error s) send_error-Classifies h.fd bytes h;
    send-Holds = λ bytes h. send_on-Owns s ledger base (send_error s) h.fd h.connected bytes h;
    recv_answers = λ room h.
        (recv_on-Received s (recv_error s) recv_error-Classifies h.fd h.connected room h).0;
    recv_fails = λ room h.
        (recv_on-Received s (recv_error s) recv_error-Classifies h.fd h.connected room h).1;
    recv_partial = λ room h.
        (recv_on-Received s (recv_error s) recv_error-Classifies h.fd h.connected room h).2;
    recv_unconnected = λ room h e.
        ap (λ c. recv_on s (recv_error s) h.fd c room h) e
        ∙ recv_on_unconnected s (recv_error s) recv_error-Classifies h.fd room h;
    recv-Holds = λ room h. recv_on-Owns s ledger base (recv_error s) h.fd h.connected room h;
    close_closes = λ h. refl;
    close_twice = λ h. refl;
    close-Holds = close_held-Owns s ledger base;
  }

  -- Whatever sequence of calls of connect, send, recv and close is made on a new PosixTransport, and
  -- whatever the system answers, one more close leaves exactly those descriptors open that were open
  -- before it was made. The resolver is one that leaves no descriptor open.
  pub posix_transport_releases :
      (host : List ℕ) (port : ℕ) (uses : List Use) (w : s.World)
      → ledger.open_fds w ≡ base
      → ledger.open_fds
          (close s (
            use_all
              (posix_transport s r host port)
              uses
              (record { fd = none; connected = false; world = w }))).world
        ≡ base
  unfolding close
  posix_transport_releases host port uses w o =
      let new : Held s.World = record { fd = none; connected = false; world = w } in
      let last =
        use_all-Holds (posix_transport s r host port) (Owns s ledger base)
          (posix_transport-Meets host port) uses new (o, λ e. refl) in
      (close_held-Owns s ledger base (use_all (posix_transport s r host port) uses new) last).0
