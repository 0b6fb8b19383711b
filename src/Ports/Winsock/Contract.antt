-- ===== src/Ports/Winsock/Contract.antt =====
-- WinsockTransport: its codes, its counts and what it owns.
use paho_cpp_static.Ports.Sockets.{Answer, done, failed}
use paho_cpp_static.Ports.Ipv4.{Ipv4}
use paho_cpp_static.Ports.Winsock.Account.{close-Owns, kept, Owns}
use paho_cpp_static.Ports.Winsock.Connect.{connect_lem}
use paho_cpp_static.Prelude.{
  ℕ, List, Option, none, some, ◌≡◌, ◌≤◌, [], ◌∷◌, Bool, true, false, ◌⊎◌, refl, ◌∙◌, arith, ap,
  zero, suc, length, take, if◌then◌else◌, ◌==◌, ◌||◌,
}
use paho_cpp_static.Error.{Error, is_ok, transport_closed, would_block, transport_failure}
use paho_cpp_static.Ports.Contract.{stream_code, Meets, use_all, Use, use_all-Holds}
use paho_cpp_static.Ports.Sockets.Answers.{Sent, Received}
use paho_cpp_static.Ports.Winsock.System.{Winsock, Account}
use paho_cpp_static.Ports.Winsock.{
  Guest, close, classify, send_on, recv_answer, recv_on, stop_winsock, send_answer, send,
  clamp_to_int, length, Ipv4, take, recv, Answer, close_socket, cleanup_if, winsock_transport,
  fresh,
}

take_shorter : (k : ℕ) (bytes : List ℕ) → length (take k bytes) ≤ length bytes
take_shorter zero bytes = omega arith
take_shorter (suc k) [] = omega arith
take_shorter (suc k) (b ∷ bytes) = omega (arith, take_shorter k bytes)

clamp_shorter : (k : ℕ) → clamp_to_int k ≤ k
clamp_shorter k = ground arith

module _ (v : Winsock) where
  classify_lem :
      (e : ℕ) (h : Guest v.World)
      → (stream_code (classify v e h).0 ≡ true) × (is_ok (classify v e h).0 ≡ false)
  unfolding classify
  classify_lem e h = ground arith

  abbrev head : {A : Type 0} → Error × A × Guest v.World → Error × A
  head r = (r.0, r.1)

  send_answer_lem :
      (bytes : List ℕ) (a : Answer ℕ) (h : Guest v.World)
      → ((k : ℕ) → a ≡ done k → k ≤ length bytes)
      → Sent bytes (head (send_answer v a h))
  unfolding send_answer
  send_answer_lem bytes (done zero) h few = (refl, λ e. refl, omega arith)
  send_answer_lem bytes (done (suc k)) h few = (refl, λ e. absurd cc, few (suc k) refl)
  send_answer_lem bytes (failed e) h few = ((classify_lem e h).0, λ z. refl, omega arith)

  send_on-Sent :
      (sock : Option ℕ) (connected : Bool) (bytes : List ℕ) (h : Guest v.World)
      → Sent bytes (head (send_on v sock connected bytes h))
  unfolding send_on
  send_on-Sent (some fd) true bytes h =
      let some_bytes = take (clamp_to_int (length bytes)) bytes in
      send_answer_lem bytes _ _ (λ k e. omega (
        arith,
        v.send_partial fd k some_bytes h.world e,
        take_shorter (clamp_to_int (length bytes)) bytes,
      ))
  send_on-Sent (some fd) false bytes h = (refl, λ e. refl, omega arith)
  send_on-Sent none connected bytes h = (refl, λ e. refl, omega arith)

  send_on_unconnected :
      (sock : Option ℕ) (bytes : List ℕ) (h : Guest v.World)
      → send_on v sock false bytes h ≡ (transport_closed, 0, h)
  unfolding send_on
  send_on_unconnected (some fd) bytes h = refl
  send_on_unconnected none bytes h = refl

  recv_answer_lem :
      (room : ℕ) (a : Answer (List ℕ)) (h : Guest v.World)
      → ((bytes : List ℕ) → a ≡ done bytes → length bytes ≤ room)
      → Received room (head (recv_answer v a h))
  unfolding recv_answer
  recv_answer_lem room (done []) h few = (refl, λ e. refl, omega arith)
  recv_answer_lem room (done (b ∷ bytes)) h few = (refl, λ e. absurd cc, few (b ∷ bytes) refl)
  recv_answer_lem room (failed e) h few = ((classify_lem e h).0, λ z. refl, omega arith)

  recv_on-Received :
      (sock : Option ℕ) (connected : Bool) (room : ℕ) (h : Guest v.World)
      → Received room (head (recv_on v sock connected room h))
  unfolding recv_on
  recv_on-Received (some fd) true room h = recv_answer_lem room _ _ (λ bytes e.
      omega (arith, v.recv_partial fd (clamp_to_int room) bytes h.world e, clamp_shorter room))
  recv_on-Received (some fd) false room h = (refl, λ e. refl, omega arith)
  recv_on-Received none connected room h = (refl, λ e. refl, omega arith)

  recv_on_unconnected :
      (sock : Option ℕ) (room : ℕ) (h : Guest v.World)
      → recv_on v sock false room h ≡ (transport_closed, [], h)
  unfolding recv_on
  recv_on_unconnected (some fd) room h = refl
  recv_on_unconnected none room h = refl

  close_again : (h : Guest v.World) → close v (close v h) ≡ close v h
  unfolding close stop_winsock close_socket cleanup_if
  close_again h = refl

  close_off : (h : Guest v.World) → (close v h).connected ≡ false
  unfolding close stop_winsock
  close_off h = refl

module _ (v : Winsock) (account : Account v) (base : List ℕ) (n : ℕ)
    (others : (1 ≤ n) ⊎ (base ≡ [])) where
  abbrev Keeps : Guest v.World → Type 0
  Keeps = Owns v account base n others

  either :
      (b : Bool) (x y : Error × Guest v.World)
      → Keeps x.1
      → Keeps y.1
      → Keeps (if b then x else y).1
  either true x y kx ky = kx
  either false x y kx ky = ky

  classify-Keeps : (e : ℕ) (h : Guest v.World) → Keeps h → Keeps (classify v e h).1
  unfolding classify
  classify-Keeps e h o =
      let shut = close-Owns v account base n others h o in
      let gone =
        e == v.econnreset
        || e == v.econnaborted
        || e == v.enetreset
        || e == v.eshutdown
        || e == v.enotconn in
      either (e == v.ewouldblock || e == v.eintr) (would_block, h)
        (if gone then (transport_closed, close v h) else (transport_failure, close v h)) o
        (either gone (transport_closed, close v h) (transport_failure, close v h) shut shut)

  send_answer-Keeps : (a : Answer ℕ) (h : Guest v.World) → Keeps h → Keeps (send_answer v a h).2
  unfolding send_answer
  send_answer-Keeps (done zero) h o = o
  send_answer-Keeps (done (suc k)) h o = o
  send_answer-Keeps (failed e) h o = classify-Keeps e h o

  send_on-Keeps :
      (sock : Option ℕ) (connected : Bool) (bytes : List ℕ) (h : Guest v.World)
      → Keeps h
      → Keeps (send_on v sock connected bytes h).2
  unfolding send_on
  send_on-Keeps (some fd) true bytes h (b, c) = send_answer-Keeps _ _ (
    kept v account base n others _ _ _ _
        (account.on_send fd (take (clamp_to_int (length bytes)) bytes) h.world) b,
    c,
  )
  send_on-Keeps (some fd) false bytes h o = o
  send_on-Keeps none connected bytes h o = o

  recv_answer-Keeps :
      (a : Answer (List ℕ)) (h : Guest v.World) → Keeps h → Keeps (recv_answer v a h).2
  unfolding recv_answer
  recv_answer-Keeps (done []) h o = o
  recv_answer-Keeps (done (b ∷ bytes)) h o = o
  recv_answer-Keeps (failed e) h o = classify-Keeps e h o

  recv_on-Keeps :
      (sock : Option ℕ) (connected : Bool) (room : ℕ) (h : Guest v.World)
      → Keeps h
      → Keeps (recv_on v sock connected room h).2
  unfolding recv_on
  recv_on-Keeps (some fd) true room h (b, c) =
      recv_answer-Keeps _ _
        (kept v account base n others _ _ _ _ (account.on_recv fd (clamp_to_int room) h.world) b, c)
  recv_on-Keeps (some fd) false room h o = o
  recv_on-Keeps none connected room h o = o

  -- WinsockTransport keeps to the part of include/mqtt/transport.hpp that Meets states: only the documented
  -- codes, connected exactly after a connect that returns Ok, nothing moved and no call made without a
  -- connection, nothing counted on a failure, never more than was given, an idempotent close. Meanwhile
  -- the other open sockets stay as they are, where there are none or Winsock has been started for
  -- them, and it owes one WSACleanup where it has started Winsock and none elsewhere.
  pub winsock_transport-Meets :
      (address : Ipv4) (port : ℕ) → Meets (winsock_transport v address port) Keeps
  unfolding send recv
  winsock_transport-Meets address port = record {
    connect_answers = λ h o. (connect_lem v account base n others address port h o).0;
    connect_connects = λ h o. (connect_lem v account base n others address port h o).1;
    connect-Holds = λ h o. (connect_lem v account base n others address port h o).2;
    send_answers = λ bytes h. (send_on-Sent v h.sock h.connected bytes h).0;
    send_fails = λ bytes h. (send_on-Sent v h.sock h.connected bytes h).1;
    send_partial = λ bytes h. (send_on-Sent v h.sock h.connected bytes h).2;
    send_unconnected =
        λ bytes h e. ap (λ c. send_on v h.sock c bytes h) e ∙ send_on_unconnected v h.sock bytes h;
    send-Holds = λ bytes h. send_on-Keeps h.sock h.connected bytes h;
    recv_answers = λ room h. (recv_on-Received v h.sock h.connected room h).0;
    recv_fails = λ room h. (recv_on-Received v h.sock h.connected room h).1;
    recv_partial = λ room h. (recv_on-Received v h.sock h.connected room h).2;
    recv_unconnected =
        λ room h e. ap (λ c. recv_on v h.sock c room h) e ∙ recv_on_unconnected v h.sock room h;
    recv-Holds = λ room h. recv_on-Keeps h.sock h.connected room h;
    close_closes = close_off v;
    close_twice = close_again v;
    close-Holds = close-Owns v account base n others;
  }

  -- Whatever sequence of calls of connect, send, recv and close is made on a new WinsockTransport, and
  -- whatever the system answers, one more close leaves exactly those sockets open that were open before
  -- it was made, and every WSAStartup that it has made matched by a WSACleanup. Where other sockets are
  -- open before, others have started Winsock for them.
  pub winsock_transport_releases :
      (address : Ipv4) (port : ℕ) (uses : List Use) (w : v.World)
      → account.open_sockets w ≡ base
      → account.starts w ≡ n
      → let w' = (close v (use_all (winsock_transport v address port) uses (fresh v w))).world in
        (account.open_sockets w' ≡ base) × (account.starts w' ≡ n)
  unfolding close stop_winsock
  winsock_transport_releases address port uses w o c =
      let t = winsock_transport v address port in
      let last =
        use_all-Holds t Keeps (winsock_transport-Meets address port) uses (fresh v w)
          ((o, c), λ e. refl) in
      (close-Owns v account base n others (use_all t uses (fresh v w)) last).0
