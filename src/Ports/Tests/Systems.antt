-- ===== src/Ports/Tests/Systems.antt =====
-- Small systems: POSIX, Winsock, a resolver and a TLS library that keep what they are given.
use paho_cpp_static.Ports.TcpIp.Client.{Stream, Ticks}
use paho_cpp_static.Ports.Winsock.System.{Account, Winsock}
use paho_cpp_static.Ports.Posix.{Resolver}
use paho_cpp_static.Ports.Tls.Library.{Mbedtls}
use paho_cpp_static.Ports.Tls.Verified.{Session}
use paho_cpp_static.Ports.Posix.Contract.{Quiet}
use paho_cpp_static.Prelude.{
  List, ℕ, [], ◌∷◌, some, ◌≡◌, refl, true, arith, ◌++◌, take, length, if◌then◌else◌, ltb, ◌-◌, suc,
  ◌≤◌, ◌==◌,
}
use paho_cpp_static.Ports.Sockets.{Sockets, done, failed, Answer}
use paho_cpp_static.Ports.Ledger.{Ledger, without}

pub two_at_most :
    (bytes : List ℕ) (n : ℕ)
    → Answer.done (if ltb 2 (length bytes) then 2 else length bytes) ≡ done n
    → n ≤ length bytes
two_at_most bytes n e =
    let same : (if ltb 2 (length bytes) then 2 else length bytes) ≡ n = cc in ground (arith, same)

pub no_bytes : (room : ℕ) (bytes : List ℕ) → failed 11 ≡ done bytes → length bytes ≤ room
no_bytes room bytes e = absurd cc

-- A system with its open descriptors and the bytes that it has accepted. A connection takes a while,
-- and send() takes two bytes at a time.
abbrev pub toy : Sockets
toy = record {
  World = List ℕ × List ℕ;
  Kind = Unit {0};
  Address = ℕ × ℕ;
  tcp = tt;
  inet = λ address port. (address, port);
  eagain = 11;
  ewouldblock = 11;
  eintr = 4;
  einprogress = 115;
  ealready = 114;
  epipe = 32;
  econnreset = 104;
  enotconn = 107;
  o_nonblock = 2048;
  socket = λ k w. (done 3, (3 ∷ w.0, w.1));
  get_flags = λ fd w. (done 2, w);
  set_flags = λ fd flags w. (done tt, w);
  set_no_delay = λ fd w. w;
  connect = λ fd a w. (failed 115, w);
  poll_out = λ fd w. (done 1, w);
  select_write = λ fd w. (done 1, w);
  so_error = λ fd w. (done 0, w);
  send = λ fd bytes w.
      let n = if ltb 2 (length bytes) then 2 else length bytes in
      (done n, (w.0, w.1 ++ take n bytes));
  recv = λ fd room w. (failed 11, w);
  close = λ fd w. (without fd w.0, w.1);
  poll_in = λ fd timeout w. w;
  select_read = λ fd sec usec w. w;
  send_partial = λ fd n bytes w e. two_at_most bytes n e;
  recv_partial = λ fd room bytes w e. no_bytes room bytes e;
}

abbrev pub toy_ledger : Ledger toy
toy_ledger = record {
  open_fds = λ w. w.0;
  on_socket = λ k w. refl;
  on_close = λ fd w. refl;
  on_get_flags = λ fd w. refl;
  on_set_flags = λ fd flags w. refl;
  on_set_no_delay = λ fd w. refl;
  on_connect = λ fd a w. refl;
  on_poll_out = λ fd w. refl;
  on_select_write = λ fd w. refl;
  on_so_error = λ fd w. refl;
  on_send = λ fd bytes w. refl;
  on_recv = λ fd room w. refl;
}

-- Winsock, of which the process has no other user.
abbrev pub toy_winsock : Winsock
toy_winsock = record {
  World = List ℕ × ℕ;
  ewouldblock = 10035;
  einprogress = 10036;
  ealready = 10037;
  eintr = 10004;
  econnreset = 10054;
  econnaborted = 10053;
  enetreset = 10052;
  eshutdown = 10058;
  enotconn = 10057;
  start = λ w. (true, (w.0, suc w.1));
  cleanup = λ w. (w.0, w.1 - 1);
  socket = λ w. (some 7, (7 ∷ w.0, w.1));
  set_nonblocking = λ fd w. (true, w);
  set_no_delay = λ fd w. w;
  connect = λ fd address port w. (failed 10035, w);
  select_both = λ fd w. (done 1, w);
  so_error = λ fd w. (done 0, w);
  send = λ fd bytes w. (done (if ltb 2 (length bytes) then 2 else length bytes), w);
  recv = λ fd room w. (failed 11, w);
  closesocket = λ fd w. (without fd w.0, w.1);
  select_read = λ fd sec usec w. w;
  send_partial = λ fd n bytes w e. two_at_most bytes n e;
  recv_partial = λ fd room bytes w e. no_bytes room bytes e;
}

abbrev pub toy_account : Account toy_winsock
toy_account = record {
  open_sockets = λ w. w.0;
  starts = λ w. w.1;
  on_start = λ w. (refl, refl);
  on_cleanup = λ w h. (refl, refl);
  on_socket = λ w. (refl, refl);
  on_closesocket = λ fd w. (refl, refl);
  on_set_nonblocking = λ fd w. (refl, refl);
  on_set_no_delay = λ fd w. (refl, refl);
  on_connect = λ fd address port w. (refl, refl);
  on_select_both = λ fd w. (refl, refl);
  on_so_error = λ fd w. (refl, refl);
  on_send = λ fd bytes w. (refl, refl);
  on_recv = λ fd room w. (refl, refl);
}

-- The resolver knows one address.
abbrev pub toy_resolver : Resolver toy
toy_resolver = record {
  Found = Unit {0};
  format_u = λ size n. [];
  getaddrinfo = λ host port w. (some tt, w);
  freeaddrinfo = λ res w. w;
  errno_after_free = λ res w e. e;
  kind_of = λ res. tt;
  address_of = λ res. (2130706433, 1883);
}

abbrev pub toy_quiet : Quiet toy toy_resolver toy_ledger
toy_quiet = record { on_getaddrinfo = λ host port w. refl; on_freeaddrinfo = λ res w. refl }

-- A TLS library whose network is a count of the open connections.
abbrev pub toy_tls : Mbedtls
toy_tls = record {
  World = ℕ;
  want_read = 26880;
  want_write = 26752;
  peer_close_notify = 30848;
  net_init = λ w. 0;
  ssl_init = λ w. w;
  config_init = λ w. w;
  crt_init = λ w. w;
  drbg_init = λ w. w;
  entropy_init = λ w. w;
  entropy_free = λ w. w;
  drbg_free = λ w. w;
  crt_free = λ w. w;
  config_free = λ w. w;
  ssl_free = λ w. w;
  net_free = λ w. 0;
  drbg_seed = λ seed w. (true, w);
  crt_parse = λ pem w. (true, w);
  net_connect = λ host port w. (true, 1);
  net_set_nonblock = λ w. (true, w);
  config_defaults = λ w. (true, w);
  conf_authmode = λ w. w;
  conf_ca_chain = λ w. w;
  conf_rng = λ w. w;
  ssl_setup = λ w. (true, w);
  set_hostname = λ host w. (true, w);
  set_bio = λ w. w;
  handshake = λ w. (done tt, w);
  verified = λ w. w == 1;
  write = λ bytes w. (done (if ltb 2 (length bytes) then 2 else length bytes), w);
  read = λ room w. (failed 11, w);
  close_notify = λ w. w;
  net_free_twice = λ w. refl;
  write_partial = λ n bytes w e. two_at_most bytes n e;
  read_partial = λ room bytes w e. no_bytes room bytes e;
}

abbrev pub toy_session : Session toy_tls
toy_session = record { write_keeps = λ bytes w. refl; read_keeps = λ room w. refl }

abbrev pub toy_stream : Stream toy
toy_stream = record { put = λ w. w.1; on_send = λ fd bytes w. refl }

abbrev pub toy_ticks : Ticks toy toy_stream
toy_ticks = record { read = λ w. (1, 0, w); on_read = λ w. refl }
