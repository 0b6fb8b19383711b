-- ===== src/Ports/Tls.antt =====
-- examples/tls_transport.hpp: MbedTlsTransport.
pub mod Library
pub mod Contract
pub mod Verified
use paho_cpp_static.Prelude.{
  ℕ, List, Bool, true, false, ◌||◌, ◌==◌, [], ◌∷◌, if◌then◌else◌, not, suc, zero,
}
use paho_cpp_static.Error.{Error, ok, would_block, transport_closed, transport_failure}
use paho_cpp_static.Ports.Contract.{Transport}
use paho_cpp_static.Ports.Sockets.{Answer, done, failed}
use paho_cpp_static.Ports.Tls.Library.{Mbedtls}

-- The members that change, and the contexts with the network.
pub record Secure (W : Type 0) : Type 0 where
  pub connected : Bool
  pub setup_done : Bool
  pub world : W

-- What the constructor takes.
pub record Peer : Type 0 where
  pub host : List ℕ
  pub port : List ℕ
  pub ca_pem : List ℕ

-- kPers without its NUL.
abbrev personalization : List ℕ
personalization =
    b'm' ∷ b'q' ∷ b't' ∷ b't' ∷ b'-' ∷ b'e' ∷ b'm' ∷ b'b' ∷ b'e' ∷ b'd' ∷ b'd' ∷ b'e' ∷ b'd' ∷ []

-- `if (call != 0) return -1;` and the rest.
infixr 5 ◌>>◌
abbrev pub ◌>>◌ : {W : Type 0} → (W → Bool × W) → (W → Bool × W) → W → Bool × W
(call >> rest) w = let (fine, w') = call w in if fine then rest w' else (false, w')

-- A call that cannot fail.
abbrev pub always : {W : Type 0} → (W → W) → W → Bool × W
always call w = (true, call w)

module _ (t : Mbedtls) where
  unfoldable pub construct : t.World → Secure t.World
  construct w = record {
    connected = false;
    setup_done = false;
    world = t.entropy_init (t.drbg_init (t.crt_init (t.config_init (t.ssl_init (t.net_init w)))));
  }

  unfoldable pub notify_if : Bool → t.World → t.World
  notify_if true w = t.close_notify w
  notify_if false w = w

  unfoldable pub close : Secure t.World → Secure t.World
  unfolding notify_if
  close h = record {
    connected = false;
    setup_done = false;
    world = t.net_free (notify_if h.connected h.world);
  }

  unfoldable pub destroy : Secure t.World → t.World
  unfolding close
  destroy h =
      t.net_free
        (t.ssl_free (t.config_free (t.crt_free (t.drbg_free (t.entropy_free (close h).world)))))

  unfoldable pub setup : Peer → t.World → Bool × t.World
  setup p =
      t.drbg_seed personalization
      >> t.crt_parse p.ca_pem
      >> t.net_connect p.host p.port
      >> t.net_set_nonblock
      >> t.config_defaults
      >> always t.conf_authmode
      >> always t.conf_ca_chain
      >> always t.conf_rng
      >> t.ssl_setup
      >> t.set_hostname p.host
      >> always t.set_bio

  abbrev pub wants : ℕ → Bool
  wants e = e == t.want_read || e == t.want_write

  -- connect, from its end to its start: the answer of the handshake, and of setup.
  unfoldable pub shaken : Answer (Unit {0}) → Secure t.World → Error × Secure t.World
  shaken (done u) h =
      if not (t.verified h.world)
      then (transport_failure, close h)
      else (ok, record h { connected = true })
  shaken (failed e) h = if wants e then (would_block, h) else (transport_failure, close h)

  unfoldable pub shake : Secure t.World → Error × Secure t.World
  shake h = let (a, w) = t.handshake h.world in shaken a (record h { world = w })

  unfoldable pub begin : Bool × t.World → Secure t.World → Error × Secure t.World
  begin r h =
      if not r.0
      then (transport_failure, record h { world = r.1 })
      else shake (record h { setup_done = true; world = r.1 })

  unfoldable pub connect_on : Peer → Bool → Bool → Secure t.World → Error × Secure t.World
  connect_on p true setup_done h = (ok, h)
  connect_on p false true h = shake h
  connect_on p false false h = begin (setup p h.world) h

  unfoldable pub connect : Peer → Secure t.World → Error × Secure t.World
  unfolding connect_on
  connect p h = connect_on p h.connected h.setup_done h

  unfoldable pub send_answer : Answer ℕ → Error × ℕ
  send_answer (done zero) = (transport_failure, 0)
  send_answer (done (suc n)) = (ok, suc n)
  send_answer (failed e) =
      if wants e
      then (would_block, 0)
      else if e == t.peer_close_notify
      then (transport_closed, 0)
      else (transport_failure, 0)

  -- Behind the test of connected_.
  unfoldable pub send_on : Bool → List ℕ → Secure t.World → Error × ℕ × Secure t.World
  send_on true bytes h =
      let (a, w) = t.write bytes h.world in
      let (e, written) = send_answer a in (e, written, record h { world = w })
  send_on false bytes h = (transport_closed, 0, h)

  unfoldable pub send : List ℕ → Secure t.World → Error × ℕ × Secure t.World
  unfolding send_on
  send bytes h = send_on h.connected bytes h

  unfoldable pub recv_answer : Answer (List ℕ) → Error × List ℕ
  recv_answer (done []) = (transport_closed, [])
  recv_answer (done (b ∷ bytes)) = (ok, b ∷ bytes)
  recv_answer (failed e) =
      if wants e
      then (would_block, [])
      else if e == t.peer_close_notify
      then (transport_closed, [])
      else (transport_failure, [])

  unfoldable pub recv_on : Bool → ℕ → Secure t.World → Error × List ℕ × Secure t.World
  recv_on true room h =
      let (a, w) = t.read room h.world in
      let (e, bytes) = recv_answer a in (e, bytes, record h { world = w })
  recv_on false room h = (transport_closed, [], h)

  unfoldable pub recv : ℕ → Secure t.World → Error × List ℕ × Secure t.World
  unfolding recv_on
  recv room h = recv_on h.connected room h

  abbrev pub is_connected : Secure t.World → Bool
  is_connected h = h.connected

  abbrev pub tls_transport : Peer → Transport
  tls_transport p = record {
    Self = Secure t.World;
    connect = connect p;
    send = send;
    recv = recv;
    close = close;
    is_connected = is_connected;
  }
