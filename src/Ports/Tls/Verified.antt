-- ===== src/Ports/Tls/Verified.antt =====
-- MbedTlsTransport: the certificate of the peer and the state connected_.
use paho_cpp_static.Ports.Sockets.{Answer, done, failed}
use paho_cpp_static.Prelude.{
  ℕ, List, ◌≡◌, [], ◌∷◌, Bool, true, false, refl, Bool-cases, inl, inr, ◌∙◌,
}
use paho_cpp_static.Ports.Contract.{Use, use_once, use_all, connects, closes, sends, receives}
use paho_cpp_static.Ports.Tls.Library.{Mbedtls}
use paho_cpp_static.Ports.Tls.{
  Secure, Peer, shaken, connect_on, send, send_on, recv_on, begin, connect, shake, recv, close,
  tls_transport, wants, construct,
}

-- The verification result belongs to the session, which neither a write nor a read replaces.
pub record Session (t : Mbedtls) : Type 0 where
  pub write_keeps : (bytes : List ℕ) (w : t.World) → t.verified (t.write bytes w).1 ≡ t.verified w
  pub read_keeps : (room : ℕ) (w : t.World) → t.verified (t.read room w).1 ≡ t.verified w

module _ (t : Mbedtls) (session : Session t) where
  -- An object that is connected is set up, and the certificate of its session is verified.
  abbrev pub IsTrusted : Secure t.World → Type 0
  IsTrusted h = h.connected ≡ true → (h.setup_done ≡ true) × (t.verified h.world ≡ true)

  shaken-IsTrusted :
      (a : Answer (Unit {0})) (w : t.World)
      → IsTrusted (shaken t a (record { connected = false; setup_done = true; world = w })).1
  unfolding shaken close
  shaken-IsTrusted (done u) w = elim (Bool-cases (t.verified w)) [
    | inl e ↦ rw e (λ z. (refl, e))
    | inr e ↦ rw e (λ z. absurd cc)
  ]
  shaken-IsTrusted (failed e) w = elim (Bool-cases (wants t e)) [
    | inl q ↦ rw q (λ z. absurd cc)
    | inr q ↦ rw q (λ z. absurd cc)
  ]

  begin-IsTrusted :
      (r : Bool × t.World) (w : t.World)
      → IsTrusted (begin t r (record { connected = false; setup_done = false; world = w })).1
  unfolding begin shake
  begin-IsTrusted (true, w') w = shaken-IsTrusted _ _
  begin-IsTrusted (false, w') w = λ z. absurd cc

  connect_on-IsTrusted :
      (p : Peer) (connected setup_done : Bool) (w : t.World)
      → IsTrusted (record { connected = connected; setup_done = setup_done; world = w })
      → IsTrusted
          (connect_on t p connected setup_done
            (record { connected = connected; setup_done = setup_done; world = w })).1
  unfolding connect_on shake
  connect_on-IsTrusted p true setup_done w o = o
  connect_on-IsTrusted p false true w o = shaken-IsTrusted _ _
  connect_on-IsTrusted p false false w o = begin-IsTrusted _ w

  send_on-IsTrusted :
      (connected : Bool) (bytes : List ℕ) (h : Secure t.World)
      → IsTrusted h
      → IsTrusted (send_on t connected bytes h).2
  unfolding send_on
  send_on-IsTrusted true bytes h o = λ z. ((o z).0, session.write_keeps bytes h.world ∙ (o z).1)
  send_on-IsTrusted false bytes h o = o

  recv_on-IsTrusted :
      (connected : Bool) (room : ℕ) (h : Secure t.World)
      → IsTrusted h
      → IsTrusted (recv_on t connected room h).2
  unfolding recv_on
  recv_on-IsTrusted true room h o = λ z. ((o z).0, session.read_keeps room h.world ∙ (o z).1)
  recv_on-IsTrusted false room h o = o

  use_once-IsTrusted :
      (p : Peer) (u : Use) (h : Secure t.World)
      → IsTrusted h
      → IsTrusted (use_once (tls_transport t p) u h)
  unfolding use_once connect send recv close
  use_once-IsTrusted p connects h o = connect_on-IsTrusted p h.connected h.setup_done h.world o
  use_once-IsTrusted p closes h o = λ z. absurd cc
  use_once-IsTrusted p (sends bytes) h o = send_on-IsTrusted h.connected bytes h o
  use_once-IsTrusted p (receives room) h o = recv_on-IsTrusted h.connected room h o

  use_all-IsTrusted :
      (p : Peer) (uses : List Use) (h : Secure t.World)
      → IsTrusted h
      → IsTrusted (use_all (tls_transport t p) uses h)
  unfolding use_all
  use_all-IsTrusted p [] h o = o
  use_all-IsTrusted p (u ∷ uses) h o =
      use_all-IsTrusted p uses (use_once (tls_transport t p) u h) (use_once-IsTrusted p u h o)

  -- Whatever sequence of calls of connect, send, recv and close is made on a new MbedTlsTransport, if it is connected at their end, it
  -- is set up, and the certificate that its session was made with has been verified: the result of the
  -- verification is 0. The theorem is about a library in which writes and reads keep that result.
  pub tls_transport_is_trusted :
      (p : Peer) (uses : List Use) (w : t.World)
      → (use_all (tls_transport t p) uses (construct t w)).connected ≡ true
      → ((use_all (tls_transport t p) uses (construct t w)).setup_done ≡ true)
        × (t.verified (use_all (tls_transport t p) uses (construct t w)).world ≡ true)
  unfolding construct
  tls_transport_is_trusted p uses w c = use_all-IsTrusted p uses (construct t w) (λ z. absurd cc) c
