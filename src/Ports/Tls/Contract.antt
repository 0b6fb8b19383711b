-- ===== src/Ports/Tls/Contract.antt =====
-- MbedTlsTransport: its codes, its counts and what it owns.
use paho_cpp_static.Ports.Sockets.{Answer, done, failed}
use paho_cpp_static.Prelude.{
  ℕ, List, ◌≡◌, ◌≤◌, [], ◌∷◌, Bool, true, false, refl, arith, ap, Bool-cases, inl, suc, zero, inr,
  length,
}
use paho_cpp_static.Error.{Error, is_ok}
use paho_cpp_static.Ports.Contract.{connect_code, Meets}
use paho_cpp_static.Ports.Sockets.Answers.{Sent, Received}
use paho_cpp_static.Ports.Tls.Library.{Mbedtls}
use paho_cpp_static.Ports.Tls.{
  Secure, Peer, shaken, connect_on, recv_answer, send, send_on, recv_on, begin, connect,
  send_answer, shake, recv, close, Answer, notify_if, tls_transport, wants,
}

module _ (t : Mbedtls) where
  -- Only an object that is set up is connected.
  abbrev pub IsReady : Secure t.World → Type 0
  IsReady h = h.connected ≡ true → h.setup_done ≡ true

  abbrev Outcome : Error × Secure t.World → Type 0
  Outcome r = (connect_code r.0 ≡ true) × (r.1.connected ≡ is_ok r.0) × IsReady r.1

  shaken_lem :
      (a : Answer (Unit {0})) (w : t.World)
      → Outcome (shaken t a (record { connected = false; setup_done = true; world = w }))
  unfolding shaken close
  shaken_lem (done u) w = elim (Bool-cases (t.verified w)) [
    | inl e ↦ rw e (refl, refl, λ z. refl)
    | inr e ↦ rw e (refl, refl, λ z. z)
  ]
  shaken_lem (failed e) w = elim (Bool-cases (wants t e)) [
    | inl q ↦ rw q (refl, refl, λ z. refl)
    | inr q ↦ rw q (refl, refl, λ z. z)
  ]

  begin_lem :
      (r : Bool × t.World) (w : t.World)
      → Outcome (begin t r (record { connected = false; setup_done = false; world = w }))
  unfolding begin shake
  begin_lem (true, w') w = shaken_lem _ _
  begin_lem (false, w') w = (refl, refl, λ z. z)

  connect_on_lem :
      (p : Peer) (connected setup_done : Bool) (w : t.World)
      → IsReady (record { connected = connected; setup_done = setup_done; world = w })
      → Outcome (
          connect_on t p connected setup_done
            (record { connected = connected; setup_done = setup_done; world = w }))
  unfolding connect_on shake
  connect_on_lem p true setup_done w o = (refl, refl, o)
  connect_on_lem p false true w o = shaken_lem _ _
  connect_on_lem p false false w o = begin_lem _ w

  connect_lem : (p : Peer) (h : Secure t.World) → IsReady h → Outcome (connect t p h)
  unfolding connect
  connect_lem p h o = connect_on_lem p h.connected h.setup_done h.world o

  send_answer_lem :
      (bytes : List ℕ) (a : Answer ℕ)
      → ((k : ℕ) → a ≡ done k → k ≤ length bytes)
      → Sent bytes (send_answer t a)
  unfolding send_answer
  send_answer_lem bytes (done zero) few = (refl, λ e. refl, omega arith)
  send_answer_lem bytes (done (suc k)) few = (refl, λ e. absurd cc, few (suc k) refl)
  send_answer_lem bytes (failed e) few = ground arith

  send_on-Sent :
      (connected : Bool) (bytes : List ℕ) (h : Secure t.World)
      → Sent bytes ((send_on t connected bytes h).0, (send_on t connected bytes h).1)
  unfolding send_on
  send_on-Sent true bytes h = send_answer_lem bytes _ (λ k e. t.write_partial k bytes h.world e)
  send_on-Sent false bytes h = (refl, λ e. refl, omega arith)

  send_on-IsReady :
      (connected : Bool) (bytes : List ℕ) (h : Secure t.World)
      → IsReady h
      → IsReady (send_on t connected bytes h).2
  unfolding send_on
  send_on-IsReady true bytes h o = o
  send_on-IsReady false bytes h o = o

  recv_answer_lem :
      (room : ℕ) (a : Answer (List ℕ))
      → ((bytes : List ℕ) → a ≡ done bytes → length bytes ≤ room)
      → Received room (recv_answer t a)
  unfolding recv_answer
  recv_answer_lem room (done []) few = (refl, λ e. refl, omega arith)
  recv_answer_lem room (done (b ∷ bytes)) few = (refl, λ e. absurd cc, few (b ∷ bytes) refl)
  recv_answer_lem room (failed e) few = ground arith

  recv_on-Received :
      (connected : Bool) (room : ℕ) (h : Secure t.World)
      → Received room ((recv_on t connected room h).0, (recv_on t connected room h).1)
  unfolding recv_on
  recv_on-Received true room h =
      recv_answer_lem room _ (λ bytes e. t.read_partial room bytes h.world e)
  recv_on-Received false room h = (refl, λ e. refl, omega arith)

  recv_on-IsReady :
      (connected : Bool) (room : ℕ) (h : Secure t.World)
      → IsReady h
      → IsReady (recv_on t connected room h).2
  unfolding recv_on
  recv_on-IsReady true room h o = o
  recv_on-IsReady false room h o = o

  -- MbedTlsTransport keeps to the part of include/mqtt/transport.hpp that Meets states: only the documented
  -- codes, connected exactly after a connect that returns Ok, nothing moved and no call made without a
  -- connection, nothing counted on a failure, never more than was given, an idempotent close. It is
  -- never connected without having been set up.
  pub tls_transport-Meets : (p : Peer) → Meets (tls_transport t p) IsReady
  unfolding send recv close send_on recv_on notify_if
  tls_transport-Meets p = record {
    connect_answers = λ h o. (connect_lem p h o).0;
    connect_connects = λ h o. (connect_lem p h o).1;
    connect-Holds = λ h o. (connect_lem p h o).2;
    send_answers = λ bytes h. (send_on-Sent h.connected bytes h).0;
    send_fails = λ bytes h. (send_on-Sent h.connected bytes h).1;
    send_partial = λ bytes h. (send_on-Sent h.connected bytes h).2;
    send_unconnected = λ bytes h e. ap (λ c. send_on t c bytes h) e;
    send-Holds = λ bytes h. send_on-IsReady h.connected bytes h;
    recv_answers = λ room h. (recv_on-Received h.connected room h).0;
    recv_fails = λ room h. (recv_on-Received h.connected room h).1;
    recv_partial = λ room h. (recv_on-Received h.connected room h).2;
    recv_unconnected = λ room h e. ap (λ c. recv_on t c room h) e;
    recv-Holds = λ room h. recv_on-IsReady h.connected room h;
    close_closes = λ h. refl;
    close_twice = λ h. rw (t.net_free_twice (notify_if t h.connected h.world)) refl;
    close-Holds = λ h o z. z;
  }
