-- ===== src/Ports/Sockets/Answers.antt =====
-- What send() and recv() make of an answer of the system.
use paho_cpp_static.Prelude.{
  ℕ, List, ◌≡◌, [], ◌∷◌, true, false, refl, ◌≤◌, length, zero, suc, arith, some, none, Option, Bool,
}
use paho_cpp_static.Error.{Error, is_ok, transport_closed}
use paho_cpp_static.Ports.Contract.{stream_code}
use paho_cpp_static.Ports.Sockets.{
  Answer, done, failed, send_answer, recv_answer, Sockets, send_on, recv_on, Option, Bool, Held,
}

-- An error number stands for a failure that the transport's functions may return.
abbrev pub Classifies : (ℕ → Error) → Type 0
Classifies c = (e : ℕ) → (stream_code (c e) ≡ true) × (is_ok (c e) ≡ false)

-- What is returned for some bytes, and for some room.
abbrev pub Sent : List ℕ → Error × ℕ → Type 0
Sent bytes r = (stream_code r.0 ≡ true) × (is_ok r.0 ≡ false → r.1 ≡ 0) × (r.1 ≤ length bytes)

abbrev pub Received : ℕ → Error × List ℕ → Type 0
Received room r = (stream_code r.0 ≡ true) × (is_ok r.0 ≡ false → r.1 ≡ []) × (length r.1 ≤ room)

pub send_answer_lem :
    (c : ℕ → Error) (fine : Classifies c) (bytes : List ℕ) (a : Answer ℕ)
    → ((n : ℕ) → a ≡ done n → n ≤ length bytes)
    → Sent bytes (send_answer c a)
send_answer_lem c fine bytes (done zero) h = (refl, λ e. refl, omega arith)
send_answer_lem c fine bytes (done (suc n)) h = (refl, λ e. absurd cc, h (suc n) refl)
send_answer_lem c fine bytes (failed e) h = ((fine e).0, λ e. refl, omega arith)

pub recv_answer_lem :
    (c : ℕ → Error) (fine : Classifies c) (room : ℕ) (a : Answer (List ℕ))
    → ((bytes : List ℕ) → a ≡ done bytes → length bytes ≤ room)
    → Received room (recv_answer c a)
recv_answer_lem c fine room (done []) h = (refl, λ e. refl, omega arith)
recv_answer_lem c fine room (done (b ∷ bytes)) h = (refl, λ e. absurd cc, h (b ∷ bytes) refl)
recv_answer_lem c fine room (failed e) h = ((fine e).0, λ e. refl, omega arith)

module _ (s : Sockets) (c : ℕ → Error) (fine : Classifies c) where
  pub send_on-Sent :
      (fd : Option ℕ) (connected : Bool) (bytes : List ℕ) (h : Held s.World)
      → Sent bytes ((send_on s c fd connected bytes h).0, (send_on s c fd connected bytes h).1)
  unfolding send_on
  send_on-Sent (some fd) true bytes h =
      send_answer_lem c fine bytes _ (λ n e. s.send_partial fd n bytes h.world e)
  send_on-Sent (some fd) false bytes h = (refl, λ e. refl, omega arith)
  send_on-Sent none connected bytes h = (refl, λ e. refl, omega arith)

  pub send_on_unconnected :
      (fd : Option ℕ) (bytes : List ℕ) (h : Held s.World)
      → send_on s c fd false bytes h ≡ (transport_closed, 0, h)
  unfolding send_on
  send_on_unconnected (some fd) bytes h = refl
  send_on_unconnected none bytes h = refl

  pub recv_on-Received :
      (fd : Option ℕ) (connected : Bool) (room : ℕ) (h : Held s.World)
      → Received room ((recv_on s c fd connected room h).0, (recv_on s c fd connected room h).1)
  unfolding recv_on
  recv_on-Received (some fd) true room h =
      recv_answer_lem c fine room _ (λ bytes e. s.recv_partial fd room bytes h.world e)
  recv_on-Received (some fd) false room h = (refl, λ e. refl, omega arith)
  recv_on-Received none connected room h = (refl, λ e. refl, omega arith)

  pub recv_on_unconnected :
      (fd : Option ℕ) (room : ℕ) (h : Held s.World)
      → recv_on s c fd false room h ≡ (transport_closed, [], h)
  unfolding recv_on
  recv_on_unconnected (some fd) room h = refl
  recv_on_unconnected none room h = refl
