-- ===== src/Ports/Sockets.antt =====
-- The system calls of the sample transports on POSIX, which are not part of the repository: the
-- calls on a state of the system, their error numbers, and the behaviour that POSIX documents.
pub mod Answers
use paho_cpp_static.Prelude.{
  ℕ, List, Option, ◌≡◌, ◌≤◌, length, [], ◌∷◌, Bool, suc, zero, some, none, false, true,
}
use paho_cpp_static.Error.{Error, ok, transport_closed}

-- What a call returns: a value, or -1 and the error number that it leaves in errno.
pub data Answer {ℓ} (A : Type ℓ) : Type ℓ where
  done : A → Answer A
  failed : ℕ → Answer A

-- Descriptors are numbers. `Address` stands for a socket address with its length, `Kind` for the
-- three arguments of socket().
pub record Sockets : Type 1 where
  pub World : Type 0
  pub Kind : Type 0
  pub Address : Type 0
  pub tcp : Kind
  pub inet : ℕ → ℕ → Address
  pub eagain : ℕ
  pub ewouldblock : ℕ
  pub eintr : ℕ
  pub einprogress : ℕ
  pub ealready : ℕ
  pub epipe : ℕ
  pub econnreset : ℕ
  pub enotconn : ℕ
  pub o_nonblock : ℕ
  pub socket : Kind → World → Answer ℕ × World
  pub get_flags : ℕ → World → Answer ℕ × World
  pub set_flags : ℕ → ℕ → World → Answer (Unit {0}) × World
  pub set_no_delay : ℕ → World → World
  pub connect : ℕ → Address → World → Answer (Unit {0}) × World
  pub poll_out : ℕ → World → Answer ℕ × World
  pub select_write : ℕ → World → Answer ℕ × World
  pub so_error : ℕ → World → Answer ℕ × World
  pub send : ℕ → List ℕ → World → Answer ℕ × World
  pub recv : ℕ → ℕ → World → Answer (List ℕ) × World
  pub close : ℕ → World → World
  pub poll_in : ℕ → ℕ → World → World
  pub select_read : ℕ → ℕ → ℕ → World → World
  pub send_partial :
      (fd n : ℕ) (bytes : List ℕ) (w : World) → (send fd bytes w).0 ≡ done n → n ≤ length bytes
  pub recv_partial :
      (fd room : ℕ) (bytes : List ℕ) (w : World)
      → (recv fd room w).0 ≡ done bytes
      → length bytes ≤ room

-- The members of a transport that change, `fd` being `none` for -1, and the system behind it.
pub record Held (W : Type 0) : Type 0 where
  pub fd : Option ℕ
  pub connected : Bool
  pub world : W

-- What send() makes of the answer of the system call, and what recv() does, with the error that an
-- error number stands for.
abbrev pub send_answer : (ℕ → Error) → Answer ℕ → Error × ℕ
send_answer classify (done zero) = (transport_closed, 0)
send_answer classify (done (suc n)) = (ok, suc n)
send_answer classify (failed e) = (classify e, 0)

abbrev pub recv_answer : (ℕ → Error) → Answer (List ℕ) → Error × List ℕ
recv_answer classify (done []) = (transport_closed, [])
recv_answer classify (done (b ∷ bytes)) = (ok, b ∷ bytes)
recv_answer classify (failed e) = (classify e, [])

-- The members that TcpIpTransport and PosixTransport write alike, but for the classification of the
-- error numbers.
module _ (s : Sockets) where
  -- `if (fd_ >= 0) ::close(fd_);`
  abbrev pub close_fd : Option ℕ → s.World → s.World
  close_fd none w = w
  close_fd (some fd) w = s.close fd w

  abbrev pub close_held : Held s.World → Held s.World
  close_held h = record { fd = none; connected = false; world = close_fd h.fd h.world }

  -- Behind the test of fd_ and connected_.
  unfoldable pub send_on :
      (ℕ → Error) → Option ℕ → Bool → List ℕ → Held s.World → Error × ℕ × Held s.World
  send_on classify (some fd) true bytes h =
      let (a, w) = s.send fd bytes h.world in
      let (e, written) = send_answer classify a in (e, written, record h { world = w })
  send_on classify fd connected bytes h = (transport_closed, 0, h)

  unfoldable pub recv_on :
      (ℕ → Error) → Option ℕ → Bool → ℕ → Held s.World → Error × List ℕ × Held s.World
  recv_on classify (some fd) true room h =
      let (a, w) = s.recv fd room h.world in
      let (e, bytes) = recv_answer classify a in (e, bytes, record h { world = w })
  recv_on classify fd connected room h = (transport_closed, [], h)
