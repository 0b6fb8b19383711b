-- ===== src/Ports/Ledger.antt =====
-- The open descriptors of the system, and those that a transport owns.
use paho_cpp_static.Prelude.{
  ℕ, List, Option, none, some, ◌≡◌, [], ◌∷◌, if◌then◌else◌, ◌==◌, true, false, ◌++◌, arith, ◌∙◌,
  refl, Bool,
}
use paho_cpp_static.Error.{Error, is_ok, transport_failure}
use paho_cpp_static.Ports.Contract.{connect_code}
use paho_cpp_static.Ports.Sockets.{
  Sockets, Answer, done, failed, Held, close_fd, send_on, close_held, recv_on,
}

abbrev pub without : ℕ → List ℕ → List ℕ
without fd [] = []
without fd (x ∷ fds) = if x == fd then fds else x ∷ without fd fds

-- The descriptor that a successful socket() returns, in front of those that are open.
abbrev pub with_opened : Answer ℕ → List ℕ → List ℕ
with_opened (done fd) fds = fd ∷ fds
with_opened (failed e) fds = fds

-- The open descriptors: socket() adds one, close() takes its own away, and no other call of these
-- changes them.
pub record Ledger (s : Sockets) : Type 0 where
  pub open_fds : s.World → List ℕ
  pub on_socket :
      (k : s.Kind) (w : s.World)
      → open_fds (s.socket k w).1 ≡ with_opened (s.socket k w).0 (open_fds w)
  pub on_close : (fd : ℕ) (w : s.World) → open_fds (s.close fd w) ≡ without fd (open_fds w)
  pub on_get_flags : (fd : ℕ) (w : s.World) → open_fds (s.get_flags fd w).1 ≡ open_fds w
  pub on_set_flags : (fd flags : ℕ) (w : s.World) → open_fds (s.set_flags fd flags w).1 ≡ open_fds w
  pub on_set_no_delay : (fd : ℕ) (w : s.World) → open_fds (s.set_no_delay fd w) ≡ open_fds w
  pub on_connect :
      (fd : ℕ) (a : s.Address) (w : s.World) → open_fds (s.connect fd a w).1 ≡ open_fds w
  pub on_poll_out : (fd : ℕ) (w : s.World) → open_fds (s.poll_out fd w).1 ≡ open_fds w
  pub on_select_write : (fd : ℕ) (w : s.World) → open_fds (s.select_write fd w).1 ≡ open_fds w
  pub on_so_error : (fd : ℕ) (w : s.World) → open_fds (s.so_error fd w).1 ≡ open_fds w
  pub on_send :
      (fd : ℕ) (bytes : List ℕ) (w : s.World) → open_fds (s.send fd bytes w).1 ≡ open_fds w
  pub on_recv : (fd room : ℕ) (w : s.World) → open_fds (s.recv fd room w).1 ≡ open_fds w

-- The descriptor that an object holds.
abbrev pub own : Option ℕ → List ℕ
own none = []
own (some fd) = fd ∷ []

-- An object whose connection is under way.
abbrev pub holding : {W : Type 0} → ℕ → W → Held W
holding fd w = record { fd = some fd; connected = false; world = w }

same : (fd : ℕ) → fd == fd ≡ true
same fd = ground arith

pub without_first : (fd : ℕ) (fds : List ℕ) → without fd (fd ∷ fds) ≡ fds
without_first fd fds = rw (same fd) refl

module _ (s : Sockets) (ledger : Ledger s) (base : List ℕ) where
  -- The object's descriptor is open, before the others, and only an object that holds one is
  -- connected.
  abbrev pub Owns : Held s.World → Type 0
  Owns h = (ledger.open_fds h.world ≡ own h.fd ++ base) × (h.fd ≡ none → h.connected ≡ false)

  -- What connect returns: its answer, and what it leaves.
  abbrev pub Outcome : Error × Held s.World → Type 0
  Outcome r = (connect_code r.0 ≡ true) × (r.1.connected ≡ is_ok r.0) × Owns r.1

  pub close_fd_lem :
      (fd : Option ℕ) (w : s.World)
      → ledger.open_fds w ≡ own fd ++ base
      → ledger.open_fds (close_fd s fd w) ≡ base
  close_fd_lem none w h = h
  close_fd_lem (some fd) w h = ledger.on_close fd w ∙ rw (h, without_first fd base) refl

  pub close_held-Owns : (h : Held s.World) → Owns h → Owns (close_held s h)
  close_held-Owns h (o, c) = (close_fd_lem h.fd h.world o, λ e. refl)

  pub close_held-Outcome : (h : Held s.World) → Owns h → Outcome (transport_failure, close_held s h)
  close_held-Outcome h o = (refl, refl, close_held-Owns h o)

  module _ (c : ℕ → Error) where
    pub send_on-Owns :
        (fd : Option ℕ) (connected : Bool) (bytes : List ℕ) (h : Held s.World)
        → Owns h
        → Owns (send_on s c fd connected bytes h).2
    unfolding send_on
    send_on-Owns (some fd) true bytes h (o, c) = (ledger.on_send fd bytes h.world ∙ o, c)
    send_on-Owns (some fd) false bytes h o = o
    send_on-Owns none connected bytes h o = o

    pub recv_on-Owns :
        (fd : Option ℕ) (connected : Bool) (room : ℕ) (h : Held s.World)
        → Owns h
        → Owns (recv_on s c fd connected room h).2
    unfolding recv_on
    recv_on-Owns (some fd) true room h (o, c) = (ledger.on_recv fd room h.world ∙ o, c)
    recv_on-Owns (some fd) false room h o = o
    recv_on-Owns none connected room h o = o
