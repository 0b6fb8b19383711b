-- ===== src/Ports/Winsock/System.antt =====
-- The calls of Winsock, which are not part of the repository: on a state of the system, with the
-- error codes and the behaviour that Winsock documents.
use paho_cpp_static.Prelude.{
  ℕ, List, Option, none, some, ◌≡◌, ◌≤◌, length, [], ◌∷◌, Bool, true, false, ◌-◌, ◌⊎◌, suc,
}
use paho_cpp_static.Ports.Sockets.{Answer, done}
use paho_cpp_static.Ports.Ledger.{without}

-- Sockets are numbers, INVALID_SOCKET being `none`. Where a call fails, the number is what
-- WSAGetLastError() returns. `start` stands for WSAStartup() of version 2.2, `set_nonblocking` for ioctlsocket() with FIONBIO, and
-- `select_both` for select() on the write and the exception set without a timeout.
pub record Winsock : Type 1 where
  pub World : Type 0
  pub ewouldblock : ℕ
  pub einprogress : ℕ
  pub ealready : ℕ
  pub eintr : ℕ
  pub econnreset : ℕ
  pub econnaborted : ℕ
  pub enetreset : ℕ
  pub eshutdown : ℕ
  pub enotconn : ℕ
  pub start : World → Bool × World
  pub cleanup : World → World
  pub socket : World → Option ℕ × World
  pub set_nonblocking : ℕ → World → Bool × World
  pub set_no_delay : ℕ → World → World
  pub connect : ℕ → ℕ → ℕ → World → Answer (Unit {0}) × World
  pub select_both : ℕ → World → Answer ℕ × World
  pub so_error : ℕ → World → Answer ℕ × World
  pub send : ℕ → List ℕ → World → Answer ℕ × World
  pub recv : ℕ → ℕ → World → Answer (List ℕ) × World
  pub closesocket : ℕ → World → World
  pub select_read : ℕ → ℕ → ℕ → World → World
  pub send_partial :
      (fd n : ℕ) (bytes : List ℕ) (w : World) → (send fd bytes w).0 ≡ done n → n ≤ length bytes
  pub recv_partial :
      (fd room : ℕ) (bytes : List ℕ) (w : World)
      → (recv fd room w).0 ≡ done bytes
      → length bytes ≤ room

abbrev pub with_socket : Option ℕ → List ℕ → List ℕ
with_socket none fds = fds
with_socket (some fd) fds = fd ∷ fds

abbrev pub count : Bool → ℕ → ℕ
count true n = suc n
count false n = n

-- The open sockets, and the startups of the process that no cleanup has matched. A cleanup that is
-- not the last leaves the sockets alone; the last one finds none to close, or closes them.
pub record Account (v : Winsock) : Type 0 where
  pub open_sockets : v.World → List ℕ
  pub starts : v.World → ℕ
  pub on_start :
      (w : v.World)
      → (open_sockets (v.start w).1 ≡ open_sockets w)
        × (starts (v.start w).1 ≡ count (v.start w).0 (starts w))
  pub on_cleanup :
      (w : v.World)
      → (2 ≤ starts w) ⊎ (open_sockets w ≡ [])
      → (open_sockets (v.cleanup w) ≡ open_sockets w) × (starts (v.cleanup w) ≡ starts w - 1)
  pub on_socket :
      (w : v.World)
      → (open_sockets (v.socket w).1 ≡ with_socket (v.socket w).0 (open_sockets w))
        × (starts (v.socket w).1 ≡ starts w)
  pub on_closesocket :
      (fd : ℕ) (w : v.World)
      → (open_sockets (v.closesocket fd w) ≡ without fd (open_sockets w))
        × (starts (v.closesocket fd w) ≡ starts w)
  pub on_set_nonblocking :
      (fd : ℕ) (w : v.World)
      → (open_sockets (v.set_nonblocking fd w).1 ≡ open_sockets w)
        × (starts (v.set_nonblocking fd w).1 ≡ starts w)
  pub on_set_no_delay :
      (fd : ℕ) (w : v.World)
      → (open_sockets (v.set_no_delay fd w) ≡ open_sockets w)
        × (starts (v.set_no_delay fd w) ≡ starts w)
  pub on_connect :
      (fd address port : ℕ) (w : v.World)
      → (open_sockets (v.connect fd address port w).1 ≡ open_sockets w)
        × (starts (v.connect fd address port w).1 ≡ starts w)
  pub on_select_both :
      (fd : ℕ) (w : v.World)
      → (open_sockets (v.select_both fd w).1 ≡ open_sockets w)
        × (starts (v.select_both fd w).1 ≡ starts w)
  pub on_so_error :
      (fd : ℕ) (w : v.World)
      → (open_sockets (v.so_error fd w).1 ≡ open_sockets w)
        × (starts (v.so_error fd w).1 ≡ starts w)
  pub on_send :
      (fd : ℕ) (bytes : List ℕ) (w : v.World)
      → (open_sockets (v.send fd bytes w).1 ≡ open_sockets w)
        × (starts (v.send fd bytes w).1 ≡ starts w)
  pub on_recv :
      (fd room : ℕ) (w : v.World)
      → (open_sockets (v.recv fd room w).1 ≡ open_sockets w)
        × (starts (v.recv fd room w).1 ≡ starts w)
