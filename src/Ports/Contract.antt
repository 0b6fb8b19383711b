-- ===== src/Ports/Contract.antt =====
-- include/mqtt/transport.hpp: the virtual functions of a Transport, a part of what their comments
-- demand, and the outside of a client over a transport that meets it.
use paho_cpp_static.Prelude.{ℕ, List, Bool, true, false, ◌≡◌, ◌≤◌, ◌<◌, ◌^◌, length, [], ◌∷◌}
use paho_cpp_static.Error.{Error, ok, would_block, transport_closed, transport_failure, is_ok}
use paho_cpp_static.Client.State.{Env}

-- The functions on a state of their own: the object, and the system behind it. The bytes that recv
-- returns are the first `read` bytes of the buffer, `room` bytes long.
pub record Transport : Type 1 where
  pub Self : Type 0
  pub connect : Self → Error × Self
  pub send : List ℕ → Self → Error × ℕ × Self
  pub recv : ℕ → Self → Error × List ℕ × Self
  pub close : Self → Self
  pub is_connected : Self → Bool

-- The codes that connect may return, and those of send and recv.
abbrev pub connect_code : Error → Bool
connect_code ok = true
connect_code would_block = true
connect_code transport_failure = true
connect_code e = false

abbrev pub stream_code : Error → Bool
stream_code ok = true
stream_code would_block = true
stream_code transport_closed = true
stream_code transport_failure = true
stream_code e = false

-- Some of what the comments demand, in the states in which a condition of the transport's own holds: which
-- codes there are, but not what the system has to answer for each, and nothing about how long a call
-- takes.
pub record Meets (t : Transport) (Holds : t.Self → Type 0) : Type 0 where
  pub connect_answers : (s : t.Self) → Holds s → connect_code (t.connect s).0 ≡ true
  pub connect_connects :
      (s : t.Self) → Holds s → t.is_connected (t.connect s).1 ≡ is_ok (t.connect s).0
  pub connect-Holds : (s : t.Self) → Holds s → Holds (t.connect s).1
  pub send_answers : (bytes : List ℕ) (s : t.Self) → stream_code (t.send bytes s).0 ≡ true
  pub send_fails :
      (bytes : List ℕ) (s : t.Self) → is_ok (t.send bytes s).0 ≡ false → (t.send bytes s).1 ≡ 0
  pub send_partial : (bytes : List ℕ) (s : t.Self) → (t.send bytes s).1 ≤ length bytes
  pub send_unconnected :
      (bytes : List ℕ) (s : t.Self)
      → t.is_connected s ≡ false
      → t.send bytes s ≡ (transport_closed, 0, s)
  pub send-Holds : (bytes : List ℕ) (s : t.Self) → Holds s → Holds (t.send bytes s).2
  pub recv_answers : (room : ℕ) (s : t.Self) → stream_code (t.recv room s).0 ≡ true
  pub recv_fails :
      (room : ℕ) (s : t.Self) → is_ok (t.recv room s).0 ≡ false → (t.recv room s).1 ≡ []
  pub recv_partial : (room : ℕ) (s : t.Self) → length (t.recv room s).1 ≤ room
  pub recv_unconnected :
      (room : ℕ) (s : t.Self) → t.is_connected s ≡ false → t.recv room s ≡ (transport_closed, [], s)
  pub recv-Holds : (room : ℕ) (s : t.Self) → Holds s → Holds (t.recv room s).2
  pub close_closes : (s : t.Self) → t.is_connected (t.close s) ≡ false
  pub close_twice : (s : t.Self) → t.close (t.close s) ≡ t.close s
  pub close-Holds : (s : t.Self) → Holds s → Holds (t.close s)

-- Any sequence of calls.
pub data Use : Type 0 where
  connects closes : Use
  sends : List ℕ → Use
  receives : ℕ → Use

unfoldable pub use_once : (t : Transport) → Use → t.Self → t.Self
use_once t connects s = (t.connect s).1
use_once t closes s = t.close s
use_once t (sends bytes) s = (t.send bytes s).2
use_once t (receives room) s = (t.recv room s).2

unfoldable pub use_all : (t : Transport) → List Use → t.Self → t.Self
use_all t [] s = s
use_all t (u ∷ uses) s = use_all t uses (use_once t u s)

module _ (t : Transport) (Holds : t.Self → Type 0) (meets : Meets t Holds) where
  use_once-Holds : (u : Use) (s : t.Self) → Holds s → Holds (use_once t u s)
  unfolding use_once
  use_once-Holds connects s h = meets.connect-Holds s h
  use_once-Holds closes s h = meets.close-Holds s h
  use_once-Holds (sends bytes) s h = meets.send-Holds bytes s h
  use_once-Holds (receives room) s h = meets.recv-Holds room s h

  pub use_all-Holds : (uses : List Use) (s : t.Self) → Holds s → Holds (use_all t uses s)
  unfolding use_all
  use_all-Holds [] s h = h
  use_all-Holds (u ∷ uses) s h = use_all-Holds uses (use_once t u s) (use_once-Holds u s h)

  -- The outside of a client over the transport and a clock.
  abbrev pub outside : (now_ms : t.Self → ℕ × t.Self) → ((s : t.Self) → (now_ms s).0 < 2 ^ 32) → Env
  outside now_ms u32 = record {
    World = t.Self;
    now_ms = now_ms;
    open_transport = t.connect;
    send = t.send;
    recv = t.recv;
    close = t.close;
    now_ms_u32 = u32;
    send_partial = meets.send_partial;
    recv_partial = meets.recv_partial;
  }
