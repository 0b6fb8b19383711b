-- ===== src/Ports/Winsock/Account.antt =====
-- The sockets and startups that a WinsockTransport owns.
use paho_cpp_static.Prelude.{
  ℕ, List, Option, none, some, ◌≡◌, ◌≤◌, [], ◌++◌, Bool, true, false, ◌⊎◌, inl, inr, refl, ◌∙◌,
  arith,
}
use paho_cpp_static.Error.{Error, is_ok, transport_failure}
use paho_cpp_static.Ports.Contract.{connect_code}
use paho_cpp_static.Ports.Ledger.{own, without_first}
use paho_cpp_static.Ports.Winsock.System.{Winsock, Account, count}
use paho_cpp_static.Ports.Winsock.{Guest, close, close_socket, cleanup_if, stop_winsock}

-- The others' sockets, and the startups that others have made; where there are none of these there
-- are no sockets of theirs.
module _ (v : Winsock) (account : Account v) (base : List ℕ) (n : ℕ)
    (others : (1 ≤ n) ⊎ (base ≡ [])) where
  abbrev pub Books : v.World → List ℕ → ℕ → Type 0
  Books w fds k = (account.open_sockets w ≡ fds) × (account.starts w ≡ k)

  abbrev pub Owns : Guest v.World → Type 0
  Owns h =
      Books h.world (own h.sock ++ base) (count h.wsa_started n)
      × (h.sock ≡ none → h.connected ≡ false)

  abbrev pub Outcome : Error × Guest v.World → Type 0
  Outcome r = (connect_code r.0 ≡ true) × (r.1.connected ≡ is_ok r.0) × Owns r.1

  pub kept :
      (w w' : v.World) (fds : List ℕ) (k : ℕ)
      → (account.open_sockets w' ≡ account.open_sockets w) × (account.starts w' ≡ account.starts w)
      → Books w fds k
      → Books w' fds k
  kept w w' fds k (o, c) (p, q) = (o ∙ p, c ∙ q)

  close_socket_lem :
      (sock : Option ℕ) (w : v.World) (k : ℕ)
      → Books w (own sock ++ base) k
      → Books (close_socket v sock w) base k
  unfolding close_socket
  close_socket_lem none w k b = b
  close_socket_lem (some fd) w k (o, c) =
      let (gone, kept_starts) = account.on_closesocket fd w in
      (gone ∙ rw (o, without_first fd base) refl, kept_starts ∙ c)

  cleanup_if_lem :
      (started : Bool) (w : v.World)
      → Books w base (count started n)
      → Books (cleanup_if v started w) base n
  unfolding cleanup_if
  cleanup_if_lem false w b = b
  cleanup_if_lem true w (o, c) =
      let last : (2 ≤ account.starts w) ⊎ (account.open_sockets w ≡ []) = elim others [
        | inl some_start ↦ inl (omega (arith, c, some_start))
        | inr no_socket ↦ inr (o ∙ no_socket)
      ] in
      let (same, fewer) = account.on_cleanup w last in (same ∙ o, omega (arith, fewer, c))

  pub stop_winsock-Owns :
      (connected started : Bool) (w : v.World)
      → connected ≡ false
      → Books w base (count started n)
      → Owns (
          stop_winsock v
            (record { sock = none; connected = connected; wsa_started = started; world = w }))
  unfolding stop_winsock
  stop_winsock-Owns connected started w off b = (cleanup_if_lem started w b, λ e. off)

  pub close-Owns : (h : Guest v.World) → Owns h → Owns (close v h)
  unfolding close
  close-Owns h (b, c) =
      stop_winsock-Owns false h.wsa_started (close_socket v h.sock h.world) refl
        (close_socket_lem h.sock h.world (count h.wsa_started n) b)

  pub close-Outcome : (h : Guest v.World) → Owns h → Outcome (transport_failure, close v h)
  unfolding close stop_winsock
  close-Outcome h o = (refl, refl, close-Owns h o)
