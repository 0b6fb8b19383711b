-- ===== src/Ports/Winsock/Connect.antt =====
-- The connect of WinsockTransport, and what it owns.
use paho_cpp_static.Ports.Sockets.{Answer, done, failed}
use paho_cpp_static.Ports.Ipv4.{Ipv4, to_uint32}
use paho_cpp_static.Ports.Winsock.Account.{
  Books, close-Outcome, Outcome, Owns, kept, stop_winsock-Owns,
}
use paho_cpp_static.Prelude.{
  ℕ, List, Option, none, some, ◌≡◌, ◌≤◌, [], ◌∷◌, Bool, true, false, ◌⊎◌, inl, inr, refl, ◌∙◌, ap,
  suc, zero, Bool-cases, ◌==◌, ◌||◌,
}
use paho_cpp_static.Error.{Error, transport_failure}
use paho_cpp_static.Ports.Winsock.System.{Winsock, Account, count, with_socket}
use paho_cpp_static.Ports.Winsock.{
  Guest, close, stop_winsock, begin_started, connect, begin_options, begin_connect, finish_error,
  connect_on, begin_answer, begin_socket, finish_select, start_winsock, Answer, finish_connect,
  Ipv4, start_on,
}

module _ (v : Winsock) (account : Account v) (base : List ℕ) (n : ℕ)
    (others : (1 ≤ n) ⊎ (base ≡ [])) where
  abbrev pub Holds : Guest v.World → Type 0
  Holds = Owns v account base n others

  abbrev pub Ends : Error × Guest v.World → Type 0
  Ends = Outcome v account base n others

  abbrev Has : v.World → List ℕ → ℕ → Type 0
  Has = Books v account base n others

  -- An object whose connection is under way.
  abbrev holding : ℕ → Bool → v.World → Guest v.World
  holding fd started w = record {
    sock = some fd;
    connected = false;
    wsa_started = started;
    world = w;
  }

  closes :
      (fd : ℕ) (started : Bool) (w : v.World)
      → Has w (fd ∷ base) (count started n)
      → Ends (transport_failure, close v (holding fd started w))
  closes fd started w b =
      close-Outcome v account base n others (holding fd started w) (b, λ e. refl)

  begin_answer_lem :
      (a : Answer (Unit {0})) (fd : ℕ) (started : Bool) (w : v.World)
      → Has w (fd ∷ base) (count started n)
      → Ends (begin_answer v a (holding fd started w))
  unfolding begin_answer
  begin_answer_lem (done u) fd started w b = (refl, refl, (b, λ e. absurd cc))
  begin_answer_lem (failed e) fd started w b =
      let shut = closes fd started w b in
      elim (Bool-cases (e == v.ewouldblock || e == v.einprogress || e == v.ealready)) [
        | inl q ↦ rw q (refl, refl, (b, λ z. refl))
        | inr q ↦ rw q shut
      ]

  begin_options_lem :
      (address : Ipv4) (port fd : ℕ) (fine started : Bool) (w : v.World)
      → Has w (fd ∷ base) (count started n)
      → Ends (begin_options v address port fd fine (holding fd started w))
  unfolding begin_options
  begin_options_lem address port fd true started w b = begin_answer_lem _ fd started _ (
      kept v account base n others _ _ _ _
        (account.on_connect fd (to_uint32 address) port (v.set_no_delay fd w))
        (kept v account base n others _ _ _ _ (account.on_set_no_delay fd w) b))
  begin_options_lem address port fd false started w b = closes fd started w b

  begin_socket_lem :
      (address : Ipv4) (port : ℕ) (sock : Option ℕ) (started : Bool) (w : v.World)
      → Has w (with_socket sock base) (count started n)
      → Ends (
          begin_socket v address port sock
            (record { sock = none; connected = false; wsa_started = started; world = w }))
  unfolding begin_socket stop_winsock
  begin_socket_lem address port (some fd) started w b =
      begin_options_lem address port fd _ started _
        (kept v account base n others _ _ _ _ (account.on_set_nonblocking fd w) b)
  begin_socket_lem address port none started w b =
      (refl, refl, stop_winsock-Owns v account base n others false started w refl b)

  begin_started_lem :
      (address : Ipv4) (port : ℕ) (fine started : Bool) (w : v.World)
      → Has w base (count started n)
      → Ends (
          begin_started v address port fine
            (record { sock = none; connected = false; wsa_started = started; world = w }))
  unfolding begin_started
  begin_started_lem address port true started w (o, c) =
      let (o', c') = account.on_socket w in
      begin_socket_lem address port _ started _ (o' ∙ ap (with_socket (v.socket w).0) o, c' ∙ c)
  begin_started_lem address port false started w b = (refl, refl, (b, λ e. refl))

  begin_connect_lem :
      (address : Ipv4) (port : ℕ) (started : Bool) (w : v.World)
      → Has w base (count started n)
      → Ends (
          begin_connect v address port
            (record { sock = none; connected = false; wsa_started = started; world = w }))
  unfolding begin_connect start_winsock start_on
  begin_connect_lem address port true w b = begin_started_lem address port true true w b
  begin_connect_lem address port false w (o, c) =
      let (o', c') = account.on_start w in
      begin_started_lem address port _ _ _ (o' ∙ o, c' ∙ ap (count (v.start w).0) c)

  finish_error_lem :
      (a : Answer ℕ) (fd : ℕ) (started : Bool) (w : v.World)
      → Has w (fd ∷ base) (count started n)
      → Ends (finish_error v a (holding fd started w))
  unfolding finish_error
  finish_error_lem (done zero) fd started w b = (refl, refl, (b, λ e. absurd cc))
  finish_error_lem (done (suc e)) fd started w b = closes fd started w b
  finish_error_lem (failed e) fd started w b = closes fd started w b

  finish_select_lem :
      (a : Answer ℕ) (fd : ℕ) (started : Bool) (w : v.World)
      → Has w (fd ∷ base) (count started n)
      → Ends (finish_select v fd a (holding fd started w))
  unfolding finish_select
  finish_select_lem (done zero) fd started w b = (refl, refl, (b, λ e. refl))
  finish_select_lem (done (suc k)) fd started w b =
      finish_error_lem _ fd started _
        (kept v account base n others _ _ _ _ (account.on_so_error fd w) b)
  finish_select_lem (failed e) fd started w b = closes fd started w b

  connect_on_lem :
      (address : Ipv4) (port : ℕ) (sock : Option ℕ) (connected started : Bool) (w : v.World)
      → Holds (record { sock = sock; connected = connected; wsa_started = started; world = w })
      → Ends (
          connect_on v address port sock connected
            (record { sock = sock; connected = connected; wsa_started = started; world = w }))
  unfolding connect_on finish_connect
  connect_on_lem address port sock true started w o = (refl, refl, o)
  connect_on_lem address port none false started w (b, c) =
      begin_connect_lem address port started w b
  connect_on_lem address port (some fd) false started w (b, c) =
      finish_select_lem _ fd started _
        (kept v account base n others _ _ _ _ (account.on_select_both fd w) b)

  pub connect_lem :
      (address : Ipv4) (port : ℕ) (h : Guest v.World) → Holds h → Ends (connect v address port h)
  unfolding connect
  connect_lem address port h o =
      connect_on_lem address port h.sock h.connected h.wsa_started h.world o
