-- ===== src/Client/Session.antt =====
-- The life of a session: connect, disconnect, abort, shutdown, and the handlers that call them.
use paho_cpp_static.Topic.{is_valid_topic_name}
use paho_cpp_static.Client.Tables.{reset_session_state, release_slot, mark_resub}
use paho_cpp_static.Codec.Encode.{encode_empty, encode_connect}
use paho_cpp_static.Codec.Sizes.{connect_remaining_length}
use paho_cpp_static.Client.Transmit.{enqueue_sized, packet_size}
use paho_cpp_static.TxQueue.{clear}
use paho_cpp_static.Packet.{ConnectOptions, PacketType, accepted, will_valid}
use paho_cpp_static.Client.Publish.{publish}
use paho_cpp_static.Client.Requests.{subscribe, unsubscribe}
use paho_cpp_static.Client.State.{
  Setup, Sys, Client, M, Program, clock_now, ◌>>=◌, Call, connects, is_connected, is_idle, call,
  pure, idle, finish, connecting, disconnecting, publishes, disconnects, aborts, steps, AnyCall,
  lift, basic, subscribes, unsubscribes,
}
use paho_cpp_static.Prelude.{
  zero, suc, false, [], ℕ, Bool, ◌*◌, not, if◌then◌else◌, ◌%◌, ◌^◌, length, map, ltb, ◌&&◌,
  is_empty,
}
use paho_cpp_static.Error.{
  value, error, Error, Result, transport_closed, ok, is_ok, not_connected, already_connected,
  reentrant, invalid_argument,
}

module _ (u : Setup) where
  abbrev pub W : Type 0
  W = Sys u.env.World

  -- shutdown() up to the notification; it returns whether there is one to make.
  unfoldable pub close_session : Error → M u Bool
  close_session reason s =
      let c = s.client in
      (
        not (is_idle c.state),
        record s {
          world = u.env.close s.world;
          client = record c {
            tx = clear c.tx;
            rx = [];
            ping_outstanding = false;
            state = idle;
            last_error = reason;
            pending_acks = [];
            outbound = if c.clean_session then map release_slot c.outbound else c.outbound;
            inbound_ids = if c.clean_session then [] else c.inbound_ids;
            subscriptions = mark_resub c.subscriptions;
          };
        },
      )

  abbrev pub start_session : ConnectOptions → ℕ → Client → Client
  start_session opts now c = record c {
    clean_session = opts.clean_session;
    keep_alive_ms = opts.keep_alive_s * 1000 % 2 ^ 32;
    connack = record { code = accepted; session_present = false };
    last_error = ok;
    connect_started_ms = now;
    last_sent_ms = now;
    last_received_ms = now;
    ping_outstanding = false;
    state = connecting;
  }

  -- The guards of connect(), then the CONNECT packet.
  unfoldable pub connect_size : ConnectOptions → Client → Result ℕ
  connect_size opts c =
      if not (is_idle c.state)
      then error already_connected
      else if ltb u.cfg.max_client_id_len (length opts.client_id)
      then error invalid_argument
      else if ltb u.cfg.max_username_len (length opts.username)
      then error invalid_argument
      else if ltb u.cfg.max_password_len (length opts.password)
      then error invalid_argument
      else if will_valid opts.will && not (is_valid_topic_name opts.will.topic)
      then error invalid_argument
      else if is_empty opts.client_id && not opts.clean_session
      then error invalid_argument
      else connect_remaining_length opts

  abbrev pub before_connect : ConnectOptions → Client → Client
  before_connect opts c =
      let c' : Client = record c { tx = clear c.tx; rx = [] } in
      if opts.clean_session then reset_session_state c' else c'

  unfoldable pub connect_enqueue : ConnectOptions → ℕ → Client → Error × Client
  connect_enqueue opts rl c =
      enqueue_sized u.cfg (packet_size rl) (λ size. encode_connect u.streams size opts)
        (before_connect opts c)

  unfoldable pub finish_connect : ConnectOptions → Error → M u Error
  finish_connect opts e s =
      let (now, s') = clock_now u s in
      if not (is_ok e)
      then (e, s)
      else (ok, record s' { client = start_session opts now s'.client })

  unfoldable pub connect : ConnectOptions → M u Error
  unfolding connect_size connect_enqueue finish_connect
  connect opts s = elim (connect_size opts s.client) [
    | error e ↦ (e, s)
    | value rl ↦ (do e ← lift (connect_enqueue opts rl); finish_connect opts e) s
  ]

  -- disconnect(), over the shutdown() that it may fall through to.
  unfoldable pub queue_disconnect : Client → Error × Client
  queue_disconnect c =
      enqueue_sized u.cfg (packet_size 0)
        (λ size. encode_empty u.streams size PacketType.disconnect) c

  unfoldable pub disconnect_by : (Error → M u Error) → M u Error
  unfolding queue_disconnect
  disconnect_by shutdown s =
      let r = queue_disconnect s.client in
      let hard : W → Error × W = (do _ ← shutdown ok; pure ok) in
      if is_idle s.client.state
      then (not_connected, s)
      else if not (is_connected s.client.state)
      then hard s
      else if is_ok r.0
      then (ok, record s { client = record r.1 { state = disconnecting } })
      else hard (record s { client = r.1 })

  -- One call of a handler. A handler's step() is refused inside step(); the on_disconnect handler of
  -- a call from outside step() finds the client idle, where step() does nothing.
  unfoldable pub run_call : (Error → M u Error) → Call → M u Error
  run_call shutdown (connects opts) = connect opts
  run_call shutdown disconnects = disconnect_by shutdown
  run_call shutdown aborts = do _ ← shutdown transport_closed; pure ok
  run_call shutdown steps = λ s. ((if s.client.in_step then reentrant else ok), s)
  run_call shutdown (publishes topic payload qos retain) = publish u topic payload qos retain

  unfoldable pub run_any : (Error → M u Error) → AnyCall → M u Error
  run_any shutdown (basic c) = run_call shutdown c
  run_any shutdown (subscribes subs handler) = subscribe u subs handler
  run_any shutdown (unsubscribes filters) = unsubscribe u filters

  unfoldable pub run_program : {C : Type 0} → (C → M u Error) → Program C → M u (Unit {0})
  run_program run finish s = (tt, s)
  run_program run (call c k) s = let r = run c s in run_program run (k r.0 r.1.client) r.1

  -- shutdown(). `depth` bounds how deep on_disconnect handlers that connect and end the session
  -- again may nest; the handler of the innermost is not run.
  unfoldable pub shutdown : ℕ → Error → M u Error
  unfolding close_session run_program run_any run_call
  shutdown zero reason s = (reason, (close_session reason s).1)
  shutdown (suc depth) reason s =
      let r = close_session reason s in
      let t = run_program (run_any (shutdown depth)) (u.handlers.on_disconnect reason) r.1 in
      if r.0 then (reason, t.1) else (reason, r.1)

  unfoldable pub disconnect : ℕ → M u Error
  unfolding disconnect_by shutdown
  disconnect depth = disconnect_by (shutdown depth)

  unfoldable pub abort : ℕ → M u Error
  unfolding shutdown
  abort depth = shutdown depth transport_closed
