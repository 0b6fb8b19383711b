-- ===== src/Client/Inbound.antt =====
-- PUBLISH from the broker: handle_publish, with what it delivers to the handlers. `depth` is that of
-- shutdown().
use paho_cpp_static.Client.Tables.{inbound_contains, inbound_table_full, count_backpressure}
use paho_cpp_static.Codec.Decode.{decode_publish}
use paho_cpp_static.Topic.{topic_matches}
use paho_cpp_static.Client.Transmit.{send_ack}
use paho_cpp_static.Client.Session.{run_program, run_any, run_call, shutdown}
use paho_cpp_static.Packet.{
  FixedHeader, Message, at_most_once, pubrec, puback, at_least_once, exactly_once,
}
use paho_cpp_static.Prelude.{
  some, [], false, true, none, ℕ, List, ◌+◌, ◌%◌, Bool, if◌then◌else◌, not, ◌^◌, ◌==◌, ◌∷◌, ◌||◌,
  ◌++◌,
}
use paho_cpp_static.Error.{value, error, Error, protocol_violation, ok, is_ok}
use paho_cpp_static.Client.State.{
  ◌>>=◌, ◌>>◌, Setup, Program, Client, AnyCall, Subscription, M, Call, modify, lift, is_connected,
  pure,
}

module _ (u : Setup) (depth : ℕ) where
  abbrev pub run : Program Call → M u (Unit {0})
  run p = run_program u (run_call u (shutdown u depth)) p

  abbrev pub run_all : Program AnyCall → M u (Unit {0})
  run_all p = run_program u (run_any u (shutdown u depth)) p

  abbrev pub set_client : (Client → Client) → M u Error
  set_client f = do modify f; pure ok

  -- The walk over the table as it stands when the message arrives: what a handler may call changes
  -- neither a filter nor a handler of it. It tells whether a handler ran, and whether it has to stop.
  unfoldable pub dispatch_loop : List Subscription → Message → Bool → M u (Bool × Bool)
  dispatch_loop [] m handled s = ((handled, false), s)
  dispatch_loop (e ∷ table) m handled s = elim e.handler [
    | none ↦ dispatch_loop table m handled s
    | some h ↦
        let r = run (u.handlers.on_subscription h m) s in
        let more = dispatch_loop table m true r.1 in
        let others = dispatch_loop table m handled s in
        if topic_matches e.filter m.topic
        then (if not (is_connected r.1.client.state) then ((true, true), r.1) else more)
        else others
  ]

  unfoldable pub dispatch : Message → M u (Unit {0})
  unfolding dispatch_loop
  dispatch m s =
      let r = dispatch_loop s.client.subscriptions m false s in
      if r.0.1 || r.0.0 then (tt, r.1) else run (u.handlers.on_message m) r.1

  -- The three cases of the switch on the QoS.
  unfoldable pub deliver_once : Message → M u Error
  deliver_once m = do
    e ← lift (send_ack u puback m.packet_id)
    (if not (is_ok e) then set_client count_backpressure else (do dispatch m; pure ok))

  unfoldable pub deliver_exactly : Message → M u Error
  deliver_exactly m s =
      let again : M u Error = (do
        e ← lift (send_ack u pubrec m.packet_id)
        (if not (is_ok e) then set_client count_backpressure else pure ok)) in
      let first : M u Error = (do
        e ← lift (send_ack u pubrec m.packet_id)
        (if not (is_ok e) then set_client count_backpressure else (do
          modify (λ c. record c { inbound_ids = c.inbound_ids ++ (m.packet_id ∷ []) })
          dispatch m
          pure ok))) in
      if inbound_contains s.client m.packet_id
      then again s
      else if inbound_table_full u.cfg s.client
      then set_client
          (λ c. record c { inbound_overflow_count = (c.inbound_overflow_count + 1) % 2 ^ 32 }) s
      else first s

  unfoldable pub deliver : Message → M u Error
  unfolding deliver_once deliver_exactly
  deliver m =
      if m.qos == at_most_once
      then (do dispatch m; pure ok)
      else if m.qos == at_least_once
      then deliver_once m
      else if m.qos == exactly_once
      then deliver_exactly m
      else pure protocol_violation

  unfoldable pub handle_publish : FixedHeader → List ℕ → M u Error
  handle_publish h body s =
      if not (is_connected s.client.state)
      then (protocol_violation, s)
      else (elim (decode_publish u.streams h body) [ error e ↦ (e, s) | value m ↦ deliver m s ])
