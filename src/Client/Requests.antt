-- ===== src/Client/Requests.antt =====
-- subscribe() and unsubscribe().
use paho_cpp_static.Codec.Sizes.{unsubscribe_remaining_length, subscribe_remaining_length}
use paho_cpp_static.Topic.{is_valid_filter}
use paho_cpp_static.Codec.Encode.{encode_unsubscribe, encode_subscribe}
use paho_cpp_static.Client.Transmit.{enqueue_sized, packet_size}
use paho_cpp_static.Client.Tables.{
  find_subscription, update_by_filter, alloc_packet_id, alloc_sub_id, is_some, ack_table_full,
}
use paho_cpp_static.Packet.{PacketType, TopicSubscription, unsuback, suback}
use paho_cpp_static.Client.State.{
  Setup, PendingAck, Client, Subscription, M, ◌>>=◌, clock_now, is_connected, pure, lift,
}
use paho_cpp_static.Prelude.{
  none, some, [], false, ℕ, List, Option, ◌∷◌, ◌++◌, if◌then◌else◌, not, ◌==◌, ◌+◌, is_empty, ltb,
  ◌||◌, length,
}
use paho_cpp_static.Error.{
  error, value, Error, Result, ok, is_ok, not_connected, invalid_argument, no_pending_ack_slot,
  topic_too_long, no_subscription_slot,
}

module _ (u : Setup) where
  -- The loop over the requested filters.
  unfoldable pub filters_ok : List TopicSubscription → Error
  filters_ok [] = ok
  filters_ok (s ∷ subs) =
      let rest = filters_ok subs in
      if not (is_valid_filter s.filter)
      then invalid_argument
      else if ltb u.cfg.max_topic_len (length s.filter)
      then topic_too_long
      else rest

  -- The entries that the table does not hold yet.
  unfoldable pub new_entries : List Subscription → List TopicSubscription → ℕ
  new_entries table [] = 0
  new_entries table (s ∷ subs) =
      (if is_some (find_subscription table s.filter) then 0 else 1) + new_entries table subs

  -- One filter is entered, or its entry renewed; the result is its sub_id.
  unfoldable pub enter : Option ℕ → TopicSubscription → Client → ℕ × Client
  enter handler s c = elim (find_subscription c.subscriptions s.filter) [
    | some existing ↦ (
      existing.sub_id,
      record c {
        subscriptions =
            update_by_filter s.filter
              (λ e. record e { requested_qos = s.qos; handler = handler; needs_resub = false })
              c.subscriptions;
      },
    )
    | none ↦
        let r = alloc_sub_id c in
        let entry : Subscription = record {
          filter = s.filter;
          handler = handler;
          sub_id = r.0;
          requested_qos = s.qos;
          granted_qos = 0;
          needs_resub = false;
        } in
        (r.0, record r.1 { subscriptions = r.1.subscriptions ++ (entry ∷ []) })
  ]

  unfoldable pub enter_all : Option ℕ → List TopicSubscription → Client → List ℕ × Client
  enter_all handler [] c = ([], c)
  enter_all handler (s ∷ subs) c =
      let r = enter handler s c in let t = enter_all handler subs r.1 in (r.0 ∷ t.0, t.1)

  abbrev pub ack_entry : ℕ → PacketType → ℕ → List ℕ → PendingAck
  ack_entry id expected now subs = record {
    subs = subs;
    sent_ms = now;
    packet_id = id;
    expected = expected;
  }

  abbrev pub push_ack : PendingAck → Client → Client
  push_ack a c = record c { pending_acks = c.pending_acks ++ (a ∷ []) }

  unfoldable pub finish_subscribe : ℕ → Option ℕ → List TopicSubscription → Error → M u Error
  finish_subscribe id handler subs e s =
      let (now, s') = clock_now u s in
      let r = enter_all handler subs s'.client in
      if not (is_ok e)
      then (e, s)
      else (ok, record s' { client = push_ack (ack_entry id suback now r.0) r.1 })

  unfoldable pub send_subscribe : ℕ → ℕ → List TopicSubscription → Client → Error × Client
  send_subscribe rl id subs c =
      enqueue_sized u.cfg (packet_size rl) (λ size. encode_subscribe u.streams size id subs) c

  -- The guards of subscribe().
  unfoldable pub subscribe_size : List TopicSubscription → Client → Result ℕ
  subscribe_size subs c =
      if not (is_connected c.state)
      then error not_connected
      else if is_empty subs || ltb u.cfg.max_topics_per_request (length subs)
      then error invalid_argument
      else if not (is_ok (filters_ok subs))
      then error (filters_ok subs)
      else if ack_table_full u.cfg c
      then error no_pending_ack_slot
      else if ltb u.cfg.max_subscriptions
          (length c.subscriptions + new_entries c.subscriptions subs)
      then error no_subscription_slot
      else subscribe_remaining_length subs

  unfoldable pub subscribe : List TopicSubscription → Option ℕ → M u Error
  unfolding filters_ok new_entries enter enter_all finish_subscribe send_subscribe subscribe_size
  subscribe subs handler s = elim (subscribe_size subs s.client) [
    | error e ↦ (e, s)
    | value rl ↦
        (do
          id ← lift (alloc_packet_id u.cfg)
          (if id == 0
              then pure no_pending_ack_slot
              else (do e ← lift (send_subscribe rl id subs); finish_subscribe id handler subs e)))
          s
  ]

  -- The ids of the subscriptions that an UNSUBSCRIBE names.
  unfoldable pub named : List Subscription → List (List ℕ) → List ℕ
  named table [] = []
  named table (f ∷ filters) = elim (find_subscription table f) [
    | some s ↦ s.sub_id ∷ named table filters
    | none ↦ named table filters
  ]

  unfoldable pub finish_unsubscribe : ℕ → List (List ℕ) → Error → M u Error
  finish_unsubscribe id filters e s =
      let (now, s') = clock_now u s in
      let c = s'.client in
      if not (is_ok e) then (e, s) else (
        ok,
        record s' {
          client = push_ack (ack_entry id unsuback now (named c.subscriptions filters)) c;
        },
      )

  unfoldable pub send_unsubscribe : ℕ → ℕ → List (List ℕ) → Client → Error × Client
  send_unsubscribe rl id filters c =
      enqueue_sized u.cfg (packet_size rl) (λ size. encode_unsubscribe u.streams size id filters) c

  unfoldable pub unsubscribe_size : List (List ℕ) → Client → Result ℕ
  unsubscribe_size filters c =
      if not (is_connected c.state)
      then error not_connected
      else if is_empty filters || ltb u.cfg.max_topics_per_request (length filters)
      then error invalid_argument
      else if ack_table_full u.cfg c
      then error no_pending_ack_slot
      else unsubscribe_remaining_length filters

  unfoldable pub unsubscribe : List (List ℕ) → M u Error
  unfolding named finish_unsubscribe send_unsubscribe unsubscribe_size
  unsubscribe filters s = elim (unsubscribe_size filters s.client) [
    | error e ↦ (e, s)
    | value rl ↦
        (do
          id ← lift (alloc_packet_id u.cfg)
          (if id == 0
              then pure no_pending_ack_slot
              else (do e ← lift (send_unsubscribe rl id filters); finish_unsubscribe id filters e)))
          s
  ]
