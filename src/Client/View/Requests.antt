-- ===== src/Client/View/Requests.antt =====
-- An invariant of the view under subscribe() and unsubscribe().
use paho_cpp_static.Codec.Room.{encode_subscribe-Caps, encode_unsubscribe-Caps}
use paho_cpp_static.Client.Transmit.{packet_size}
use paho_cpp_static.Error.{Error, Result-cases, is_ok}
use paho_cpp_static.Client.View.Transmit.{Keeps, enqueue_sized_keeps}
use paho_cpp_static.Client.View.Entries.{
  Fits, length-named, subscribe_size_lem, unsubscribe_size_lem,
}
use paho_cpp_static.Client.View.Frame.{
  alloc_packet_id_counter, enqueue_sized_tx, alloc_packet_id-IsFresh, same_tables,
}
use paho_cpp_static.Packet.{TopicSubscription, suback, unsuback}
use paho_cpp_static.Client.Tables.{alloc_packet_id}
use paho_cpp_static.Client.Requests.{
  new_entries, enter_all, send_subscribe, finish_subscribe, finish_unsubscribe, subscribe,
  send_unsubscribe, subscribe_size, ack_entry, named, unsubscribe, unsubscribe_size,
}
use paho_cpp_static.Client.View.{View, Closed, List, view, ℕ, length, IsFresh}
use paho_cpp_static.Prelude.{
  inl, inr, List, ℕ, Option, ◌≡◌, length, ◌≤◌, ◌+◌, ◌<◌, arith, Bool-cases, ◌==◌,
}
use paho_cpp_static.Client.State.{Sys, Setup, Client}
use paho_cpp_static.Client.View.Enter.{enter_all_keeps, length-enter_all}

module _ (u : Setup) (P : View → Type 0) (k : Closed u.cfg P) where
  abbrev W : Type 0
  W = Sys u.env.World

  finish_subscribe_keeps :
      (id : ℕ) (handler : Option ℕ) (subs : List TopicSubscription) (e : Error) (s : W)
      → Fits u subs
      → length subs ≤ u.cfg.max_topics_per_request
      → length s.client.subscriptions + new_entries u s.client.subscriptions subs
        ≤ u.cfg.max_subscriptions
      → length s.client.pending_acks < u.cfg.max_pending_acks
      → IsFresh u.cfg (view s.client) id
      → P (view s.client)
      → P (view (finish_subscribe u id handler subs e s).1.client)
  unfolding finish_subscribe
  finish_subscribe_keeps id handler subs e s fits few space room fresh h =
      elim (Bool-cases (is_ok e)) [
        | inl q ↦
            let (keep, slots, acks) = enter_all_keeps u P k handler subs s.client fits space h in
            let ids = enter_all u handler subs s.client in
            rw q (
              k.on_ack (ack_entry u id suback (u.env.now_ms s.world).0 ids.0) (view ids.1)
                (rw acks room) (omega (arith, length-enter_all u P k handler subs s.client))
                (rw (slots, acks) fresh) keep)
        | inr q ↦ rw q h
      ]

  finish_unsubscribe_keeps :
      (id : ℕ) (filters : List (List ℕ)) (e : Error) (s : W)
      → length filters ≤ u.cfg.max_topics_per_request
      → length s.client.pending_acks < u.cfg.max_pending_acks
      → IsFresh u.cfg (view s.client) id
      → P (view s.client)
      → P (view (finish_unsubscribe u id filters e s).1.client)
  unfolding finish_unsubscribe
  finish_unsubscribe_keeps id filters e s few room fresh h = elim (Bool-cases (is_ok e)) [
    | inl q ↦ rw q (
        k.on_ack
          (ack_entry u id unsuback (u.env.now_ms s.world).0
            (named u s.client.subscriptions filters))
          (view s.client) room (omega (arith, length-named u s.client.subscriptions filters)) fresh
          h)
    | inr q ↦ rw q h
  ]

  pub alloc_keeps : (c : Client) → P (view c) → P (view (alloc_packet_id u.cfg c).1)
  unfolding alloc_packet_id
  alloc_keeps c h =
      k.on_counter _ (view c) (alloc_packet_id_counter u.cfg c (k.counters (view c) h).0) h

  send_subscribe_keeps :
      (rl id : ℕ) (subs : List TopicSubscription) (c : Client)
      → P (view c)
      → P (view (send_subscribe u rl id subs c).1)
        × (record (send_subscribe u rl id subs c).1 { tx = c.tx } ≡ c)
  unfolding send_subscribe
  send_subscribe_keeps rl id subs c h = (
    enqueue_sized_keeps u P k (packet_size rl) _ c (encode_subscribe-Caps u.streams _ id subs) h,
    enqueue_sized_tx u.cfg (packet_size rl) _ c,
  )

  send_unsubscribe_keeps :
      (rl id : ℕ) (filters : List (List ℕ)) (c : Client)
      → P (view c)
      → P (view (send_unsubscribe u rl id filters c).1)
        × (record (send_unsubscribe u rl id filters c).1 { tx = c.tx } ≡ c)
  unfolding send_unsubscribe
  send_unsubscribe_keeps rl id filters c h = (
    enqueue_sized_keeps u P k (packet_size rl) _ c (encode_unsubscribe-Caps u.streams _ id filters)
        h,
    enqueue_sized_tx u.cfg (packet_size rl) _ c,
  )

  pub subscribe-Keeps :
      (subs : List TopicSubscription) (handler : Option ℕ) → Keeps u P (subscribe u subs handler)
  unfolding subscribe alloc_packet_id
  subscribe-Keeps subs handler = record {
    at = λ s h. elim (Result-cases (subscribe_size u subs s.client)) [
      | inr (e, q) ↦ rw (q, subscribe) h
      | inl (rl, q) ↦ elim (Bool-cases ((alloc_packet_id u.cfg s.client).0 == 0)) [
        | inl z ↦ rw (q, subscribe, z) (alloc_keeps s.client h)
        | inr z ↦
            (let id = (alloc_packet_id u.cfg s.client).0 in
              let c1 = (alloc_packet_id u.cfg s.client).1 in
              let (fits, few, room, space) = subscribe_size_lem u subs s.client rl q in
              let fresh =
                alloc_packet_id-IsFresh u.cfg s.client (k.counters (view s.client) h).0 z in
              let r = send_subscribe u rl id subs c1 in
              let (kept, frame) = send_subscribe_keeps rl id subs c1 (alloc_keeps s.client h) in
              let (slots, acks, table) = same_tables c1 r.1 frame in
              rw (q, subscribe, z)
                (finish_subscribe_keeps id handler subs r.0 (record s { client = r.1 }) fits few
                  (rw table space) (rw acks room) (rw (slots, acks) fresh) kept))
      ]
    ];
  }

  pub unsubscribe-Keeps : (filters : List (List ℕ)) → Keeps u P (unsubscribe u filters)
  unfolding unsubscribe alloc_packet_id
  unsubscribe-Keeps filters = record {
    at = λ s h. elim (Result-cases (unsubscribe_size u filters s.client)) [
      | inr (e, q) ↦ rw (q, unsubscribe) h
      | inl (rl, q) ↦ elim (Bool-cases ((alloc_packet_id u.cfg s.client).0 == 0)) [
        | inl z ↦ rw (q, unsubscribe, z) (alloc_keeps s.client h)
        | inr z ↦
            (let id = (alloc_packet_id u.cfg s.client).0 in
              let c1 = (alloc_packet_id u.cfg s.client).1 in
              let (few, room) = unsubscribe_size_lem u filters s.client rl q in
              let fresh =
                alloc_packet_id-IsFresh u.cfg s.client (k.counters (view s.client) h).0 z in
              let r = send_unsubscribe u rl id filters c1 in
              let (kept, frame) =
                send_unsubscribe_keeps rl id filters c1 (alloc_keeps s.client h) in
              let (slots, acks, table) = same_tables c1 r.1 frame in
              rw (q, unsubscribe, z)
                (finish_unsubscribe_keeps id filters r.0 (record s { client = r.1 }) few
                  (rw acks room) (rw (slots, acks) fresh) kept))
      ]
    ];
  }
