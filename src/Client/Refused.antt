-- ===== src/Client/Refused.antt =====
-- publish(), subscribe() and unsubscribe() that fail.
use paho_cpp_static.Client.Atomic.{Untouched, IsAtomic, enqueue-IsAtomic, enqueue_sized-IsAtomic}
use paho_cpp_static.Client.Tables.{alloc_packet_id, free_outbound_slot}
use paho_cpp_static.Codec.Encode.{encode_publish}
use paho_cpp_static.Codec.Sizes.{publish_remaining_length}
use paho_cpp_static.Client.Requests.{
  subscribe, unsubscribe, subscribe_size, unsubscribe_size, send_subscribe, send_unsubscribe,
  finish_subscribe, finish_unsubscribe,
}
use paho_cpp_static.Packet.{QoS, at_most_once, TopicSubscription}
use paho_cpp_static.Error.{Error, is_ok, Result-cases, no_inflight_slot, no_pending_ack_slot}
use paho_cpp_static.Prelude.{
  Bool-cases, ◌≡◌, inr, inl, false, ℕ, List, Bool, length, arith, refl, ap, Option, Option-cases,
  ◌==◌,
}
use paho_cpp_static.TxQueue.Inv.{IsValid}
use paho_cpp_static.Client.Transmit.{enqueue, packet_size}
use paho_cpp_static.Client.Publish.{publish_once, publish_in_slot, occupy, publish, publish_tracked}
use paho_cpp_static.Client.State.{Setup, Sys, Client, at_least_one}

module _ (u : Setup) where
  abbrev W : Type 0
  W = Sys u.env.World

  abbrev outcome : Error × W → Error × Client
  outcome r = (r.0, r.1.client)

  publish_once-IsAtomic :
      (topic payload : List ℕ) (retain : Bool) (c : Client)
      → IsValid c.tx
      → IsAtomic c (publish_once u topic payload retain c)
  unfolding publish_once
  publish_once-IsAtomic topic payload retain c v =
      elim (Result-cases (publish_remaining_length topic (length payload) at_most_once)) [
        | inl (rl, q) ↦ rw (q, publish_once) (enqueue_sized-IsAtomic u.cfg (packet_size rl) _ c v)
        | inr (e, q) ↦ rw (q, publish_once) (record { refused = λ h. (refl, refl) })
      ]

  occupy-IsAtomic :
      (i : ℕ) (bytes : List ℕ) (id : ℕ) (qos : QoS) (e : Error) (c : Client) (s : W)
      → IsAtomic c (e, s.client)
      → IsAtomic c (outcome (occupy u i bytes id qos e s))
  unfolding occupy
  occupy-IsAtomic i bytes id qos e c s a = record {
    refused = λ h. elim (Bool-cases (is_ok e)) [
      | inl q ↦ absurd (ground (arith, h, q))
      | inr q ↦ rw q (a.refused q)
    ];
  }

  publish_in_slot-IsAtomic :
      (i id : ℕ) (topic payload : List ℕ) (qos : QoS) (retain : Bool) (s : W)
      → IsValid s.client.tx
      → IsAtomic s.client (outcome (publish_in_slot u i id topic payload qos retain s))
  unfolding publish_in_slot
  publish_in_slot-IsAtomic i id topic payload qos retain s v =
      elim (Result-cases (
        encode_publish u.streams (at_least_one u.cfg.max_persisted_msg_size) topic payload qos
          retain false id)) [
            | inl (bytes, q) ↦
                let r : Error × Client = enqueue bytes s.client in
                rw (q, publish_in_slot)
                  (occupy-IsAtomic i bytes id qos r.0 s.client (record s { client = r.1 })
                    (enqueue-IsAtomic bytes s.client v))
            | inr (e, q) ↦ rw (q, publish_in_slot) (record { refused = λ h. (refl, refl) })
          ]

  -- The counter may have gone on before.
  counted :
      (n : ℕ) (c : Client) (r : Error × Client)
      → IsAtomic (record c { next_packet_id = n }) r
      → IsAtomic c r
  counted n c r a = record {
    refused = λ h.
        let (waiting, rest) = a.refused h in
        (waiting, ap (λ (x : Client). record x { next_packet_id = c.next_packet_id }) rest);
  }

  -- A request that failed before it reached the queue.
  early : (e : Error) (c : Client) → IsAtomic c (e, c)
  early e c = record { refused = λ h. (refl, refl) }

  publish_tracked-IsAtomic :
      (topic payload : List ℕ) (qos : QoS) (retain : Bool) (s : W)
      → IsValid s.client.tx
      → IsAtomic s.client (outcome (publish_tracked u topic payload qos retain s))
  unfolding publish_tracked alloc_packet_id
  publish_tracked-IsAtomic topic payload qos retain s v =
      let id = (alloc_packet_id u.cfg s.client).0 in
      let c1 : Client = (alloc_packet_id u.cfg s.client).1 in
      let n : ℕ = c1.next_packet_id in
      elim (Option-cases (free_outbound_slot u.cfg s.client)) [
        | inl q ↦ rw (q, publish_tracked) (early no_inflight_slot s.client)
        | inr (i, q) ↦ elim (Bool-cases (id == 0)) [
          | inl z ↦ rw (q, publish_tracked, z) (counted n s.client _ (early no_inflight_slot c1))
          | inr z ↦
              rw (q, publish_tracked, z)
                (counted n s.client _ (
                  publish_in_slot-IsAtomic i id topic payload qos retain (record s { client = c1 })
                    v))
        ]
      ]

  finish_subscribe-IsAtomic :
      (id : ℕ) (handler : Option ℕ) (subs : List TopicSubscription) (e : Error) (c : Client) (s : W)
      → IsAtomic c (e, s.client)
      → IsAtomic c (outcome (finish_subscribe u id handler subs e s))
  unfolding finish_subscribe
  finish_subscribe-IsAtomic id handler subs e c s a = record {
    refused = λ h. elim (Bool-cases (is_ok e)) [
      | inl q ↦ absurd (ground (arith, h, q))
      | inr q ↦ rw q (a.refused q)
    ];
  }

  finish_unsubscribe-IsAtomic :
      (id : ℕ) (filters : List (List ℕ)) (e : Error) (c : Client) (s : W)
      → IsAtomic c (e, s.client)
      → IsAtomic c (outcome (finish_unsubscribe u id filters e s))
  unfolding finish_unsubscribe
  finish_unsubscribe-IsAtomic id filters e c s a = record {
    refused = λ h. elim (Bool-cases (is_ok e)) [
      | inl q ↦ absurd (ground (arith, h, q))
      | inr q ↦ rw q (a.refused q)
    ];
  }

  subscribe-IsAtomic :
      (subs : List TopicSubscription) (handler : Option ℕ) (s : W)
      → IsValid s.client.tx
      → IsAtomic s.client (outcome (subscribe u subs handler s))
  unfolding subscribe send_subscribe alloc_packet_id
  subscribe-IsAtomic subs handler s v =
      let id = (alloc_packet_id u.cfg s.client).0 in
      let c1 : Client = (alloc_packet_id u.cfg s.client).1 in
      let n : ℕ = c1.next_packet_id in
      elim (Result-cases (subscribe_size u subs s.client)) [
        | inr (e, q) ↦ rw (q, subscribe) (early e s.client)
        | inl (rl, q) ↦ elim (Bool-cases (id == 0)) [
          | inl z ↦ rw (q, subscribe, z) (counted n s.client _ (early no_pending_ack_slot c1))
          | inr z ↦
              let r : Error × Client = send_subscribe u rl id subs c1 in
              rw (q, subscribe, z)
                (counted n s.client _ (
                  finish_subscribe-IsAtomic id handler subs r.0 c1 (record s { client = r.1 })
                    (enqueue_sized-IsAtomic u.cfg (packet_size rl) _ c1 v)))
        ]
      ]

  unsubscribe-IsAtomic :
      (filters : List (List ℕ)) (s : W)
      → IsValid s.client.tx
      → IsAtomic s.client (outcome (unsubscribe u filters s))
  unfolding unsubscribe send_unsubscribe alloc_packet_id
  unsubscribe-IsAtomic filters s v =
      let id = (alloc_packet_id u.cfg s.client).0 in
      let c1 : Client = (alloc_packet_id u.cfg s.client).1 in
      let n : ℕ = c1.next_packet_id in
      elim (Result-cases (unsubscribe_size u filters s.client)) [
        | inr (e, q) ↦ rw (q, unsubscribe) (early e s.client)
        | inl (rl, q) ↦ elim (Bool-cases (id == 0)) [
          | inl z ↦ rw (q, unsubscribe, z) (counted n s.client _ (early no_pending_ack_slot c1))
          | inr z ↦
              let r : Error × Client = send_unsubscribe u rl id filters c1 in
              rw (q, unsubscribe, z)
                (counted n s.client _ (
                  finish_unsubscribe-IsAtomic id filters r.0 c1 (record s { client = r.1 })
                    (enqueue_sized-IsAtomic u.cfg (packet_size rl) _ c1 v)))
        ]
      ]

  -- A `publish` that fails, at whichever test or for want of room, sends nothing and stores nothing:
  -- the bytes that wait stay the same, and so does all of the client but their place in the buffer
  -- and the counter of the packet ids.
  pub publish_refused :
      (topic payload : List ℕ) (qos : QoS) (retain : Bool) (s : W)
      → IsValid s.client.tx
      → is_ok (publish u topic payload qos retain s).0 ≡ false
      → Untouched s.client (publish u topic payload qos retain s).1.client
  unfolding publish
  publish_refused topic payload qos retain s v h = ground (
    arith,
    h,
    (publish_once-IsAtomic topic payload retain s.client v).refused,
    (publish_tracked-IsAtomic topic payload qos retain s v).refused,
  )

  -- A `subscribe` that fails, at whichever test or for want of room, sends nothing and enters no
  -- filter: the bytes that wait stay the same, and so does all of the client but their place in the
  -- buffer and the counter of the packet ids.
  pub subscribe_refused :
      (subs : List TopicSubscription) (handler : Option ℕ) (s : W)
      → IsValid s.client.tx
      → is_ok (subscribe u subs handler s).0 ≡ false
      → Untouched s.client (subscribe u subs handler s).1.client
  subscribe_refused subs handler s v h = (subscribe-IsAtomic subs handler s v).refused h

  -- An `unsubscribe` that fails sends nothing and awaits no answer: the bytes that wait stay the same,
  -- and so does all of the client but their place in the buffer and the counter of the packet ids.
  pub unsubscribe_refused :
      (filters : List (List ℕ)) (s : W)
      → IsValid s.client.tx
      → is_ok (unsubscribe u filters s).0 ≡ false
      → Untouched s.client (unsubscribe u filters s).1.client
  unsubscribe_refused filters s v h = (unsubscribe-IsAtomic filters s v).refused h
