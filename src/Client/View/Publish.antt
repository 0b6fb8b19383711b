-- ===== src/Client/View/Publish.antt =====
-- An invariant of the view under publish().
use paho_cpp_static.Client.View.Requests.{alloc_keeps}
use paho_cpp_static.Client.View.Frame.{enqueue_tx, free_outbound_slot_lem, alloc_packet_id-IsFresh}
use paho_cpp_static.Codec.Encode.{encode_publish}
use paho_cpp_static.Codec.Room.{encode_publish-Caps}
use paho_cpp_static.Client.Transmit.{packet_size, enqueue}
use paho_cpp_static.Codec.Sizes.{publish_remaining_length}
use paho_cpp_static.Client.View.Transmit.{enqueue_sized_keeps, enqueue_keeps, Keeps}
use paho_cpp_static.Client.Publish.{
  publish_once, occupy, filled, publish_tracked, publish_in_slot, publish,
}
use paho_cpp_static.Error.{Error, Result-cases, is_ok, no_inflight_slot}
use paho_cpp_static.Packet.{QoS, at_most_once}
use paho_cpp_static.Client.Tables.{alloc_packet_id, free_outbound_slot}
use paho_cpp_static.Client.View.{View, Closed, List, view, ℕ, length, get_or, IsFresh}
use paho_cpp_static.Prelude.{
  List, arith, inr, inl, true, ℕ, Bool-cases, Bool, ◌<◌, length, get_or, ◌≡◌, ◌≤◌, false,
  length-take, ◌%◌, Option-cases, if◌then◌else◌, ◌==◌, ap,
}
use paho_cpp_static.Client.State.{Setup, Client, is_free, free_slot, at_least_one, pure, Sys}

module _ (u : Setup) (P : View → Type 0) (k : Closed u.cfg P) where
  abbrev W : Type 0
  W = Sys u.env.World

  publish_once_keeps :
      (topic payload : List ℕ) (retain : Bool) (c : Client)
      → P (view c)
      → P (view (publish_once u topic payload retain c).1)
  unfolding publish_once
  publish_once_keeps topic payload retain c h =
      elim (Result-cases (publish_remaining_length topic (length payload) at_most_once)) [
        | inl (rl, q) ↦
            rw (q, publish_once)
              (enqueue_sized_keeps u P k (packet_size rl) _ c
                (encode_publish-Caps u.streams _ topic payload _ retain _ _) h)
        | inr (e, q) ↦ rw (q, publish_once) h
      ]

  occupy_keeps :
      (i : ℕ) (bytes : List ℕ) (id : ℕ) (qos : QoS) (e : Error) (s : W)
      → i < u.cfg.max_inflight_out
      → is_free (get_or s.client.outbound i free_slot).phase ≡ true
      → length bytes ≤ at_least_one u.cfg.max_persisted_msg_size
      → IsFresh u.cfg (view s.client) id
      → P (view s.client)
      → P (view (occupy u i bytes id qos e s).1.client)
  unfolding occupy
  occupy_keeps i bytes id qos e s lt free short fresh h = elim (Bool-cases (is_ok e)) [
    | inl q ↦ rw q (
        k.on_fill i (filled u bytes id qos (u.env.now_ms s.world).0 free_slot) (view s.client) lt
          free (ground arith) (omega (arith, length-take (length bytes % 65536) bytes)) fresh h)
    | inr q ↦ rw q h
  ]

  publish_in_slot_keeps :
      (i id : ℕ) (topic payload : List ℕ) (qos : QoS) (retain : Bool) (s : W)
      → i < u.cfg.max_inflight_out
      → is_free (get_or s.client.outbound i free_slot).phase ≡ true
      → IsFresh u.cfg (view s.client) id
      → P (view s.client)
      → P (view (publish_in_slot u i id topic payload qos retain s).1.client)
  unfolding publish_in_slot
  publish_in_slot_keeps i id topic payload qos retain s lt free fresh h =
      elim (Result-cases (
        encode_publish u.streams (at_least_one u.cfg.max_persisted_msg_size) topic payload qos
          retain false id)) [
            | inl (bytes, q) ↦
                let s1 : W = record s { client = (enqueue bytes s.client).1 } in
                let slots : s1.client.outbound ≡ s.client.outbound =
                  ap (λ (c : Client). c.outbound) (enqueue_tx bytes s.client) in
                let acks : s1.client.pending_acks ≡ s.client.pending_acks =
                  ap (λ (c : Client). c.pending_acks) (enqueue_tx bytes s.client) in
                rw (q, publish_in_slot)
                  (occupy_keeps i bytes id qos (enqueue bytes s.client).0 s1 lt (rw slots free)
                    ((encode_publish-Caps u.streams _ topic payload qos retain false id).at bytes q)
                    (rw (slots, acks) fresh) (enqueue_keeps u P k bytes s.client h))
            | inr (e, q) ↦ rw (q, publish_in_slot) h
          ]

  allocated :
      (i : ℕ) (topic payload : List ℕ) (qos : QoS) (retain : Bool) (s : W)
      → i < u.cfg.max_inflight_out
      → is_free (get_or s.client.outbound i free_slot).phase ≡ true
      → P (view s.client)
      → P (
          view
            ((if (alloc_packet_id u.cfg s.client).0 == 0
                then pure no_inflight_slot
                else publish_in_slot u i
                    (alloc_packet_id u.cfg s.client).0
                    topic
                    payload
                    qos
                    retain)
              (record s { client = (alloc_packet_id u.cfg s.client).1 })).1.client)
  unfolding alloc_packet_id
  allocated i topic payload qos retain s lt free h =
      elim (Bool-cases ((alloc_packet_id u.cfg s.client).0 == 0)) [
        | inl q ↦ rw q (alloc_keeps u P k s.client h)
        | inr q ↦
            let fresh : IsFresh u.cfg (view s.client) (alloc_packet_id u.cfg s.client).0 =
              alloc_packet_id-IsFresh u.cfg s.client (k.counters (view s.client) h).0 q in
            rw q (
              publish_in_slot_keeps i (alloc_packet_id u.cfg s.client).0 topic payload qos retain
                (record s { client = (alloc_packet_id u.cfg s.client).1 }) lt free fresh
                (alloc_keeps u P k s.client h))
      ]

  publish_tracked-Keeps :
      (topic payload : List ℕ) (qos : QoS) (retain : Bool)
      → Keeps u P (publish_tracked u topic payload qos retain)
  unfolding publish_tracked
  publish_tracked-Keeps topic payload qos retain = record {
    at = λ s h. elim (Option-cases (free_outbound_slot u.cfg s.client)) [
      | inl q ↦ rw (q, publish_tracked) h
      | inr (i, q) ↦
          let (lt, free) = free_outbound_slot_lem u.cfg s.client i q in
          rw (q, publish_tracked) (allocated i topic payload qos retain s lt free h)
    ];
  }

  pub publish-Keeps :
      (topic payload : List ℕ) (qos : QoS) (retain : Bool)
      → Keeps u P (publish u topic payload qos retain)
  unfolding publish
  publish-Keeps topic payload qos retain = record {
    at = λ s h. ground (
      arith,
      h,
      publish_once_keeps topic payload retain s.client h,
      (publish_tracked-Keeps topic payload qos retain).at s h,
    );
  }
