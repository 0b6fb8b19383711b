-- ===== src/Client/Accepted.antt =====
-- publish() above QoS 0 that succeeds.
use paho_cpp_static.Codec.Encode.{encode_publish}
use paho_cpp_static.Client.Tables.{update_slot, slot_at, alloc_packet_id, free_outbound_slot}
use paho_cpp_static.Packet.{QoS, at_most_once}
use paho_cpp_static.Error.{value, is_ok, Error, Result-cases}
use paho_cpp_static.Codec.Fails.{encode_publish-Fails}
use paho_cpp_static.Prelude.{
  Bool-cases, Option-cases, ◌≡◌, ◌++◌, true, inr, false, inl, List, ℕ, Bool, length, ◌<◌, arith,
  ◌≢◌, refl, ap, ◌∙◌, ◌==◌, take, ◌%◌, if◌then◌else◌,
}
use paho_cpp_static.TxQueue.Inv.{IsValid}
use paho_cpp_static.TxQueue.{peek, reserve}
use paho_cpp_static.Client.Queued.{put_bytes_lem}
use paho_cpp_static.Client.View.Frame.{free_outbound_slot_lem, alloc_packet_id-IsFresh, enqueue_tx}
use paho_cpp_static.Client.View.{IsFresh, view}
use paho_cpp_static.Client.Transmit.{enqueue}
use paho_cpp_static.Client.Publish.{
  publish, publish_tracked, publish_in_slot, occupy, filled, slot_error,
}
use paho_cpp_static.Client.State.{
  Setup, Sys, Client, is_free, at_least_one, wait_puback, wait_pubrec,
}

queued_lem :
    (bytes : List ℕ) (c : Client)
    → IsValid c.tx
    → is_ok (enqueue bytes c).0 ≡ true
    → peek (enqueue bytes c).1.tx ≡ peek c.tx ++ bytes
unfolding enqueue
queued_lem bytes c v h = elim (Bool-cases (reserve (length bytes) c.tx).0) [
  | inl e ↦ rw e (put_bytes_lem bytes (length bytes) c.tx v (omega arith) e).0
  | inr e ↦ absurd (ground (arith, h, e))
]

module _ (u : Setup) (topic payload : List ℕ) (qos : QoS) (retain : Bool) where
  abbrev W : Type 0
  W = Sys u.env.World

  -- The message went, under the id `id`, as `bytes`, behind what waited, and stays in the slot `i`,
  -- which was free, until it is acknowledged.
  pub record IsTracked (i id : ℕ) (bytes : List ℕ) (c d : Client) : Type 0 where
    pub in_range : i < u.cfg.max_inflight_out
    pub was_free : is_free (slot_at i c).phase ≡ true
    pub fresh : IsFresh u.cfg (view c) id
    pub encoded :
        encode_publish u.streams
          (at_least_one u.cfg.max_persisted_msg_size)
          topic
          payload
          qos
          retain
          false
          id
        ≡ value bytes
    pub queued : peek d.tx ≡ peek c.tx ++ bytes
    pub stored :
        (now : ℕ) × (d.outbound
          ≡ update_slot i
              (λ old. record {
                packet = take (length bytes % 65536) bytes;
                packet_id = id;
                last_sent_ms = now;
                qos = qos;
                phase = if qos == 1 then wait_puback else wait_pubrec;
              })
              c.outbound)

  occupy-stored :
      (i : ℕ) (bytes : List ℕ) (id : ℕ) (e : Error) (s : W)
      → is_ok (occupy u i bytes id qos e s).0 ≡ true
      → (is_ok e ≡ true)
        × ((occupy u i bytes id qos e s).1.client.tx ≡ s.client.tx)
        × ((occupy u i bytes id qos e s).1.client.outbound
            ≡ update_slot i
                (λ old. filled u bytes id qos (u.env.now_ms s.world).0 old)
                s.client.outbound)
  unfolding occupy
  occupy-stored i bytes id e s h = elim (Bool-cases (is_ok e)) [
    | inl q ↦ rw q (refl, refl, refl)
    | inr q ↦ absurd (ground (arith, h, q))
  ]

  -- What a success of publish() tells.
  abbrev pub Tracked : Client → Client → Type 0
  Tracked c d = (i : ℕ) × (id : ℕ) × (bytes : List ℕ) × IsTracked i id bytes c d

  fails_still : (e : Error) → is_ok e ≡ false → is_ok (slot_error e) ≡ true → ⊥
  fails_still e h t = ground (arith, h, t)

  publish_in_slot-Tracked :
      (i id : ℕ) (c : Client) (s : W)
      → i < u.cfg.max_inflight_out
      → is_free (slot_at i c).phase ≡ true
      → IsFresh u.cfg (view c) id
      → s.client.tx ≡ c.tx
      → s.client.outbound ≡ c.outbound
      → IsValid c.tx
      → is_ok (publish_in_slot u i id topic payload qos retain s).0 ≡ true
      → Tracked c (publish_in_slot u i id topic payload qos retain s).1.client
  unfolding publish_in_slot
  publish_in_slot-Tracked i id c s lt free fresh tx slots v h =
      elim (Result-cases (
        encode_publish u.streams (at_least_one u.cfg.max_persisted_msg_size) topic payload qos
          retain false id)) [
            | inl (bytes, q) ↦
                let r : Error × Client = enqueue bytes s.client in
                let (fine, sent, stored) =
                  occupy-stored i bytes id r.0 (record s { client = r.1 })
                    (rw (q, publish_in_slot) at h) in
                let frame : r.1.outbound ≡ s.client.outbound =
                  ap (λ (x : Client). x.outbound) (enqueue_tx bytes s.client) in
                rw (q, publish_in_slot)
                  (
                    i,
                    id,
                    bytes,
                    record {
                      in_range = lt;
                      was_free = free;
                      fresh = fresh;
                      encoded = q;
                      queued = ap peek sent ∙ queued_lem bytes s.client (rw tx v) fine ∙ rw tx refl;
                      stored = ((u.env.now_ms s.world).0, stored ∙ rw (frame, slots) refl);
                    },
                  )
            | inr (e, q) ↦ absurd (
                fails_still e
                  ((encode_publish-Fails u.streams _ topic payload qos retain false id).at e q)
                  (rw (q, publish_in_slot) at h))
          ]

  publish_tracked-Tracked :
      (s : W)
      → s.client.next_packet_id < 65536
      → IsValid s.client.tx
      → is_ok (publish_tracked u topic payload qos retain s).0 ≡ true
      → Tracked s.client (publish_tracked u topic payload qos retain s).1.client
  unfolding publish_tracked alloc_packet_id
  publish_tracked-Tracked s counter v h =
      let id = (alloc_packet_id u.cfg s.client).0 in
      let c1 : Client = (alloc_packet_id u.cfg s.client).1 in
      elim (Option-cases (free_outbound_slot u.cfg s.client)) [
        | inl q ↦ absurd (let bad : false ≡ true = rw (q, publish_tracked) at h in cc)
        | inr (i, q) ↦ elim (Bool-cases (id == 0)) [
          | inl z ↦ absurd (let bad : false ≡ true = rw (q, publish_tracked, z) at h in cc)
          | inr z ↦
              let (lt, free) = free_outbound_slot_lem u.cfg s.client i q in
              rw (q, publish_tracked, z)
                (publish_in_slot-Tracked i id s.client (record s { client = c1 }) lt free
                  (alloc_packet_id-IsFresh u.cfg s.client counter z) refl refl v
                  (rw (q, publish_tracked, z) at h))
        ]
      ]

  -- A `publish` above QoS 0 that succeeds, with the transmit queue in order and the counter of packet
  -- ids below 65536, has taken a free slot and a packet id that was not in use. The PUBLISH under this
  -- id stands behind the bytes that waited, and its bytes, their number modulo 65536, are what the
  -- slot holds, with the packet id and the QoS. The slot waits for a PUBACK at QoS 1 and else for a
  -- PUBREC; no other slot has changed.
  pub publish_accepted :
      (s : W)
      → qos ≢ at_most_once
      → s.client.next_packet_id < 65536
      → IsValid s.client.tx
      → is_ok (publish u topic payload qos retain s).0 ≡ true
      → Tracked s.client (publish u topic payload qos retain s).1.client
  unfolding publish
  publish_accepted s above counter v h =
      let same : publish u topic payload qos retain s
          ≡ publish_tracked u topic payload qos retain s =
        ground (arith, h, above) in
      rw same (publish_tracked-Tracked s counter v (rw same at h))
