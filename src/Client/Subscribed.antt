-- ===== src/Client/Subscribed.antt =====
-- subscribe() that succeeds.
use paho_cpp_static.Client.View.Frame.{enqueue_sized_tx, alloc_packet_id-IsFresh}
use paho_cpp_static.Codec.Encode.{encode_subscribe}
use paho_cpp_static.Client.Tables.{alloc_packet_id}
use paho_cpp_static.Prelude.{
  ℕ, List, Option, Bool, true, false, [], ◌∷◌, ◌++◌, ◌≡◌, arith, Bool-cases, inl, inr, ◌∙◌, ap,
  if◌then◌else◌, length, ltb, leb, ◌<◌, ◌==◌, ◌≢◌,
}
use paho_cpp_static.Error.{
  Error, Result, value, error, is_ok, invalid_argument, buffer_too_small, Result-cases,
}
use paho_cpp_static.Config.{Config}
use paho_cpp_static.Packet.{TopicSubscription, subscribe, suback}
use paho_cpp_static.TxQueue.Inv.{IsValid}
use paho_cpp_static.TxQueue.{peek, reserve}
use paho_cpp_static.Client.State.{Setup, Sys, Client}
use paho_cpp_static.Codec.Stream.{be16}
use paho_cpp_static.Codec.Wire.{packet, header, fitted}
use paho_cpp_static.Codec.Requests.{entries, subscribable, subscribe_length, encode_subscribe_exact}
use paho_cpp_static.Client.Transmit.{enqueue_sized, commit_encoded, packet_size}
use paho_cpp_static.Client.Requests
use paho_cpp_static.Client.Requests.{
  finish_subscribe, enter_all, ack_entry, send_subscribe, subscribe_size,
}
use paho_cpp_static.Client.Queued.{put_bytes_lem}
use paho_cpp_static.Client.Entered.{AllEntered, enter_all-AllEntered, enter_all_rest}
use paho_cpp_static.Client.View.{IsFresh, view}

-- A packet whose encoder has no failure but for its arguments or for want of room.
enqueue_sized_packet :
    (cfg : Config) (size : ℕ) (encode : ℕ → Result (List ℕ)) (fine : Bool) (whole : List ℕ)
    (c : Client)
    → encode size ≡ (if fine then fitted size whole else error invalid_argument)
    → IsValid c.tx
    → is_ok (enqueue_sized cfg size encode c).0 ≡ true
    → (fine ≡ true) × (peek (enqueue_sized cfg size encode c).1.tx ≡ peek c.tx ++ whole)
unfolding enqueue_sized commit_encoded
enqueue_sized_packet cfg size encode fine whole c e v h =
    elim (Bool-cases (ltb cfg.tx_buffer_size size)) [
      | inl big ↦ absurd (let bad : false ≡ true = rw (big, enqueue_sized) at h in cc)
      | inr small ↦ elim (Bool-cases (reserve size c.tx).0) [
        | inr full ↦ absurd (let bad : false ≡ true = rw (small, enqueue_sized, full) at h in cc)
        | inl room ↦ elim (Bool-cases fine) [
          | inr bad ↦ absurd (
              let given : encode size ≡ error invalid_argument = rw bad at e in
              let no_success : false ≡ true = rw (small, enqueue_sized, room, given) at h in cc)
          | inl good ↦ elim (Bool-cases (leb (length whole) size)) [
            | inr long ↦ absurd (
                let given : encode size ≡ error buffer_too_small = rw (good, long) at e in
                let no_success : false ≡ true = rw (small, enqueue_sized, room, given) at h in cc)
            | inl short ↦
                let given : encode size ≡ value whole = rw (good, short) at e in
                rw (small, enqueue_sized, room, given)
                  (good, (put_bytes_lem whole size c.tx v (ground (arith, short)) room).0)
          ]
        ]
      ]
    ]

module _ (u : Setup) (subs : List TopicSubscription) (handler : Option ℕ) where
  abbrev W : Type 0
  W = Sys u.env.World

  -- The SUBSCRIBE with the packet id.
  abbrev pub request : ℕ → List ℕ
  request id =
      packet (header subscribe false 0 false (length (be16 id ++ entries subs)))
        (be16 id ++ entries subs)

  -- What a success of subscribe() tells, with the packet id and the ids of the subscriptions.
  pub record IsSubscribed (id now : ℕ) (sids : List ℕ) (c d : Client) : Type 0 where
    pub allowed : subscribable subs ≡ true
    pub fresh : IsFresh u.cfg (view c) id
    pub queued : peek d.tx ≡ peek c.tx ++ request id
    pub entered : AllEntered handler d.subscriptions subs sids
    pub awaited :
        d.pending_acks
        ≡ c.pending_acks
          ++ (record { subs = sids; sent_ms = now; packet_id = id; expected = suback } ∷ [])

  abbrev pub Subscribed : Client → Client → Type 0
  Subscribed c d = (id : ℕ) × (now : ℕ) × (sids : List ℕ) × IsSubscribed id now sids c d

  finish_subscribe-Subscribed :
      (id : ℕ) (e : Error) (c : Client) (s : W)
      → IsFresh u.cfg (view c) id
      → subscribable subs ≡ true
      → peek s.client.tx ≡ peek c.tx ++ request id
      → s.client.pending_acks ≡ c.pending_acks
      → is_ok e ≡ true
      → Subscribed c (finish_subscribe u id handler subs e s).1.client
  unfolding finish_subscribe
  finish_subscribe-Subscribed id e c s fresh allowed queued acks h =
      let (now, w) = u.env.now_ms s.world in
      let r : List ℕ × Client = enter_all u handler subs s.client in
      let (tx, same) = enter_all_rest u handler subs s.client in
      rw h (
        id,
        now,
        r.0,
        record {
          allowed = allowed;
          fresh = fresh;
          queued = ap peek tx ∙ queued;
          entered = enter_all-AllEntered u handler subs s.client;
          awaited = ap (λ l. l ++ (ack_entry u id suback now r.0 ∷ [])) (same ∙ acks);
        },
      )

  finish_ok :
      (id : ℕ) (e : Error) (s : W)
      → is_ok (finish_subscribe u id handler subs e s).0 ≡ true
      → is_ok e ≡ true
  unfolding finish_subscribe
  finish_ok id e s h = ground (arith, h)

  size_fails : (c : Client) (e : Error) → subscribe_size u subs c ≡ error e → is_ok e ≡ false
  unfolding subscribe_size
  size_fails c e h = ground (arith, h, subscribe_length subs)

  -- A `subscribe` that succeeds, with the transmit queue in order and the counter of packet ids below
  -- 65536, has sent a SUBSCRIBE for the requested filters, which are UTF-8 strings of 1 to 65535 bytes
  -- with a QoS of at most 2, with a packet id that was not in use: the bytes of the packet stand behind those that waited. Each filter has an entry
  -- in the table, with the handler and without need of a resubscription, and one more answer is
  -- awaited, a SUBACK with this packet id for these entries in the order of the request.
  pub subscribe_accepted :
      (s : W)
      → s.client.next_packet_id < 65536
      → IsValid s.client.tx
      → is_ok (Requests.subscribe u subs handler s).0 ≡ true
      → Subscribed s.client (Requests.subscribe u subs handler s).1.client
  unfolding Requests.subscribe send_subscribe alloc_packet_id
  subscribe_accepted s counter v h =
      let id = (alloc_packet_id u.cfg s.client).0 in
      let c1 : Client = (alloc_packet_id u.cfg s.client).1 in
      elim (Result-cases (subscribe_size u subs s.client)) [
        | inr (e, q) ↦ absurd (
            let bad : is_ok e ≡ true = rw (q, Requests.subscribe) at h in
            let no_success = size_fails s.client e q in cc)
        | inl (rl, q) ↦ elim (Bool-cases (id == 0)) [
          | inl z ↦ absurd (let bad : false ≡ true = rw (q, Requests.subscribe, z) at h in cc)
          | inr z ↦
              let nonzero : id ≢ 0 = λ x. ground (arith, z, x) in
              let r : Error × Client = send_subscribe u rl id subs c1 in
              let fine =
                finish_ok id r.0 (record s { client = r.1 }) (rw (q, Requests.subscribe, z) at h) in
              let (allowed, queued) =
                enqueue_sized_packet u.cfg (packet_size rl)
                  (λ size. encode_subscribe u.streams size id subs) (subscribable subs) (request id)
                  c1 (encode_subscribe_exact u.streams (packet_size rl) id subs nonzero) v fine in
              let acks : r.1.pending_acks ≡ s.client.pending_acks =
                ap (λ (x : Client). x.pending_acks)
                  (enqueue_sized_tx u.cfg (packet_size rl)
                    (λ size. encode_subscribe u.streams size id subs) c1) in
              rw (q, Requests.subscribe, z)
                (finish_subscribe-Subscribed id r.0 s.client (record s { client = r.1 })
                  (alloc_packet_id-IsFresh u.cfg s.client counter z) allowed queued acks fine)
        ]
      ]
