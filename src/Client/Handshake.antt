-- ===== src/Client/Handshake.antt =====
-- The sender's side of a QoS 2 delivery: PUBREC, PUBREL, PUBCOMP.
use paho_cpp_static.TxQueue.Refine.{reserve_refines}
use paho_cpp_static.Client.Queued.{enqueue_lem}
use paho_cpp_static.TxQueue.{peek, reserve}
use paho_cpp_static.TxQueue.Inv.{IsValid}
use paho_cpp_static.Vbi.{encode_loop}
use paho_cpp_static.Codec.Decode.{decode_packet_id}
use paho_cpp_static.Codec.Encode.{encode_ack}
use paho_cpp_static.Codec.Wire.{packet, header, encode_ack_exact, fitted}
use paho_cpp_static.Codec.Stream.{be16}
use paho_cpp_static.Packet.{pubrel}
use paho_cpp_static.Client.Inbound.{run_all}
use paho_cpp_static.Client.Waits.{Waits, Waits-stamp, Waits-to_pubrel, slot_at-update}
use paho_cpp_static.Client.Transmit.{enqueue}
use paho_cpp_static.Error.{ok, is_ok, value}
use paho_cpp_static.Client.Receive.{
  send_pubrel, first_pubrec, handle_pubrec, handle_puback, handle_pubcomp, finish_delivery,
}
use paho_cpp_static.Prelude.{
  Bool-cases, ◌≡◌, inl, some, [], inr, ℕ, List, arith, refl, false, length, ap, ◌≢◌, ◌≤◌, ◌∙◌,
  if◌then◌else◌, leb, ◌+◌, ◌++◌,
}
use paho_cpp_static.Client.View.Frame.{enqueue_tx}
use paho_cpp_static.Client.Tables.{update_slot, to_pubrel, slot_at, find_outbound, release_slot}
use paho_cpp_static.Client.State.{Setup, Sys, Client, wait_pubrec, at_least_one, free}

module _ (u : Setup) (depth : ℕ) where
  abbrev W : Type 0
  W = Sys u.env.World

  -- The PUBREL that answers the PUBREC for `id`.
  abbrev pub pubrel_for : ℕ → List ℕ
  pubrel_for id = packet (header pubrel false 0 false 2) (be16 id)

  -- The slot `i` is the one of `id`, and waits for PUBCOMP with its PUBREL.
  abbrev pub AwaitsPubcomp : ℕ → ℕ → W → Type 0
  AwaitsPubcomp i id s = Waits u.cfg.max_inflight_out i id (pubrel_for id) s.client.outbound

  fits : (id size : ℕ) → 4 ≤ size → fitted size (pubrel_for id) ≡ value (pubrel_for id)
  unfolding encode_loop
  fits id size room = ground (arith, room)

  nonzero : (body : List ℕ) (id : ℕ) → decode_packet_id body ≡ value id → id ≢ 0
  unfolding decode_packet_id
  nonzero body id e = ground (arith, e)

  send_pubrel-Waits :
      (i id : ℕ) (s : W)
      → AwaitsPubcomp i id s
      → ((send_pubrel u depth i s).0 ≡ ok) × AwaitsPubcomp i id (send_pubrel u depth i s).1
  unfolding send_pubrel
  send_pubrel-Waits i id s w =
      let r = enqueue (slot_at i s.client).packet s.client in
      let slots : r.1.outbound ≡ s.client.outbound =
        ap (λ (x : Client). x.outbound) (enqueue_tx (slot_at i s.client).packet s.client) in
      let queued : AwaitsPubcomp i id (record s { client = r.1 }) = rw slots w in
      let stamped =
        Waits-stamp u.cfg.max_inflight_out i id (u.env.now_ms s.world).0 (pubrel_for id)
          r.1.outbound queued in
      elim (Bool-cases (is_ok r.0)) [ inl e ↦ rw e (refl, stamped) | inr e ↦ rw e (refl, queued) ]

  first_pubrec-Waits :
      (i id : ℕ) (s : W)
      → find_outbound u.cfg s.client id ≡ some i
      → id ≢ 0
      → 4 ≤ at_least_one u.cfg.max_persisted_msg_size
      → ((first_pubrec u depth i id s).0 ≡ ok) × AwaitsPubcomp i id (first_pubrec u depth i id s).1
  unfolding first_pubrec find_outbound encode_loop
  first_pubrec-Waits i id s found some_id room =
      let size : ℕ = at_least_one u.cfg.max_persisted_msg_size in
      let encoded : encode_ack u.streams size pubrel id ≡ value (pubrel_for id) =
        encode_ack_exact u.streams size id pubrel refl some_id ∙ fits id size room in
      let c : Client = record s.client {
        outbound = update_slot i (to_pubrel (pubrel_for id)) s.client.outbound;
      } in
      rw (encoded, first_pubrec)
        (send_pubrel-Waits i id (record s { client = c })
          (Waits-to_pubrel u.cfg.max_inflight_out i id (pubrel_for id) s.client.outbound found
            (omega arith)))

  -- The sender's side of a QoS 2 delivery, in a configuration whose slots hold a PUBREL. A PUBREC for
  -- a message that waits for one makes its slot hold the PUBREL and wait for PUBCOMP, whether the
  -- queue has room for the PUBREL or not.
  pub pubrec_moves :
      (body : List ℕ) (i id : ℕ) (s : W)
      → decode_packet_id body ≡ value id
      → find_outbound u.cfg s.client id ≡ some i
      → (slot_at i s.client).phase ≡ wait_pubrec
      → 4 ≤ at_least_one u.cfg.max_persisted_msg_size
      → ((handle_pubrec u depth body s).0 ≡ ok)
        × AwaitsPubcomp i id (handle_pubrec u depth body s).1
  unfolding handle_pubrec
  pubrec_moves body i id s decoded found phase room =
      rw (decoded, handle_pubrec, found, phase)
        (first_pubrec-Waits i id s found (nonzero body id decoded) room)

  send_pubrel-queues :
      (i id : ℕ) (s : W)
      → (slot_at i s.client).packet ≡ pubrel_for id
      → IsValid s.client.tx
      → peek (send_pubrel u depth i s).1.client.tx ≡ (
          if leb (length (peek s.client.tx) + 4) s.client.tx.capacity
          then peek s.client.tx ++ pubrel_for id
          else peek s.client.tx)
  unfolding send_pubrel enqueue encode_loop
  send_pubrel-queues i id s stored v =
      elim (Bool-cases (leb (length (peek s.client.tx) + 4) s.client.tx.capacity)) [
        | inl room ↦
            let (fine, queued, valid, same) =
              enqueue_lem (pubrel_for id) s.client v (ground (arith, room)) in
            rw (stored, fine, room) queued
        | inr full ↦
            let (fits, same, spanned) = reserve_refines 4 s.client.tx v in
            let refused : (reserve 4 s.client.tx).0 ≡ false = ground (arith, full, fits) in
            rw (stored, refused, full) same
      ]

  -- A slot that waits for PUBCOMP, with the transmit queue in order. A further PUBREC leaves it
  -- waiting, and where the queue has room for four bytes its PUBREL stands behind the bytes that
  -- waited; else these stay the same. A PUBACK changes nothing. A PUBCOMP ends the delivery: the
  -- handler of the delivery runs in a state in which the slot is free, without an id or a packet, and
  -- nothing else has changed.
  pub pubcomp_ends :
      (body : List ℕ) (i id : ℕ) (s : W)
      → decode_packet_id body ≡ value id
      → AwaitsPubcomp i id s
      → IsValid s.client.tx
      → ((handle_pubrec u depth body s).0 ≡ ok)
        × AwaitsPubcomp i id (handle_pubrec u depth body s).1
        × (peek (handle_pubrec u depth body s).1.client.tx ≡ (
            if leb (length (peek s.client.tx) + 4) s.client.tx.capacity
            then peek s.client.tx ++ pubrel_for id
            else peek s.client.tx))
        × (handle_puback u depth body s ≡ (ok, s))
        × (c : Client) × (slot_at i c
            ≡ record (slot_at i s.client) { phase = free; packet_id = 0; packet = [] })
        × (c ≡ record s.client {
          outbound =
              update_slot i
                (λ t. record t { phase = free; packet_id = 0; packet = [] })
                s.client.outbound;
        })
        × (handle_pubcomp u depth body s
            ≡ (ok, (run_all u depth (u.handlers.on_delivery id) (record s { client = c })).1))
  unfolding handle_pubrec handle_puback handle_pubcomp finish_delivery find_outbound release_slot
  pubcomp_ends body i id s decoded (found, phase, stored) v =
      let (fine, again) = send_pubrel-Waits i id s (found, phase, stored) in
      let queued = send_pubrel-queues i id s stored v in
      let freed = slot_at-update _ release_slot u.cfg.max_inflight_out s.client.outbound i found in
      rw (decoded, handle_pubrec, finish_delivery, found, phase)
        (
          fine,
          again,
          queued,
          refl,
          record s.client { outbound = update_slot i release_slot s.client.outbound },
          freed,
          refl,
          refl,
        )
