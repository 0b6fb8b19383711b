-- ===== src/Client/View/Pump.antt =====
-- An invariant of the view under the timers.
use paho_cpp_static.Codec.Encode.{encode_empty, encode_subscribe}
use paho_cpp_static.Codec.Sizes.{subscribe_remaining_length}
use paho_cpp_static.Packet.{PacketType, suback}
use paho_cpp_static.Codec.Room.{encode_empty-Caps, encode_subscribe-Caps}
use paho_cpp_static.Client.View.Entries.{SameSubs-update_id}
use paho_cpp_static.Error.{Error, Result-cases, is_ok}
use paho_cpp_static.Client.Transmit.{packet_size, enqueue, enqueue_sized}
use paho_cpp_static.Client.View.Frame.{SameSlots-refl}
use paho_cpp_static.Client.Tables.{mark_dup, ack_table_full, alloc_packet_id}
use paho_cpp_static.Client.Pump.{
  retransmit_slot, pump_retransmit, pump_keep_alive, keep_alive_at, retransmit_loop, clear_resub,
  resubscribed, batch, pump_resubscribe, resubscribe, retransmit_all, as_request,
}
use paho_cpp_static.Client.View.Requests.{alloc_keeps}
use paho_cpp_static.Client.View.Entries.{SameSubs-update_id}
use paho_cpp_static.Client.View.Frame.{
  enqueue_sized_tx, enqueue_tx, alloc_packet_id-IsFresh, same_tables,
}
use paho_cpp_static.Prelude.{
  Bool-cases, ◌≡◌, inr, inl, [], suc, false, zero, Bool, arith, List, ℕ, length, ◌||◌, ◌≤◌, ◌∙◌,
  is_empty, refl, ◌<◌, map, ap, ◌==◌, length-map,
}
use paho_cpp_static.Client.View.Transmit.{Keeps, enqueue_keeps, enqueue_sized_keeps}
use paho_cpp_static.Client.View.{
  View, Closed, view, ℕ, List, length, SameSlots, ◌∷◌, PacketType, IsFresh, map,
}
use paho_cpp_static.Client.State.{Setup, Client, Sys, OutboundSlot, Subscription, PendingAck}

-- mark_dup() changes a byte of the packet at most.
mark_dup_lem :
    (s : OutboundSlot)
    → ((mark_dup s).phase ≡ s.phase)
      × ((mark_dup s).packet_id ≡ s.packet_id)
      × (length (mark_dup s).packet ≡ length s.packet)
unfolding mark_dup
mark_dup_lem s = ground arith

module _ (u : Setup) (P : View → Type 0) (k : Closed u.cfg P) where
  abbrev W : Type 0
  W = Sys u.env.World

  keep_alive_keeps : (now : ℕ) (c : Client) → P (view c) → P (view (keep_alive_at u now c).1)
  unfolding keep_alive_at
  keep_alive_keeps now c h =
      let pinged : P (
          view
            (enqueue_sized u.cfg (packet_size 0)
              (λ size. encode_empty u.streams size PacketType.pingreq) c).1) =
        enqueue_sized_keeps u P k (packet_size 0) _ c
          (encode_empty-Caps u.streams (packet_size 0) PacketType.pingreq) h in
      ground (arith, h, pinged)

  pub pump_keep_alive-Keeps : Keeps u P (pump_keep_alive u)
  unfolding pump_keep_alive
  pump_keep_alive-Keeps = record {
    at = λ s h. ground (arith, h, keep_alive_keeps (u.env.now_ms s.world).0 s.client h);
  }

  -- The loop changes the slots it walks and the transmit queue.
  abbrev Looped : Client → List OutboundSlot → List OutboundSlot × Client → Type 0
  Looped c slots r = P (view r.1) × SameSlots slots r.0 × (r.1.outbound ≡ c.outbound)

  retransmit_slot_keeps :
      (forced : Bool) (now : ℕ) (slot : OutboundSlot) (c : Client)
      → P (view c)
      → P (view (retransmit_slot u forced now slot c).1)
        × SameSlots (slot ∷ []) ((retransmit_slot u forced now slot c).0 ∷ [])
        × ((retransmit_slot u forced now slot c).1.outbound ≡ c.outbound)
  unfolding retransmit_slot
  retransmit_slot_keeps forced now slot c h =
      let queued = enqueue_keeps u P k (mark_dup slot).packet c h in
      let table : (enqueue (mark_dup slot).packet c).1.outbound ≡ c.outbound =
        ap (λ (x : Client). x.outbound) (enqueue_tx (mark_dup slot).packet c) in
      ground (arith, h, queued, table, mark_dup_lem slot)

  retransmit_loop_keeps :
      (forced : Bool) (now n : ℕ) (slots : List OutboundSlot) (c : Client)
      → P (view c)
      → Looped c slots (retransmit_loop u forced now n slots c)
  unfolding retransmit_loop
  retransmit_loop_keeps forced now zero slots c h = (h, SameSlots-refl slots, refl)
  retransmit_loop_keeps forced now (suc n) [] c h = (h, tt, refl)
  retransmit_loop_keeps forced now (suc n) (slot ∷ slots) c h =
      let (kept, same, table) = retransmit_slot_keeps forced now slot c h in
      let (kept', same', table') =
        retransmit_loop_keeps forced now n slots (retransmit_slot u forced now slot c).1 kept in
      (kept', (same.0, same'), table' ∙ table)

  retransmit_all_keeps :
      (forced : Bool) (now : ℕ) (c : Client) → P (view c) → P (view (retransmit_all u forced now c))
  retransmit_all_keeps forced now c h =
      let (kept, same, table) =
        retransmit_loop_keeps forced now u.cfg.max_inflight_out c.outbound c h in
      k.on_touch _ _ (rw table same) kept

  pub pump_retransmit-Keeps : Keeps u P (pump_retransmit u)
  unfolding pump_retransmit
  pump_retransmit-Keeps = record {
    at = λ s h.
        let c : Client = record s.client { retransmit_now = false } in
        ground
          (arith, h, retransmit_all_keeps s.client.retransmit_now (u.env.now_ms s.world).0 c h);
  }

  clear_resub_keeps :
      (sids : List ℕ) (v : View)
      → P v
      → P (record v { subscriptions = clear_resub u sids v.subscriptions })
  unfolding clear_resub
  clear_resub_keeps [] v h = h
  clear_resub_keeps (sid ∷ sids) v h =
      clear_resub_keeps sids _
        (k.on_same_subs _ v (SameSubs-update_id sid _ v.subscriptions (λ x. (refl, refl))) h)

  length-batch : (room : ℕ) (table : List Subscription) → length (batch u room table) ≤ room
  unfolding batch
  length-batch zero table = omega arith
  length-batch (suc room) [] = omega arith
  length-batch (suc room) (e ∷ table) = elim (Bool-cases e.needs_resub) [
    | inl q ↦ rw q (omega (arith, length-batch room table))
    | inr q ↦ rw q (length-batch (suc room) table)
  ]

  resubscribed_keeps :
      (id : ℕ) (entries : List Subscription) (e : Error) (s : W)
      → length entries ≤ u.cfg.max_topics_per_request
      → length s.client.pending_acks < u.cfg.max_pending_acks
      → IsFresh u.cfg (view s.client) id
      → P (view s.client)
      → P (view (resubscribed u id entries e s).1.client)
  unfolding resubscribed
  resubscribed_keeps id entries e s few room fresh h = elim (Bool-cases (is_ok e)) [
    | inl q ↦
        let ids = map (λ (t : Subscription). t.sub_id) entries in
        let ack : PendingAck = record {
          subs = ids;
          sent_ms = (u.env.now_ms s.world).0;
          packet_id = id;
          expected = suback;
        } in
        rw q (
          k.on_ack ack _ room (omega (arith, length-map (λ (t : Subscription). t.sub_id) entries))
            fresh (clear_resub_keeps ids (view s.client) h))
    | inr q ↦ rw q h
  ]

  resubscribe_keeps :
      (entries : List Subscription) (rl : ℕ) (s : W)
      → length entries ≤ u.cfg.max_topics_per_request
      → length s.client.pending_acks < u.cfg.max_pending_acks
      → P (view s.client)
      → P (view (resubscribe u entries rl s).1.client)
  unfolding resubscribe alloc_packet_id
  resubscribe_keeps entries rl s few room h =
      elim (Bool-cases ((alloc_packet_id u.cfg s.client).0 == 0)) [
        | inl z ↦ rw z (alloc_keeps u P k s.client h)
        | inr z ↦
            let id = (alloc_packet_id u.cfg s.client).0 in
            let c1 = (alloc_packet_id u.cfg s.client).1 in
            let fresh = alloc_packet_id-IsFresh u.cfg s.client (k.counters (view s.client) h).0 z in
            let r =
              enqueue_sized u.cfg (packet_size rl)
                (λ size. encode_subscribe u.streams size id (map (as_request u) entries)) c1 in
            let kept : P (view r.1) =
              enqueue_sized_keeps u P k (packet_size rl) _ c1
                (encode_subscribe-Caps u.streams _ id (map (as_request u) entries))
                (alloc_keeps u P k s.client h) in
            let (slots, acks, table) =
              same_tables c1 r.1 (enqueue_sized_tx u.cfg (packet_size rl) _ c1) in
            rw z (
              resubscribed_keeps id entries r.0 (record s { client = r.1 }) few (rw acks room)
                (rw (slots, acks) fresh) kept)
      ]

  pub pump_resubscribe-Keeps : Keeps u P (pump_resubscribe u)
  unfolding pump_resubscribe ack_table_full
  pump_resubscribe-Keeps = record {
    at = λ s h.
        let entries = batch u u.cfg.max_topics_per_request s.client.subscriptions in
        elim (Bool-cases (ack_table_full u.cfg s.client || is_empty entries)) [
          | inl b ↦ rw (b, pump_resubscribe) h
          | inr b ↦ elim (Result-cases (subscribe_remaining_length (map (as_request u) entries))) [
            | inr (e, q) ↦ rw (b, q, pump_resubscribe) h
            | inl (rl, q) ↦
                rw (b, q, pump_resubscribe)
                  (resubscribe_keeps entries rl s
                    (length-batch u.cfg.max_topics_per_request s.client.subscriptions)
                    (ground (arith, b)) h)
          ]
        ];
  }
