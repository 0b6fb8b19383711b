-- ===== src/Client/View/Receive.antt =====
-- An invariant of the view under the handlers of the packets but PUBLISH.
use paho_cpp_static.Codec.Room.{encode_ack-Caps}
use paho_cpp_static.Client.View.Entries.{SameSubs-update_id}
use paho_cpp_static.Codec.Encode.{encode_ack}
use paho_cpp_static.Client.View.Frame.{SameSlots-refl}
use paho_cpp_static.Codec.Decode.{decode_suback, decode_packet_id, decode_connack}
use paho_cpp_static.Error.{Result-cases}
use paho_cpp_static.Client.Transmit.{enqueue}
use paho_cpp_static.Packet.{ConnackInfo, pubcomp, suback_failure, suback, unsuback, pubrel}
use paho_cpp_static.Client.Tables.{
  update_slot, release_slot, slot_at, find_outbound, find_pending, remove_pending, to_pubrel,
  inbound_remove,
}
use paho_cpp_static.Prelude.{
  Bool-cases, Option-cases, ◌≡◌, inl, false, suc, inr, zero, [], true, ℕ, List, length, ◌==◌, refl,
  arith,
}
use paho_cpp_static.Client.View.Session.{run_all-Keeps, mark_resub_keeps}
use paho_cpp_static.Client.View.Transmit.{Keeps, send_ack_keeps, enqueue_keeps}
use paho_cpp_static.Client.Receive.{
  handle_connack, finish_delivery, send_pubrel, first_pubrec, handle_unsuback, handle_pubrec,
  handle_pubrel, apply_codes, erase_all, accept_connack, handle_suback, complete, in_phase,
}
use paho_cpp_static.Client.View.{View, Closed, view, ℕ, update_slot, List, length, ◌∷◌, SameSlots}
use paho_cpp_static.Client.State.{
  Setup, Client, OutboundSlot, Sys, Phase, is_free, phase_code, at_least_one, wait_pubrec, free,
  wait_puback,
}

-- Changes of single slots and entries that the counters and ids survive.
pub SameSlots-update :
    (f : OutboundSlot → OutboundSlot)
    → ((s : OutboundSlot)
        → ((f s).phase ≡ s.phase)
          × ((f s).packet_id ≡ s.packet_id)
          × (length (f s).packet ≡ length s.packet))
    → (i : ℕ) (slots : List OutboundSlot) → SameSlots slots (update_slot i f slots)
unfolding update_slot
SameSlots-update f same i [] = tt
SameSlots-update f same zero (s ∷ slots) = (same s, SameSlots-refl slots)
SameSlots-update f same (suc i) (s ∷ slots) = ((refl, refl, refl), SameSlots-update f same i slots)

module _ (u : Setup) (P : View → Type 0) (k : Closed u.cfg P) (depth : ℕ) where
  abbrev W : Type 0
  W = Sys u.env.World

  accept_keeps :
      (info : ConnackInfo) (c : Client) → P (view c) → P (view (accept_connack u depth info c))
  unfolding accept_connack
  accept_keeps info c h = elim (Bool-cases info.session_present) [
    | inl e ↦ rw e h
    | inr e ↦ rw e (mark_resub_keeps u P k (view c) h)
  ]

  pub handle_connack-Keeps : (body : List ℕ) → Keeps u P (handle_connack u depth body)
  unfolding handle_connack
  handle_connack-Keeps body = record {
    at = λ s h. elim (Result-cases (decode_connack body)) [
      | inr (e, q) ↦ rw (q, handle_connack) (ground (arith, h))
      | inl (info, q) ↦
          let known : Client = record s.client { connack = info } in
          let accepts : P (view (accept_connack u depth info known)) = accept_keeps info known h in
          let t : W = record s { client = accept_connack u depth info known } in
          rw (q, handle_connack)
            (ground
              (arith, h, (run_all-Keeps u P k depth (u.handlers.on_connect info)).at t accepts))
    ];
  }

  complete-Keeps : (i id : ℕ) → Keeps u P (complete u depth i id)
  complete-Keeps i id = record {
    at = λ s h.
        let c : Client = record s.client {
          outbound = update_slot i release_slot s.client.outbound;
        } in
        (run_all-Keeps u P k depth (u.handlers.on_delivery id)).at (record s { client = c })
          (k.on_release i (view s.client) h);
  }

  pub finish_delivery-Keeps :
      (p : Phase) (body : List ℕ) → Keeps u P (finish_delivery u depth p body)
  unfolding finish_delivery
  finish_delivery-Keeps p body = record {
    at = λ s h. elim (Result-cases (decode_packet_id body)) [
      | inr (e, q) ↦ rw (q, finish_delivery) h
      | inl (id, q) ↦ elim (Option-cases (find_outbound u.cfg s.client id)) [
        | inl o ↦ rw (q, finish_delivery, o) h
        | inr (i, o) ↦ rw (q, finish_delivery, o) (ground (arith, h, (complete-Keeps i id).at s h))
      ]
    ];
  }

  stamped_keeps :
      (i now : ℕ) (c : Client)
      → P (view c)
      → P (
          view (record c {
            outbound = update_slot i (λ t. record t { last_sent_ms = now }) c.outbound;
          }))
  stamped_keeps i now c h =
      k.on_touch _ (view c) (SameSlots-update _ (λ s. (refl, refl, refl)) i c.outbound) h

  send_pubrel-Keeps : (i : ℕ) → Keeps u P (send_pubrel u depth i)
  unfolding send_pubrel
  send_pubrel-Keeps i = record {
    at = λ s h.
        let r = enqueue (slot_at i s.client).packet s.client in
        let queued : P (view r.1) = enqueue_keeps u P k (slot_at i s.client).packet s.client h in
        let now : ℕ = (u.env.now_ms s.world).0 in
        ground (arith, queued, stamped_keeps i now r.1 queued);
  }

  first_pubrec_keeps :
      (i id : ℕ) (s : W)
      → is_free (slot_at i s.client).phase ≡ false
      → P (view s.client)
      → P (view (first_pubrec u depth i id s).1.client)
  unfolding first_pubrec
  first_pubrec_keeps i id s busy h =
      elim (Result-cases
        (encode_ack u.streams (at_least_one u.cfg.max_persisted_msg_size) pubrel id)) [
          | inr (e, q) ↦ rw (q, first_pubrec) h
          | inl (bytes, q) ↦
              let c : Client = record s.client {
                outbound = update_slot i (to_pubrel bytes) s.client.outbound;
              } in
              rw (q, first_pubrec)
                ((send_pubrel-Keeps i).at (record s { client = c })
                  (k.on_pubrel i bytes (view s.client) busy
                    ((encode_ack-Caps u.streams _ pubrel id).at bytes q) h))
        ]

  -- A slot that waits for PUBREC is in use.
  in_phase_busy : (p : Phase) → (phase_code p == phase_code wait_pubrec) ≡ true → is_free p ≡ false
  in_phase_busy free e = cc
  in_phase_busy wait_puback e = refl
  in_phase_busy wait_pubrec e = refl
  in_phase_busy Phase.wait_pubcomp e = refl

  pub handle_pubrec-Keeps : (body : List ℕ) → Keeps u P (handle_pubrec u depth body)
  unfolding handle_pubrec
  handle_pubrec-Keeps body = record {
    at = λ s h. elim (Result-cases (decode_packet_id body)) [
      | inr (e, q) ↦ rw (q, handle_pubrec) h
      | inl (id, q) ↦ elim (Option-cases (find_outbound u.cfg s.client id)) [
        | inl o ↦ rw (q, handle_pubrec, o) h
        | inr (i, o) ↦ elim (Bool-cases (in_phase u depth i wait_pubrec s.client)) [
          | inl w ↦
              rw (q, handle_pubrec, o, w)
                (first_pubrec_keeps i id s (in_phase_busy (slot_at i s.client).phase w) h)
          | inr w ↦ rw (q, handle_pubrec, o, w) (ground (arith, h, (send_pubrel-Keeps i).at s h))
        ]
      ]
    ];
  }

  pub handle_pubrel-Keeps : (body : List ℕ) → Keeps u P (handle_pubrel u depth body)
  unfolding handle_pubrel inbound_remove
  handle_pubrel-Keeps body = record {
    at = λ s h. elim (Result-cases (decode_packet_id body)) [
      | inr (e, q) ↦ rw (q, handle_pubrel) h
      | inl (id, q) ↦
          let acked = send_ack_keeps u P k pubcomp id s.client h in
          rw (q, handle_pubrel) (ground (arith, acked, k.on_forget id _ acked))
    ];
  }

  -- The tables of the subscriptions after an answer, entry by entry.
  apply_codes_keeps :
      (codes sids : List ℕ) (v : View)
      → P v
      → P (record v { subscriptions = apply_codes u depth codes sids v.subscriptions })
  unfolding apply_codes
  apply_codes_keeps [] sids v h = h
  apply_codes_keeps (rc ∷ codes) [] v h = h
  apply_codes_keeps (rc ∷ codes) (sid ∷ sids) v h = elim (Bool-cases (rc == suback_failure)) [
    | inl e ↦ rw e (apply_codes_keeps codes sids _ (k.on_erase sid v h))
    | inr e ↦ rw e (
        apply_codes_keeps codes sids _
          (k.on_same_subs _ v (SameSubs-update_id sid _ v.subscriptions (λ x. (refl, refl))) h))
  ]

  pub handle_suback-Keeps : (body : List ℕ) → Keeps u P (handle_suback u depth body)
  unfolding handle_suback
  handle_suback-Keeps body = record {
    at = λ s h. elim (Result-cases (decode_suback body)) [
      | inr (e, q) ↦ rw (q, handle_suback) h
      | inl (x, q) ↦ elim (Option-cases (find_pending s.client.pending_acks x.packet_id suback)) [
        | inl o ↦ rw (q, handle_suback, o) h
        | inr (ack, o) ↦
            let c : Client = record s.client {
              subscriptions = apply_codes u depth x.return_codes ack.subs s.client.subscriptions;
              pending_acks = remove_pending s.client.pending_acks x.packet_id suback;
            } in
            let applied : P (view c) =
              k.on_ack_done x.packet_id suback _
                (apply_codes_keeps x.return_codes ack.subs (view s.client) h) in
            let told =
              run_all-Keeps u P k depth (u.handlers.on_suback x.packet_id x.return_codes) in
            rw (q, handle_suback, o) (ground (arith, h, told.at (record s { client = c }) applied))
      ]
    ];
  }

  erase_all_keeps :
      (sids : List ℕ) (v : View)
      → P v
      → P (record v { subscriptions = erase_all u depth sids v.subscriptions })
  unfolding erase_all
  erase_all_keeps [] v h = h
  erase_all_keeps (sid ∷ sids) v h = erase_all_keeps sids _ (k.on_erase sid v h)

  pub handle_unsuback-Keeps : (body : List ℕ) → Keeps u P (handle_unsuback u depth body)
  unfolding handle_unsuback
  handle_unsuback-Keeps body = record {
    at = λ s h. elim (Result-cases (decode_packet_id body)) [
      | inr (e, q) ↦ rw (q, handle_unsuback) h
      | inl (id, q) ↦ elim (Option-cases (find_pending s.client.pending_acks id unsuback)) [
        | inl o ↦ rw (q, handle_unsuback, o) h
        | inr (ack, o) ↦
            rw (q, handle_unsuback, o)
              (k.on_ack_done id unsuback _ (erase_all_keeps ack.subs (view s.client) h))
      ]
    ];
  }
