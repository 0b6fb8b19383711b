-- ===== src/Client/Pump.antt =====
-- The timers: pump_keep_alive, pump_retransmit, pump_resubscribe.
use paho_cpp_static.Codec.Sizes.{subscribe_remaining_length}
use paho_cpp_static.Codec.Encode.{encode_empty, encode_subscribe}
use paho_cpp_static.Packet.{TopicSubscription, suback, PacketType}
use paho_cpp_static.Client.Transmit.{enqueue, enqueue_sized, packet_size}
use paho_cpp_static.Client.Tables.{mark_dup, update_by_sub_id, ack_table_full, alloc_packet_id}
use paho_cpp_static.Prelude.{
  zero, [], false, true, suc, List, Bool, ℕ, ◌∷◌, if◌then◌else◌, ◌==◌, ltb, map, not, ◌&&◌, ◌||◌,
  ◌-◌, is_empty, leb, ◌/◌, ◌++◌,
}
use paho_cpp_static.Error.{error, value, Error, ok, is_ok, keep_alive_timeout}
use paho_cpp_static.Client.State.{
  ◌>>=◌, Setup, Subscription, elapsed_ms, M, OutboundSlot, Client, clock_now, PendingAck, pure,
  is_free, lift,
}

module _ (u : Setup) where
  abbrev pub set_ping : ℕ → Error × Client → Error × Client
  set_ping now r =
      if not (is_ok r.0)
      then (ok, r.1)
      else (ok, record r.1 { ping_outstanding = true; ping_sent_ms = now })

  abbrev pub send_ping : ℕ → Client → Error × Client
  send_ping now c = set_ping now (
      enqueue_sized u.cfg (packet_size 0) (λ size. encode_empty u.streams size PacketType.pingreq)
        c)

  -- pump_keep_alive() at the time `now`, with the keep-alive enabled.
  unfoldable pub keep_alive_at : ℕ → Client → Error × Client
  unfolding elapsed_ms
  keep_alive_at now c =
      let pinged = send_ping now c in
      if c.ping_outstanding
      then (
        (if ltb c.keep_alive_ms (elapsed_ms now c.ping_sent_ms) then keep_alive_timeout else ok),
        c,
      )
      else if ltb (elapsed_ms now c.last_sent_ms) (c.keep_alive_ms - c.keep_alive_ms / 4)
      then (ok, c)
      else pinged

  unfoldable pub pump_keep_alive : M u Error
  unfolding keep_alive_at
  pump_keep_alive s =
      if s.client.keep_alive_ms == 0
      then (ok, s)
      else (do now ← clock_now u; lift (keep_alive_at now)) s

  -- Is the slot due at the time `now`?
  unfoldable pub is_due : Bool → ℕ → OutboundSlot → Bool
  unfolding elapsed_ms
  is_due forced now slot =
      not (is_free slot.phase)
      && (forced
          || (not (u.cfg.retry_interval_ms == 0)
              && leb u.cfg.retry_interval_ms (elapsed_ms now slot.last_sent_ms)))

  abbrev pub stamp : Error → ℕ → OutboundSlot → OutboundSlot
  stamp e now slot = if is_ok e then record slot { last_sent_ms = now } else slot

  -- One slot's retransmission: the packet, with DUP, is queued; the clock is stamped on success.
  unfoldable pub retransmit_slot : Bool → ℕ → OutboundSlot → Client → OutboundSlot × Client
  unfolding is_due mark_dup enqueue
  retransmit_slot forced now slot c =
      let marked = mark_dup slot in
      let r = enqueue marked.packet c in
      if is_due forced now slot then (stamp r.0 now marked, r.1) else (slot, c)

  -- The loop over the first `n` slots; it returns the slots as it leaves them.
  unfoldable pub retransmit_loop :
      Bool → ℕ → ℕ → List OutboundSlot → Client → List OutboundSlot × Client
  unfolding retransmit_slot
  retransmit_loop forced now zero slots c = (slots, c)
  retransmit_loop forced now (suc n) [] c = ([], c)
  retransmit_loop forced now (suc n) (slot ∷ slots) c =
      let r = retransmit_slot forced now slot c in
      let t = retransmit_loop forced now n slots r.1 in (r.0 ∷ t.0, t.1)

  abbrev pub retransmit_all : Bool → ℕ → Client → Client
  retransmit_all forced now c =
      let r = retransmit_loop forced now u.cfg.max_inflight_out c.outbound c in
      record r.1 { outbound = r.0 }

  unfoldable pub pump_retransmit : M u (Unit {0})
  unfolding retransmit_loop
  pump_retransmit s =
      let forced = s.client.retransmit_now in
      let c : Client = record s.client { retransmit_now = false } in
      let (now, s') = clock_now u (record s { client = c }) in
      if u.cfg.retry_interval_ms == 0 && not forced
      then (tt, record s { client = c })
      else (tt, record s' { client = retransmit_all forced now s'.client })

  -- The subscriptions to send again, `room` at most.
  unfoldable pub batch : ℕ → List Subscription → List Subscription
  batch zero table = []
  batch (suc room) [] = []
  batch (suc room) (e ∷ table) =
      if e.needs_resub then e ∷ batch room table else batch (suc room) table

  abbrev pub as_request : Subscription → TopicSubscription
  as_request e = record { filter = e.filter; qos = e.requested_qos }

  -- The flags of the subscriptions with these ids are cleared.
  unfoldable pub clear_resub : List ℕ → List Subscription → List Subscription
  unfolding update_by_sub_id
  clear_resub [] table = table
  clear_resub (sid ∷ sids) table =
      clear_resub sids (update_by_sub_id sid (λ t. record t { needs_resub = false }) table)

  unfoldable pub resubscribed : ℕ → List Subscription → Error → M u (Unit {0})
  resubscribed id entries e s =
      let (now, s') = clock_now u s in
      let c = s'.client in
      let ids = map (λ (t : Subscription). t.sub_id) entries in
      let ack : PendingAck = record {
        subs = ids;
        sent_ms = now;
        packet_id = id;
        expected = suback;
      } in
      if not (is_ok e) then (tt, s) else (
        tt,
        record s' {
          client = record c {
            subscriptions = clear_resub ids c.subscriptions;
            pending_acks = c.pending_acks ++ (ack ∷ []);
          };
        },
      )

  unfoldable pub resubscribe : List Subscription → ℕ → M u (Unit {0})
  resubscribe entries rl = do
    id ← lift (alloc_packet_id u.cfg)
    (if id == 0 then pure tt else (do
      e ← lift (
          enqueue_sized u.cfg (packet_size rl)
            (λ size. encode_subscribe u.streams size id (map as_request entries)))
      resubscribed id entries e))

  unfoldable pub pump_resubscribe : M u (Unit {0})
  unfolding batch resubscribe resubscribed clear_resub
  pump_resubscribe s =
      let entries = batch u.cfg.max_topics_per_request s.client.subscriptions in
      if ack_table_full u.cfg s.client || is_empty entries
      then (tt, s)
      else (elim (subscribe_remaining_length (map as_request entries)) [
        | error e ↦ (tt, s)
        | value rl ↦ resubscribe entries rl s
      ])

  unfoldable pub ms_since_last_receive : M u ℕ
  unfolding elapsed_ms
  ms_since_last_receive s =
      let (now, s') = clock_now u s in (elapsed_ms now s'.client.last_received_ms, s')
