-- ===== src/Client/Delivery.antt =====
-- What the receive path promises: duplicates of QoS 2 messages, acknowledgements before handlers.
use paho_cpp_static.Client.View.Frame.{enqueue_sized_tx}
use paho_cpp_static.Client.Acks.{ack_bytes, has_room, send_ack_goes, send_ack_waits}
use paho_cpp_static.Client.Inbound.{deliver, dispatch}
use paho_cpp_static.Error.{ok}
use paho_cpp_static.TxQueue.Inv.{IsValid}
use paho_cpp_static.TxQueue.{peek}
use paho_cpp_static.Client.Transmit.{send_ack}
use paho_cpp_static.Client.Tables.{inbound_contains, inbound_table_full, contains}
use paho_cpp_static.Packet.{Message, exactly_once, pubrec, PacketType}
use paho_cpp_static.Client.State.{Setup, Sys, Client}
use paho_cpp_static.Prelude.{
  true, ℕ, ◌≡◌, arith, false, [], inl, inr, ◌++◌, List, ◌⊎◌, ◌∷◌, Bool-cases, refl, ap, ◌≢◌,
}

module _ (u : Setup) (depth : ℕ) where
  abbrev W : Type 0
  W = Sys u.env.World

  -- Everything of a state but the transmit queue and the two counters.
  abbrev pub apart_from_tx : W → W → W
  apart_from_tx s t = record t {
    client = record t.client {
      tx = s.client.tx;
      inbound_overflow_count = s.client.inbound_overflow_count;
      tx_backpressure_count = s.client.tx_backpressure_count;
    };
  }

  send_ack_tx :
      (t : PacketType) (id : ℕ) (c : Client) → record (send_ack u t id c).1 { tx = c.tx } ≡ c
  unfolding send_ack
  send_ack_tx t id c = enqueue_sized_tx u.cfg _ _ c

  abbrev restored : W → Client → W
  restored s c = record s {
    client = record c {
      inbound_overflow_count = s.client.inbound_overflow_count;
      tx_backpressure_count = s.client.tx_backpressure_count;
    };
  }

  contains-append_one : (ids : List ℕ) (id : ℕ) → contains (ids ++ (id ∷ [])) id ≡ true
  unfolding contains
  contains-append_one [] id = ground arith
  contains-append_one (v ∷ ids) id = ground (arith, contains-append_one ids id)

  -- What the handlers of a message find: its PUBREC queued and its id recorded, and nothing else
  -- changed.
  pub record Noted (id : ℕ) (s t : W) : Type 0 where
    pub acknowledged : peek t.client.tx ≡ peek s.client.tx ++ ack_bytes pubrec id
    pub recorded : t.client.inbound_ids ≡ s.client.inbound_ids ++ (id ∷ [])
    pub found : inbound_contains t.client id ≡ true
    pub rest :
        record t {
          client = record t.client { tx = s.client.tx; inbound_ids = s.client.inbound_ids };
        }
        ≡ s

  -- A QoS 2 message that is new, when the table has room for its id and the queue, which is in order,
  -- for four bytes: its handlers run in a state in which its PUBREC stands behind the bytes that
  -- waited and its id is in the table, so that a duplicate that arrives from then on is taken for one.
  -- Nothing else has changed before they run, and nothing is done behind them.
  pub first_is_recorded :
      (m : Message) (s : W)
      → m.qos ≡ exactly_once
      → m.packet_id ≢ 0
      → IsValid s.client.tx
      → inbound_contains s.client m.packet_id ≡ false
      → inbound_table_full u.cfg s.client ≡ false
      → has_room u s.client ≡ true
      → (t : W) × Noted m.packet_id s t × (deliver u depth m s ≡ (ok, (dispatch u depth m t).1))
  unfolding deliver inbound_contains
  first_is_recorded m s q id v new space room =
      let (fine, queued) = send_ack_goes u pubrec m.packet_id s.client v refl id room in
      let c : Client = (send_ack u pubrec m.packet_id s.client).1 in
      let frame = send_ack_tx pubrec m.packet_id s.client in
      let ids : c.inbound_ids ≡ s.client.inbound_ids = ap (λ (x : Client). x.inbound_ids) frame in
      (
        record s { client = record c { inbound_ids = c.inbound_ids ++ (m.packet_id ∷ []) } },
        record {
          acknowledged = queued;
          recorded = ap (λ l. l ++ (m.packet_id ∷ [])) ids;
          found = contains-append_one c.inbound_ids m.packet_id;
          rest =
              ap
                (λ (x : Client). record s {
                  client = record x { inbound_ids = s.client.inbound_ids };
                })
                frame;
        },
        rw (q, new, space, fine) refl,
      )

  -- A QoS 2 message that is new, when the table has no room for its id or the queue, which is in
  -- order, has none for four bytes: no handler runs, the id is not recorded, and the bytes that wait
  -- stay the same, so that no PUBREC goes out. Nothing changes but the place of these bytes in the
  -- queue's buffer and the counters.
  pub refused_is_not_recorded :
      (m : Message) (s : W)
      → m.qos ≡ exactly_once
      → IsValid s.client.tx
      → inbound_contains s.client m.packet_id ≡ false
      → (inbound_table_full u.cfg s.client ≡ true) ⊎ (has_room u s.client ≡ false)
      → ((deliver u depth m s).0 ≡ ok)
        × (apart_from_tx s (deliver u depth m s).1 ≡ s)
        × (peek (deliver u depth m s).1.client.tx ≡ peek s.client.tx)
  unfolding deliver
  refused_is_not_recorded m s q v new (inl full) = rw (q, new, full) (refl, refl, refl)
  refused_is_not_recorded m s q v new (inr none_left) =
      let (late, kept) = send_ack_waits u pubrec m.packet_id s.client v none_left in
      elim (Bool-cases (inbound_table_full u.cfg s.client)) [
        | inl full ↦ rw (q, new, full) (refl, refl, refl)
        | inr space ↦
            rw (q, new, space, late)
              (refl, ap (restored s) (send_ack_tx pubrec m.packet_id s.client), kept)
      ]
