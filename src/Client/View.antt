-- ===== src/Client/View.antt =====
-- The parts of a client that its calls read and write: the two buffers, the tables and the counters
-- of the allocators. An invariant of these is proved once for each way to change them (`Closed`),
-- and holds then of every call, with any transport, clock and handlers.
pub mod Frame
pub mod Transmit
pub mod Entries
pub mod Publish
pub mod Session
pub mod Enter
pub mod Requests
pub mod Inbound
pub mod Receive
pub mod Drain
pub mod Pump
pub mod Step
pub mod Reach
pub mod Limits
pub mod Fits
pub mod Bounded
pub mod Drained
pub mod Apart
pub mod Filters
pub mod BusyIds
pub mod Distinct
mod Tests
use paho_cpp_static.Packet.{PacketType}
use paho_cpp_static.Client.Transmit.{put_bytes}
use paho_cpp_static.Client.Tables.{
  slots_use, acks_use, update_slot, release_slot, contains, remove_id, find_subscription,
  erase_subscription, remove_pending, to_pubrel,
}
use paho_cpp_static.Config.{Config}
use paho_cpp_static.TxQueue.{TxQueue, reserve, consume, clear}
use paho_cpp_static.Client.State.{
  Client, Subscription, OutboundSlot, PendingAck, is_free, free_slot, at_least_one,
}
use paho_cpp_static.Prelude.{
  true, false, [], none, List, ◌<◌, ℕ, ◌∷◌, ◌≤◌, ◌≡◌, length, drop, get_or, map, ◌++◌, ◌+◌,
}

pub record View : Type 0 where
  pub tx : TxQueue
  pub rx : List ℕ
  pub outbound : List OutboundSlot
  pub inbound_ids : List ℕ
  pub subscriptions : List Subscription
  pub pending_acks : List PendingAck
  pub next_packet_id : ℕ
  pub next_sub_id : ℕ

abbrev pub view : Client → View
view c = record {
  tx = c.tx;
  rx = c.rx;
  outbound = c.outbound;
  inbound_ids = c.inbound_ids;
  subscriptions = c.subscriptions;
  pending_acks = c.pending_acks;
  next_packet_id = c.next_packet_id;
  next_sub_id = c.next_sub_id;
}

-- Two tables of slots that differ in time stamps and the bytes of the packets only.
abbrev pub SameSlots : List OutboundSlot → List OutboundSlot → Type 0
SameSlots [] [] = Unit {0}
SameSlots [] (t ∷ ts) = ⊥
SameSlots (s ∷ ss) [] = ⊥
SameSlots (s ∷ ss) (t ∷ ts) =
    ((t.phase ≡ s.phase) × (t.packet_id ≡ s.packet_id) × (length t.packet ≡ length s.packet))
    × SameSlots ss ts

-- Two tables of subscriptions with the same filters and ids.
abbrev pub SameSubs : List Subscription → List Subscription → Type 0
SameSubs [] [] = Unit {0}
SameSubs [] (t ∷ ts) = ⊥
SameSubs (s ∷ ss) [] = ⊥
SameSubs (s ∷ ss) (t ∷ ts) = ((t.filter ≡ s.filter) × (t.sub_id ≡ s.sub_id)) × SameSubs ss ts

-- A packet id that may be given out.
abbrev pub IsFresh : Config → View → ℕ → Type 0
IsFresh cfg v id =
    (1 ≤ id)
    × (id ≤ 65535)
    × (slots_use id cfg.max_inflight_out v.outbound ≡ false)
    × (acks_use id v.pending_acks ≡ false)

-- What an invariant has to withstand: each way in which a call changes the view, with what the call
-- has tested by then.
pub record Closed (cfg : Config) (P : View → Type 0) : Type 0 where
  pub counters : (v : View) → P v → (v.next_packet_id < 65536) × (v.next_sub_id < 65536)
  pub on_reserve : (n : ℕ) (v : View) → P v → P (record v { tx = (reserve n v.tx).1 })
  pub on_queue :
      (bytes : List ℕ) (n : ℕ) (v : View)
      → length bytes ≤ n
      → (reserve n v.tx).0 ≡ true
      → P v
      → P (record v { tx = put_bytes bytes (reserve n v.tx).1 })
  pub on_consume : (n : ℕ) (v : View) → P v → P (record v { tx = consume n v.tx })
  pub on_clear : (v : View) → P v → P (record v { tx = clear v.tx })
  pub on_drop : (n : ℕ) (v : View) → P v → P (record v { rx = drop n v.rx })
  pub on_empty : (v : View) → P v → P (record v { rx = [] })
  pub on_fill :
      (i : ℕ) (slot : OutboundSlot) (v : View)
      → i < cfg.max_inflight_out
      → is_free (get_or v.outbound i free_slot).phase ≡ true
      → is_free slot.phase ≡ false
      → length slot.packet ≤ at_least_one cfg.max_persisted_msg_size
      → IsFresh cfg v slot.packet_id
      → P v
      → P (record v { outbound = update_slot i (λ old. slot) v.outbound })
  pub on_release :
      (i : ℕ) (v : View) → P v → P (record v { outbound = update_slot i release_slot v.outbound })
  pub on_release_all : (v : View) → P v → P (record v { outbound = map release_slot v.outbound })
  pub on_pubrel :
      (i : ℕ) (bytes : List ℕ) (v : View)
      → is_free (get_or v.outbound i free_slot).phase ≡ false
      → length bytes ≤ at_least_one cfg.max_persisted_msg_size
      → P v
      → P (record v { outbound = update_slot i (to_pubrel bytes) v.outbound })
  pub on_touch :
      (slots : List OutboundSlot) (v : View)
      → SameSlots v.outbound slots
      → P v
      → P (record v { outbound = slots })
  pub on_record :
      (id : ℕ) (v : View)
      → contains v.inbound_ids id ≡ false
      → length v.inbound_ids < cfg.max_inflight_in
      → P v
      → P (record v { inbound_ids = v.inbound_ids ++ (id ∷ []) })
  pub on_forget :
      (id : ℕ) (v : View) → P v → P (record v { inbound_ids = remove_id v.inbound_ids id })
  pub on_forget_all : (v : View) → P v → P (record v { inbound_ids = [] })
  pub on_same_subs :
      (table : List Subscription) (v : View)
      → SameSubs v.subscriptions table
      → P v
      → P (record v { subscriptions = table })
  pub on_enter :
      (e : Subscription) (v : View)
      → find_subscription v.subscriptions e.filter ≡ none
      → length e.filter ≤ cfg.max_topic_len
      → length v.subscriptions < cfg.max_subscriptions
      → P v
      → P (record v { subscriptions = v.subscriptions ++ (e ∷ []) })
  pub on_erase :
      (sid : ℕ) (v : View)
      → P v
      → P (record v { subscriptions = erase_subscription sid v.subscriptions })
  pub on_ack :
      (a : PendingAck) (v : View)
      → length v.pending_acks < cfg.max_pending_acks
      → length a.subs ≤ cfg.max_topics_per_request
      → IsFresh cfg v a.packet_id
      → P v
      → P (record v { pending_acks = v.pending_acks ++ (a ∷ []) })
  pub on_ack_done :
      (id : ℕ) (expected : PacketType) (v : View)
      → P v
      → P (record v { pending_acks = remove_pending v.pending_acks id expected })
  pub on_acks_cleared : (v : View) → P v → P (record v { pending_acks = [] })
  pub on_counter : (n : ℕ) (v : View) → n < 65536 → P v → P (record v { next_packet_id = n })
  pub on_sub_counter : (n : ℕ) (v : View) → n < 65536 → P v → P (record v { next_sub_id = n })

-- What an invariant has to withstand besides, where the transport's bytes come in.
pub record Receives (cfg : Config) (P : View → Type 0) : Type 0 where
  pub on_received :
      (bytes : List ℕ) (v : View)
      → length v.rx + length bytes ≤ cfg.rx_buffer_size
      → P v
      → P (record v { rx = v.rx ++ bytes })
