-- ===== src/Client/View/Fits.antt =====
-- The limits of single tables, under the ways they change.
use paho_cpp_static.Packet.{PacketType}
use paho_cpp_static.Client.Tables.{
  update_slot, to_pubrel, erase_subscription, release_slot, remove_pending,
}
use paho_cpp_static.Client.Transmit.{put_bytes}
use paho_cpp_static.TxQueue.{reserve, clear, consume, TxQueue, compact, write, room, commit}
use paho_cpp_static.Config.{Config}
use paho_cpp_static.Client.View.Limits.{take_shorter}
use paho_cpp_static.Prelude.{
  ◌≡◌, length-append, [], true, List, arith, ℕ, length, All, ◌≤◌, ◌<◌, ◌∷◌, ◌++◌, ◌%◌, map,
  length-map,
}
use paho_cpp_static.Client.View.Limits.{
  All-append, All-map, length-update_slot, All-update_slot, length-SameSlots, packets-SameSlots,
  filters-SameSubs, erase_subscription_shrinks, All-erase_subscription, remove_pending_shrinks,
  All-remove_pending,
}
use paho_cpp_static.Client.View.Entries.{length-SameSubs}
use paho_cpp_static.TxQueue.Inv.{
  IsValid, reserve-IsValid, write-IsValid, commit-IsValid, consume-IsValid, clear-IsValid,
}
use paho_cpp_static.Client.View.{
  SameSlots, SameSubs, Config, TxQueue, ℕ, reserve, length, List, clear, consume, put_bytes,
  to_pubrel, update_slot, PacketType, map,
}
use paho_cpp_static.Client.State.{OutboundSlot, Subscription, PendingAck, at_least_one}

-- The transmit queue is in order and as large as configured.
pub record QueueFits (cfg : Config) (q : TxQueue) : Type 0 where
  pub valid : IsValid q
  pub sized : q.capacity ≡ cfg.tx_buffer_size

-- Every slot is there, and holds a packet that its buffer holds.
pub record SlotsFit (cfg : Config) (slots : List OutboundSlot) : Type 0 where
  pub count : length slots ≡ at_least_one cfg.max_inflight_out
  pub packets :
      All (λ (s : OutboundSlot). length s.packet ≤ at_least_one cfg.max_persisted_msg_size) slots

pub record SubsFit (cfg : Config) (table : List Subscription) : Type 0 where
  pub count : length table ≤ cfg.max_subscriptions
  pub filters : All (λ (e : Subscription). length e.filter ≤ cfg.max_topic_len) table

pub record AcksFit (cfg : Config) (acks : List PendingAck) : Type 0 where
  pub count : length acks ≤ cfg.max_pending_acks
  pub batches : All (λ (a : PendingAck). length a.subs ≤ cfg.max_topics_per_request) acks

module _ (cfg : Config) where
  pub reserve-QueueFits : (n : ℕ) (q : TxQueue) → QueueFits cfg q → QueueFits cfg (reserve n q).1
  unfolding reserve compact
  reserve-QueueFits n q h = record { valid = reserve-IsValid n q h.valid; sized = ground arith }

  -- What has been reserved fits behind the tail.
  reserved_room :
      (bytes : List ℕ) (n : ℕ) (q : TxQueue)
      → length bytes ≤ n
      → (reserve n q).0 ≡ true
      → length bytes ≤ room (reserve n q).1
  unfolding reserve room
  reserved_room bytes n q short e = ground arith

  pub queue-QueueFits :
      (bytes : List ℕ) (n : ℕ) (q : TxQueue)
      → length bytes ≤ n
      → (reserve n q).0 ≡ true
      → QueueFits cfg q
      → QueueFits cfg (put_bytes bytes (reserve n q).1)
  unfolding put_bytes write commit
  queue-QueueFits bytes n q short e h =
      let reserved = reserve-QueueFits n q h in
      record {
        valid =
            commit-IsValid (length bytes) (write bytes (reserve n q).1) (
              write-IsValid bytes (reserve n q).1 (reserved_room bytes n q short e) reserved.valid);
        sized = reserved.sized;
      }

  pub consume-QueueFits : (n : ℕ) (q : TxQueue) → QueueFits cfg q → QueueFits cfg (consume n q)
  unfolding consume
  consume-QueueFits n q h = record { valid = consume-IsValid n q h.valid; sized = ground arith }

  pub clear-QueueFits : (q : TxQueue) → QueueFits cfg q → QueueFits cfg (clear q)
  unfolding clear
  clear-QueueFits q h = record { valid = clear-IsValid q h.valid; sized = h.sized }

  pub fill-SlotsFit :
      (i : ℕ) (f : OutboundSlot → OutboundSlot) (slots : List OutboundSlot)
      → ((s : OutboundSlot) → length (f s).packet ≤ at_least_one cfg.max_persisted_msg_size)
      → SlotsFit cfg slots
      → SlotsFit cfg (update_slot i f slots)
  fill-SlotsFit i f slots short h = record {
    count = omega (arith, h.count, length-update_slot i f slots);
    packets = All-update_slot _ i f slots (λ s g. short s) h.packets;
  }

  pub release-SlotsFit :
      (i : ℕ) (slots : List OutboundSlot)
      → SlotsFit cfg slots
      → SlotsFit cfg (update_slot i release_slot slots)
  unfolding release_slot
  release-SlotsFit i slots h = fill-SlotsFit i release_slot slots (λ s. omega arith) h

  pub release_all-SlotsFit :
      (slots : List OutboundSlot) → SlotsFit cfg slots → SlotsFit cfg (map release_slot slots)
  unfolding release_slot
  release_all-SlotsFit slots h = record {
    count = omega (arith, h.count, length-map release_slot slots);
    packets = All-map _ release_slot slots (λ s g. omega arith) h.packets;
  }

  pub pubrel-SlotsFit :
      (i : ℕ) (bytes : List ℕ) (slots : List OutboundSlot)
      → length bytes ≤ at_least_one cfg.max_persisted_msg_size
      → SlotsFit cfg slots
      → SlotsFit cfg (update_slot i (to_pubrel bytes) slots)
  unfolding to_pubrel
  pubrel-SlotsFit i bytes slots short h =
      fill-SlotsFit i (to_pubrel bytes) slots
        (λ s. omega (arith, short, take_shorter (length bytes % 65536) bytes)) h

  pub touch-SlotsFit :
      (slots other : List OutboundSlot)
      → SameSlots slots other
      → SlotsFit cfg slots
      → SlotsFit cfg other
  touch-SlotsFit slots other same h = record {
    count = omega (arith, h.count, length-SameSlots slots other same);
    packets = packets-SameSlots _ slots other same h.packets;
  }

  pub same-SubsFit :
      (table other : List Subscription)
      → SameSubs table other
      → SubsFit cfg table
      → SubsFit cfg other
  same-SubsFit table other same h = record {
    count = omega (arith, h.count, length-SameSubs table other same);
    filters = filters-SameSubs (λ f. length f ≤ cfg.max_topic_len) table other same h.filters;
  }

  pub enter-SubsFit :
      (e : Subscription) (table : List Subscription)
      → length e.filter ≤ cfg.max_topic_len
      → length table < cfg.max_subscriptions
      → SubsFit cfg table
      → SubsFit cfg (table ++ (e ∷ []))
  enter-SubsFit e table short room h = record {
    count = omega (arith, room, length-append table (e ∷ []));
    filters = All-append _ table (e ∷ []) h.filters (short, tt);
  }

  pub erase-SubsFit :
      (sid : ℕ) (table : List Subscription)
      → SubsFit cfg table
      → SubsFit cfg (erase_subscription sid table)
  erase-SubsFit sid table h = record {
    count = omega (arith, h.count, erase_subscription_shrinks sid table);
    filters = All-erase_subscription _ sid table h.filters;
  }

  pub add-AcksFit :
      (a : PendingAck) (acks : List PendingAck)
      → length acks < cfg.max_pending_acks
      → length a.subs ≤ cfg.max_topics_per_request
      → AcksFit cfg acks
      → AcksFit cfg (acks ++ (a ∷ []))
  add-AcksFit a acks room few h = record {
    count = omega (arith, room, length-append acks (a ∷ []));
    batches = All-append _ acks (a ∷ []) h.batches (few, tt);
  }

  pub remove-AcksFit :
      (acks : List PendingAck) (id : ℕ) (expected : PacketType)
      → AcksFit cfg acks
      → AcksFit cfg (remove_pending acks id expected)
  remove-AcksFit acks id expected h = record {
    count = omega (arith, h.count, remove_pending_shrinks acks id expected);
    batches = All-remove_pending _ acks id expected h.batches;
  }

  pub none-AcksFit : AcksFit cfg []
  none-AcksFit = record { count = omega arith; batches = tt }
