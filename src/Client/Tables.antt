-- ===== src/Client/Tables.antt =====
-- The client's tables: outbound slots, inbound ids, subscriptions and pending acknowledgements. A
-- pointer to an entry is its index.
use paho_cpp_static.Config.{Config}
use mathlib.Core.Option
use paho_cpp_static.Client.State.{
  OutboundSlot, Client, is_free, PendingAck, free, Subscription, free_slot, wait_pubcomp,
}
use paho_cpp_static.Packet.{type_code, PacketType, publish}
use paho_cpp_static.Topic.{eq_bytes}
use paho_cpp_static.Prelude.{
  true, suc, some, zero, none, [], false, List, Option, ℕ, ◌∷◌, Bool, get_or, if◌then◌else◌, not,
  map, bit_and, leb, ◌&&◌, ◌+◌, ◌==◌, length, ◌%◌, ◌/◌, bit_or, take, ◌^◌,
}

-- `ack_table_full` and `inbound_table_full` compare with the configured limits, not with the storage.
unfoldable pub ack_table_full : Config → Client → Bool
ack_table_full cfg c = leb cfg.max_pending_acks (length c.pending_acks)

unfoldable pub inbound_table_full : Config → Client → Bool
inbound_table_full cfg c = leb cfg.max_inflight_in (length c.inbound_ids)

-- The first of the first `n` slots that passes a test.
unfoldable pub find_slot : (OutboundSlot → Bool) → ℕ → List OutboundSlot → Option ℕ
find_slot test zero slots = none
find_slot test (suc n) [] = none
find_slot test (suc n) (s ∷ slots) =
    if test s then some 0 else Option.map suc (find_slot test n slots)

unfoldable pub free_outbound_slot : Config → Client → Option ℕ
unfolding find_slot
free_outbound_slot cfg c = find_slot (λ s. is_free s.phase) cfg.max_inflight_out c.outbound

unfoldable pub find_outbound : Config → Client → ℕ → Option ℕ
unfolding find_slot
find_outbound cfg c id =
    find_slot (λ s. not (is_free s.phase) && s.packet_id == id) cfg.max_inflight_out c.outbound

-- `outbound_[i]` at an index that is in range, and a write to it.
abbrev pub slot_at : ℕ → Client → OutboundSlot
slot_at i c = get_or c.outbound i free_slot

unfoldable pub update_slot :
    ℕ → (OutboundSlot → OutboundSlot) → List OutboundSlot → List OutboundSlot
update_slot i f [] = []
update_slot zero f (s ∷ slots) = f s ∷ slots
update_slot (suc i) f (s ∷ slots) = s ∷ update_slot i f slots

unfoldable pub release_slot : OutboundSlot → OutboundSlot
release_slot s = record s { phase = free; packet_id = 0; packet = [] }

-- The slot of a message whose PUBREC has come: PUBREL is what it repeats from then on.
unfoldable pub to_pubrel : List ℕ → OutboundSlot → OutboundSlot
to_pubrel bytes t = record t { packet = take (length bytes % 65536) bytes; phase = wait_pubcomp }

-- The number of slots in use among the first `n`.
unfoldable pub count_slots : ℕ → List OutboundSlot → ℕ
count_slots zero slots = 0
count_slots (suc n) [] = 0
count_slots (suc n) (s ∷ slots) = (if not (is_free s.phase) then 1 else 0) + count_slots n slots

unfoldable pub inflight_count : Config → Client → ℕ
unfolding count_slots
inflight_count cfg c = count_slots cfg.max_inflight_out c.outbound

-- Sets DUP on a stored PUBLISH, and leaves any other packet as it is.
unfoldable pub mark_dup : OutboundSlot → OutboundSlot
unfolding type_code
mark_dup s = elim s.packet [
  | [] ↦ s
  | first ∷ rest ↦
      if bit_and (first / 16) 0x0F == type_code publish
      then record s { packet = bit_or first 0x08 ∷ rest }
      else s
]

unfoldable pub contains : List ℕ → ℕ → Bool
contains [] id = false
contains (v ∷ ids) id = if v == id then true else contains ids id

unfoldable pub inbound_contains : Client → ℕ → Bool
unfolding contains
inbound_contains c id = contains c.inbound_ids id

-- Erases the first entry with this id.
unfoldable pub remove_id : List ℕ → ℕ → List ℕ
remove_id [] id = []
remove_id (v ∷ ids) id = if v == id then ids else v ∷ remove_id ids id

unfoldable pub inbound_remove : ℕ → Client → Client
unfolding remove_id
inbound_remove id c = record c { inbound_ids = remove_id c.inbound_ids id }

unfoldable pub find_subscription : List Subscription → List ℕ → Option Subscription
unfolding eq_bytes
find_subscription [] filter = none
find_subscription (s ∷ subs) filter =
    if eq_bytes s.filter filter then some s else find_subscription subs filter

unfoldable pub find_by_sub_id : List Subscription → ℕ → Option Subscription
find_by_sub_id [] sid = none
find_by_sub_id (s ∷ subs) sid = if s.sub_id == sid then some s else find_by_sub_id subs sid

-- A write through the pointer that find_subscription or find_by_sub_id returns.
unfoldable pub update_by_filter :
    List ℕ → (Subscription → Subscription) → List Subscription → List Subscription
unfolding eq_bytes
update_by_filter filter f [] = []
update_by_filter filter f (s ∷ subs) =
    if eq_bytes s.filter filter then f s ∷ subs else s ∷ update_by_filter filter f subs

unfoldable pub update_by_sub_id :
    ℕ → (Subscription → Subscription) → List Subscription → List Subscription
update_by_sub_id sid f [] = []
update_by_sub_id sid f (s ∷ subs) =
    if s.sub_id == sid then f s ∷ subs else s ∷ update_by_sub_id sid f subs

unfoldable pub erase_subscription : ℕ → List Subscription → List Subscription
erase_subscription sid [] = []
erase_subscription sid (s ∷ subs) =
    if s.sub_id == sid then subs else s ∷ erase_subscription sid subs

-- `a.expected == expected`.
abbrev pub same_type : PacketType → PacketType → Bool
same_type a b = type_code a == type_code b

unfoldable pub find_pending : List PendingAck → ℕ → PacketType → Option PendingAck
unfolding type_code
find_pending [] id expected = none
find_pending (a ∷ acks) id expected =
    if a.packet_id == id && same_type a.expected expected
    then some a
    else find_pending acks id expected

-- Erases the entry that find_pending found.
unfoldable pub remove_pending : List PendingAck → ℕ → PacketType → List PendingAck
unfolding type_code
remove_pending [] id expected = []
remove_pending (a ∷ acks) id expected =
    if a.packet_id == id && same_type a.expected expected
    then acks
    else a ∷ remove_pending acks id expected

-- The test of packet_id_in_use on the first `n` slots, and on the pending acknowledgements.
unfoldable pub slots_use : ℕ → ℕ → List OutboundSlot → Bool
slots_use id zero slots = false
slots_use id (suc n) [] = false
slots_use id (suc n) (s ∷ slots) =
    if not (is_free s.phase) && s.packet_id == id then true else slots_use id n slots

unfoldable pub acks_use : ℕ → List PendingAck → Bool
acks_use id [] = false
acks_use id (a ∷ acks) = if a.packet_id == id then true else acks_use id acks

unfoldable pub packet_id_in_use : Config → Client → ℕ → Bool
unfolding slots_use acks_use
packet_id_in_use cfg c id =
    if slots_use id cfg.max_inflight_out c.outbound then true else acks_use id c.pending_acks

-- The number behind `n` in the round of 1 to 65535.
unfoldable pub next_id : ℕ → ℕ
next_id n = if n == 65535 then 1 else (n + 1) % 65536

-- The loop of both allocators over the tries that are left: the id found, or 0, and the counter.
unfoldable pub alloc_loop : ℕ → (ℕ → Bool) → ℕ → ℕ × ℕ
unfolding next_id
alloc_loop zero in_use n = (0, n)
alloc_loop (suc tries) in_use n =
    let more = alloc_loop tries in_use (next_id n) in
    if not (in_use (next_id n)) then (next_id n, next_id n) else more

unfoldable pub alloc_packet_id : Config → Client → ℕ × Client
alloc_packet_id cfg c =
    let r = alloc_loop 65535 (packet_id_in_use cfg c) c.next_packet_id in
    (r.0, record c { next_packet_id = r.1 })

abbrev pub is_some {ℓ} : {A : Type ℓ} → Option A → Bool
is_some none = false
is_some (some a) = true

unfoldable pub alloc_sub_id : Client → ℕ × Client
alloc_sub_id c =
    let r = alloc_loop 65535 (λ id. is_some (find_by_sub_id c.subscriptions id)) c.next_sub_id in
    (r.0, record c { next_sub_id = r.1 })

abbrev pub mark_resub : List Subscription → List Subscription
mark_resub = map (λ (s : Subscription). record s { needs_resub = true })

unfoldable pub reset_session_state : Client → Client
unfolding release_slot
reset_session_state c = record c {
  outbound = map release_slot c.outbound;
  inbound_ids = [];
  pending_acks = [];
  next_packet_id = 0;
  subscriptions = mark_resub c.subscriptions;
}

abbrev pub count_backpressure : Client → Client
count_backpressure c = record c { tx_backpressure_count = (c.tx_backpressure_count + 1) % 2 ^ 32 }
