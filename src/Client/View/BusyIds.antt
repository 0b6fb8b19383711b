-- ===== src/Client/View/BusyIds.antt =====
-- The packet ids of the slots in use and of the awaited acknowledgements, as tables change.
use paho_cpp_static.Packet.{PacketType}
use paho_cpp_static.Prelude.{
  Bool-cases, ◌≡◌, [], zero, inl, false, inr, true, suc, ℕ, List, get_or, map, ◌==◌, refl,
  if◌then◌else◌, ◌&&◌,
}
use paho_cpp_static.Client.View.Apart.{
  Part, Grown, Part-refl, nothing, skip, same, here, keep, there,
}
use paho_cpp_static.Client.Tables.{
  contains, slots_use, acks_use, update_slot, release_slot, to_pubrel, remove_id, remove_pending,
  same_type,
}
use paho_cpp_static.Client.View.{SameSlots, ℕ, List, ◌∷◌, get_or, PacketType, map}
use paho_cpp_static.Client.State.{OutboundSlot, PendingAck, is_free, free_slot}

-- The packet ids of the slots in use among the first `n`.
abbrev pub busy_ids : ℕ → List OutboundSlot → List ℕ
busy_ids zero slots = []
busy_ids (suc n) [] = []
busy_ids (suc n) (s ∷ slots) =
    if is_free s.phase then busy_ids n slots else s.packet_id ∷ busy_ids n slots

abbrev pub ack_ids : List PendingAck → List ℕ
ack_ids acks = map (λ (a : PendingAck). a.packet_id) acks

-- The tests of packet_id_in_use, on these lists.
pub slots_use_lem :
    (id n : ℕ) (slots : List OutboundSlot) → slots_use id n slots ≡ contains (busy_ids n slots) id
unfolding slots_use contains
slots_use_lem id zero slots = refl
slots_use_lem id (suc n) [] = refl
slots_use_lem id (suc n) (s ∷ slots) = elim (Bool-cases (is_free s.phase)) [
  | inl e ↦ rw e (slots_use_lem id n slots)
  | inr e ↦ rw (e, slots_use_lem id n slots) refl
]

pub acks_use_lem : (id : ℕ) (acks : List PendingAck) → acks_use id acks ≡ contains (ack_ids acks) id
unfolding acks_use contains
acks_use_lem id [] = refl
acks_use_lem id (a ∷ acks) = rw (acks_use_lem id acks) refl

-- Changes of single slots, on the ids in use.
pub busy_ids-fill :
    (n i : ℕ) (slot : OutboundSlot) (slots : List OutboundSlot)
    → is_free (get_or slots i free_slot).phase ≡ true
    → is_free slot.phase ≡ false
    → Grown slot.packet_id (busy_ids n slots) (busy_ids n (update_slot i (λ old. slot) slots))
unfolding update_slot
busy_ids-fill zero i slot slots free busy = same
busy_ids-fill (suc n) i slot [] free busy = same
busy_ids-fill (suc n) zero slot (s ∷ slots) free busy = rw (free, busy) here
busy_ids-fill (suc n) (suc i) slot (s ∷ slots) free busy = elim (Bool-cases (is_free s.phase)) [
  | inl e ↦ rw e (busy_ids-fill n i slot slots free busy)
  | inr e ↦ rw e (there (busy_ids-fill n i slot slots free busy))
]

pub busy_ids-release :
    (n i : ℕ) (slots : List OutboundSlot)
    → Part (busy_ids n (update_slot i release_slot slots)) (busy_ids n slots)
unfolding update_slot release_slot
busy_ids-release zero i slots = nothing
busy_ids-release (suc n) i [] = nothing
busy_ids-release (suc n) zero (s ∷ slots) = elim (Bool-cases (is_free s.phase)) [
  | inl e ↦ rw e (Part-refl (busy_ids n slots))
  | inr e ↦ rw e (skip (Part-refl (busy_ids n slots)))
]
busy_ids-release (suc n) (suc i) (s ∷ slots) = elim (Bool-cases (is_free s.phase)) [
  | inl e ↦ rw e (busy_ids-release n i slots)
  | inr e ↦ rw e (keep (busy_ids-release n i slots))
]

pub busy_ids-release_all :
    (n : ℕ) (slots : List OutboundSlot) → busy_ids n (map release_slot slots) ≡ []
unfolding release_slot
busy_ids-release_all zero slots = refl
busy_ids-release_all (suc n) [] = refl
busy_ids-release_all (suc n) (s ∷ slots) = busy_ids-release_all n slots

pub busy_ids-pubrel :
    (n i : ℕ) (bytes : List ℕ) (slots : List OutboundSlot)
    → is_free (get_or slots i free_slot).phase ≡ false
    → busy_ids n (update_slot i (to_pubrel bytes) slots) ≡ busy_ids n slots
unfolding update_slot to_pubrel
busy_ids-pubrel zero i bytes slots busy = refl
busy_ids-pubrel (suc n) i bytes [] busy = refl
busy_ids-pubrel (suc n) zero bytes (s ∷ slots) busy = rw busy refl
busy_ids-pubrel (suc n) (suc i) bytes (s ∷ slots) busy =
    rw (busy_ids-pubrel n i bytes slots busy) refl

pub busy_ids-SameSlots :
    (n : ℕ) (slots other : List OutboundSlot)
    → SameSlots slots other
    → busy_ids n other ≡ busy_ids n slots
busy_ids-SameSlots zero slots other h = refl
busy_ids-SameSlots (suc n) [] [] h = refl
busy_ids-SameSlots (suc n) [] (t ∷ ts) h = absurd h
busy_ids-SameSlots (suc n) (s ∷ ss) [] h = absurd h
busy_ids-SameSlots (suc n) (s ∷ ss) (t ∷ ts) h =
    rw (h.0.0, h.0.1, busy_ids-SameSlots n ss ts h.1) refl

-- The ids that are left when an acknowledgement has come.
pub ack_ids-remove :
    (acks : List PendingAck) (id : ℕ) (expected : PacketType)
    → Part (ack_ids (remove_pending acks id expected)) (ack_ids acks)
unfolding remove_pending
ack_ids-remove [] id expected = nothing
ack_ids-remove (a ∷ acks) id expected =
    elim (Bool-cases (a.packet_id == id && same_type a.expected expected)) [
      | inl e ↦ rw e (skip (Part-refl (ack_ids acks)))
      | inr e ↦ rw e (keep (ack_ids-remove acks id expected))
    ]

pub remove_id-Part : (ids : List ℕ) (id : ℕ) → Part (remove_id ids id) ids
unfolding remove_id
remove_id-Part [] id = nothing
remove_id-Part (v ∷ ids) id = elim (Bool-cases (v == id)) [
  | inl e ↦ rw e (skip (Part-refl ids))
  | inr e ↦ rw e (keep (remove_id-Part ids id))
]
