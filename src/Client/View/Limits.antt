-- ===== src/Client/View/Limits.antt =====
-- Predicates of every entry of a table, and the lengths of tables, under the ways a table changes.
use paho_cpp_static.Packet.{PacketType}
use paho_cpp_static.Client.Tables.{
  remove_pending, remove_id, update_slot, erase_subscription, same_type,
}
use paho_cpp_static.Prelude.{
  Bool-cases, ◌≡◌, inl, zero, [], suc, inr, List, ℕ, length, All, replicate, map, ◌≤◌, ◌++◌, ◌==◌,
  arith, refl, ◌&&◌, take,
}
use paho_cpp_static.Client.View.{
  SameSlots, SameSubs, remove_id, ℕ, update_slot, List, erase_subscription, remove_pending, length,
  PacketType, ◌∷◌, map,
}
use paho_cpp_static.Client.State.{OutboundSlot, Subscription, PendingAck}

module _ {ℓ κ} {A : Type ℓ} (P : A → Type κ) where
  pub All-append : (xs ys : List A) → All P xs → All P ys → All P (xs ++ ys)
  All-append [] ys h g = g
  All-append (x ∷ xs) ys h g = (h.0, All-append xs ys h.1 g)

  pub All-replicate : (n : ℕ) (a : A) → P a → All P (replicate n a)
  All-replicate zero a h = tt
  All-replicate (suc n) a h = (h, All-replicate n a h)

  pub All-map : (f : A → A) (xs : List A) → ((a : A) → P a → P (f a)) → All P xs → All P (map f xs)
  All-map f [] g h = tt
  All-map f (x ∷ xs) g h = (g x h.0, All-map f xs g h.1)

pub length-update_slot :
    (i : ℕ) (f : OutboundSlot → OutboundSlot) (slots : List OutboundSlot)
    → length (update_slot i f slots) ≡ length slots
unfolding update_slot
length-update_slot i f [] = refl
length-update_slot zero f (s ∷ slots) = refl
length-update_slot (suc i) f (s ∷ slots) = omega (arith, length-update_slot i f slots)

pub All-update_slot :
    (P : OutboundSlot → Type 0) (i : ℕ) (f : OutboundSlot → OutboundSlot)
    (slots : List OutboundSlot)
    → ((s : OutboundSlot) → P s → P (f s))
    → All P slots
    → All P (update_slot i f slots)
unfolding update_slot
All-update_slot P i f [] g h = tt
All-update_slot P zero f (s ∷ slots) g h = (g s h.0, h.1)
All-update_slot P (suc i) f (s ∷ slots) g h = (h.0, All-update_slot P i f slots g h.1)

pub length-SameSlots :
    (slots other : List OutboundSlot) → SameSlots slots other → length other ≡ length slots
length-SameSlots [] [] h = refl
length-SameSlots [] (t ∷ ts) h = absurd h
length-SameSlots (s ∷ ss) [] h = absurd h
length-SameSlots (s ∷ ss) (t ∷ ts) h = omega (arith, length-SameSlots ss ts h.1)

pub packets-SameSlots :
    (n : ℕ) (slots other : List OutboundSlot)
    → SameSlots slots other
    → All (λ (s : OutboundSlot). length s.packet ≤ n) slots
    → All (λ (s : OutboundSlot). length s.packet ≤ n) other
packets-SameSlots n [] [] h all = tt
packets-SameSlots n [] (t ∷ ts) h all = absurd h
packets-SameSlots n (s ∷ ss) [] h all = absurd h
packets-SameSlots n (s ∷ ss) (t ∷ ts) h all =
    (omega (arith, h.0.2, all.0), packets-SameSlots n ss ts h.1 all.1)

pub filters-SameSubs :
    (P : List ℕ → Type 0) (table other : List Subscription)
    → SameSubs table other
    → All (λ (e : Subscription). P e.filter) table
    → All (λ (e : Subscription). P e.filter) other
filters-SameSubs P [] [] h all = tt
filters-SameSubs P [] (t ∷ ts) h all = absurd h
filters-SameSubs P (s ∷ ss) [] h all = absurd h
filters-SameSubs P (s ∷ ss) (t ∷ ts) h all = (rw h.0.0 all.0, filters-SameSubs P ss ts h.1 all.1)

pub length-remove_id : (ids : List ℕ) (id : ℕ) → length (remove_id ids id) ≤ length ids
unfolding remove_id
length-remove_id [] id = omega arith
length-remove_id (v ∷ ids) id = ground (arith, length-remove_id ids id)

pub erase_subscription_shrinks :
    (sid : ℕ) (table : List Subscription) → length (erase_subscription sid table) ≤ length table
unfolding erase_subscription
erase_subscription_shrinks sid [] = omega arith
erase_subscription_shrinks sid (s ∷ table) = ground (arith, erase_subscription_shrinks sid table)

pub All-erase_subscription :
    (P : Subscription → Type 0) (sid : ℕ) (table : List Subscription)
    → All P table
    → All P (erase_subscription sid table)
unfolding erase_subscription
All-erase_subscription P sid [] h = tt
All-erase_subscription P sid (s ∷ table) h = elim (Bool-cases (s.sub_id == sid)) [
  | inl e ↦ rw e h.1
  | inr e ↦ rw e (h.0, All-erase_subscription P sid table h.1)
]

pub remove_pending_shrinks :
    (acks : List PendingAck) (id : ℕ) (expected : PacketType)
    → length (remove_pending acks id expected) ≤ length acks
unfolding remove_pending
remove_pending_shrinks [] id expected = omega arith
remove_pending_shrinks (a ∷ acks) id expected =
    ground (arith, remove_pending_shrinks acks id expected)

pub All-remove_pending :
    (P : PendingAck → Type 0) (acks : List PendingAck) (id : ℕ) (expected : PacketType)
    → All P acks
    → All P (remove_pending acks id expected)
unfolding remove_pending
All-remove_pending P [] id expected h = tt
All-remove_pending P (a ∷ acks) id expected h =
    elim (Bool-cases (a.packet_id == id && same_type a.expected expected)) [
      | inl e ↦ rw e h.1
      | inr e ↦ rw e (h.0, All-remove_pending P acks id expected h.1)
    ]

pub take_shorter : (n : ℕ) (xs : List ℕ) → length (take n xs) ≤ length xs
take_shorter zero xs = omega arith
take_shorter (suc n) [] = omega arith
take_shorter (suc n) (x ∷ xs) = omega (arith, take_shorter n xs)
