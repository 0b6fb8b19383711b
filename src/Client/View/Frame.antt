-- ===== src/Client/View/Frame.antt =====
-- What single helpers of the client leave alone, and what their answers tell.
use mathlib.Core.Option.{Option}
use paho_cpp_static.Client.View.{SameSlots, SameSubs, ◌∷◌, IsFresh, get_or, view, reserve, length}
use paho_cpp_static.TxQueue.{TxQueue, reserve}
use paho_cpp_static.Config.{Config}
use paho_cpp_static.Client.Tables.{
  alloc_packet_id, free_outbound_slot, alloc_sub_id, find_slot, packet_id_in_use, is_some,
  find_by_sub_id,
}
use paho_cpp_static.Client.Transmit.{enqueue, enqueue_sized, commit_encoded}
use paho_cpp_static.Client.Ids.{IsAllocated, alloc_loop_counter, alloc_packet_id-IsAllocated}
use paho_cpp_static.Prelude.{
  true, inl, inr, some, suc, false, [], zero, List, ◌<◌, ℕ, ◌==◌, ◌≡◌, Bool, Bool-cases, get_or,
  refl, ltb, length, arith, none, Option, ap,
}
use paho_cpp_static.Error.{value, error, Result}
use mathlib.Core.Option
use paho_cpp_static.Client.State.{Client, OutboundSlot, Subscription, is_free, free_slot}

-- Queueing changes the transmit queue only.
pub commit_encoded_tx :
    (r : Result (List ℕ)) (q : TxQueue) (c : Client)
    → record (commit_encoded r q c).1 { tx = c.tx } ≡ c
unfolding commit_encoded
commit_encoded_tx (value bytes) q c = refl
commit_encoded_tx (error e) q c = refl

pub enqueue_sized_tx :
    (cfg : Config) (size : ℕ) (encode : ℕ → Result (List ℕ)) (c : Client)
    → record (enqueue_sized cfg size encode c).1 { tx = c.tx } ≡ c
unfolding enqueue_sized
enqueue_sized_tx cfg size encode c = elim (Bool-cases (ltb cfg.tx_buffer_size size)) [
  | inl e ↦ rw e refl
  | inr e ↦ elim (Bool-cases (reserve size c.tx).0) [
    | inl f ↦ rw (e, f) (commit_encoded_tx _ _ c)
    | inr f ↦ rw (e, f) refl
  ]
]

pub enqueue_tx : (bytes : List ℕ) (c : Client) → record (enqueue bytes c).1 { tx = c.tx } ≡ c
unfolding enqueue
enqueue_tx bytes c = elim (Bool-cases (reserve (length bytes) c.tx).0) [
  | inl f ↦ rw f refl
  | inr f ↦ rw f refl
]

pub map-suc :
    (o : Option ℕ) (i : ℕ) → Option.map suc o ≡ some i → (j : ℕ) × (o ≡ some j) × (i ≡ suc j)
map-suc none i e = cc
map-suc (some j) i e = (j, refl, cc)

-- The slot that a search finds: it is among the first `n`, and passes the test.
pub find_slot_lem :
    (test : OutboundSlot → Bool) (n : ℕ) (slots : List OutboundSlot) (i : ℕ)
    → find_slot test n slots ≡ some i
    → (i < n) × (test (get_or slots i free_slot) ≡ true)
unfolding find_slot
find_slot_lem test zero slots i e = cc
find_slot_lem test (suc n) [] i e = cc
find_slot_lem test (suc n) (s ∷ slots) i e = elim (Bool-cases (test s)) [
  | inl now ↦ let first : i ≡ 0 = ground arith in rw first (omega arith, now)
  | inr later ↦
      let (j, found, next) = map-suc (find_slot test n slots) i (rw later at e) in
      let ih = find_slot_lem test n slots j found in rw next (omega (arith, ih), ih.1)
]

pub free_outbound_slot_lem :
    (cfg : Config) (c : Client) (i : ℕ)
    → free_outbound_slot cfg c ≡ some i
    → (i < cfg.max_inflight_out) × (is_free (get_or c.outbound i free_slot).phase ≡ true)
unfolding free_outbound_slot
free_outbound_slot_lem cfg c i e = find_slot_lem _ cfg.max_inflight_out c.outbound i e

-- An id that alloc_packet_id returns, other than 0, may be given out.
pub alloc_packet_id-IsFresh :
    (cfg : Config) (c : Client)
    → c.next_packet_id < 65536
    → ((alloc_packet_id cfg c).0 == 0) ≡ false
    → IsFresh cfg (view c) (alloc_packet_id cfg c).0
unfolding IsAllocated packet_id_in_use
alloc_packet_id-IsFresh cfg c h ne = elim (alloc_packet_id-IsAllocated cfg c h) [
  | inl p ↦ ground (arith, p)
  | inr p ↦ absurd (ground (arith, p))
]

pub alloc_packet_id_counter :
    (cfg : Config) (c : Client)
    → c.next_packet_id < 65536
    → (alloc_packet_id cfg c).1.next_packet_id < 65536
unfolding alloc_packet_id
alloc_packet_id_counter cfg c h =
    alloc_loop_counter 65535 (packet_id_in_use cfg c) c.next_packet_id h

pub alloc_sub_id_counter :
    (c : Client) → c.next_sub_id < 65536 → (alloc_sub_id c).1.next_sub_id < 65536
unfolding alloc_sub_id
alloc_sub_id_counter c h =
    alloc_loop_counter 65535 (λ id. is_some (find_by_sub_id c.subscriptions id)) c.next_sub_id h

pub SameSlots-refl : (slots : List OutboundSlot) → SameSlots slots slots
SameSlots-refl [] = tt
SameSlots-refl (s ∷ slots) = ((refl, refl, refl), SameSlots-refl slots)

pub SameSubs-refl : (table : List Subscription) → SameSubs table table
SameSubs-refl [] = tt
SameSubs-refl (s ∷ table) = ((refl, refl), SameSubs-refl table)

-- Two clients that differ in the transmit queue only have the same tables.
pub same_tables :
    (c d : Client)
    → record d { tx = c.tx } ≡ c
    → (d.outbound ≡ c.outbound)
      × (d.pending_acks ≡ c.pending_acks)
      × (d.subscriptions ≡ c.subscriptions)
same_tables c d e = (
  ap (λ (x : Client). x.outbound) e,
  ap (λ (x : Client). x.pending_acks) e,
  ap (λ (x : Client). x.subscriptions) e,
)
