-- ===== src/Client/Waits.antt =====
-- The slot of a QoS 2 message that waits for PUBCOMP.
use paho_cpp_static.Prelude.{
  Bool-cases, ◌≡◌, zero, inl, suc, some, true, [], inr, ℕ, Bool, List, not, get_or, ◌∷◌, ◌&&◌, ◌==◌,
  arith, refl, length, ◌<◌, take, ◌%◌, take_all,
}
use paho_cpp_static.Client.View.Frame.{map-suc, find_slot_lem}
use paho_cpp_static.Client.Tables.{find_slot, update_slot, to_pubrel}
use paho_cpp_static.Client.State.{OutboundSlot, is_free, free_slot, wait_pubcomp}

-- What a change does to the slot that a search finds.
pub slot_at-update :
    (test : OutboundSlot → Bool) (f : OutboundSlot → OutboundSlot) (n : ℕ)
    (slots : List OutboundSlot) (i : ℕ)
    → find_slot test n slots ≡ some i
    → get_or (update_slot i f slots) i free_slot ≡ f (get_or slots i free_slot)
unfolding find_slot update_slot
slot_at-update test f zero slots i e = cc
slot_at-update test f (suc n) [] i e = cc
slot_at-update test f (suc n) (s ∷ slots) i e = elim (Bool-cases (test s)) [
  | inl now ↦ let first : i ≡ 0 = ground arith in rw first refl
  | inr later ↦
      let (j, found, next) = map-suc (find_slot test n slots) i (rw later at e) in
      rw next (slot_at-update test f n slots j found)
]

-- A change of the slot that a search finds: the search finds it again, if it passes the test still.
find_slot-update :
    (test : OutboundSlot → Bool) (f : OutboundSlot → OutboundSlot) (n : ℕ)
    (slots : List OutboundSlot) (i : ℕ)
    → find_slot test n slots ≡ some i
    → test (f (get_or slots i free_slot)) ≡ true
    → find_slot test n (update_slot i f slots) ≡ some i
unfolding find_slot update_slot
find_slot-update test f zero slots i e h = cc
find_slot-update test f (suc n) [] i e h = cc
find_slot-update test f (suc n) (s ∷ slots) i e h = elim (Bool-cases (test s)) [
  | inl now ↦
      let first : i ≡ 0 = ground arith in
      let again : test (f s) ≡ true = rw first at h in rw first (rw again refl)
  | inr later ↦
      let (j, found, next) = map-suc (find_slot test n slots) i (rw later at e) in
      let again = find_slot-update test f n slots j found (rw next at h) in
      rw next (rw (later, again) refl)
]

-- The slot `i` belongs to `id` and waits for PUBCOMP with the packet `bytes`.
abbrev pub Waits : ℕ → ℕ → ℕ → List ℕ → List OutboundSlot → Type 0
Waits n i id bytes slots =
    (find_slot (λ s. not (is_free s.phase) && s.packet_id == id) n slots ≡ some i)
    × ((get_or slots i free_slot).phase ≡ wait_pubcomp)
    × ((get_or slots i free_slot).packet ≡ bytes)

pub Waits-stamp :
    (n i id now : ℕ) (bytes : List ℕ) (slots : List OutboundSlot)
    → Waits n i id bytes slots
    → Waits n i id bytes (update_slot i (λ t. record t { last_sent_ms = now }) slots)
Waits-stamp n i id now bytes slots (found, phase, stored) =
    let (index, passes) = find_slot_lem _ n slots i found in
    let again =
      find_slot-update (λ s. not (is_free s.phase) && s.packet_id == id)
        (λ t. record t { last_sent_ms = now }) n slots i found passes in
    rw (slot_at-update _ (λ t. record t { last_sent_ms = now }) n slots i found)
      (again, phase, stored)

pub Waits-to_pubrel :
    (n i id : ℕ) (bytes : List ℕ) (slots : List OutboundSlot)
    → find_slot (λ s. not (is_free s.phase) && s.packet_id == id) n slots ≡ some i
    → length bytes < 65536
    → Waits n i id bytes (update_slot i (to_pubrel bytes) slots)
unfolding to_pubrel
Waits-to_pubrel n i id bytes slots found short =
    let (index, passes) = find_slot_lem _ n slots i found in
    let again =
      find_slot-update (λ s. not (is_free s.phase) && s.packet_id == id) (to_pubrel bytes) n slots i
        found (ground (arith, passes)) in
    rw (slot_at-update _ (to_pubrel bytes) n slots i found) (again, refl, whole)
  where
    whole : take (length bytes % 65536) bytes ≡ bytes
    whole = take_all (length bytes % 65536) bytes (omega arith)
