-- ===== src/Client/Resend.antt =====
-- What pump_retransmit puts into the queue once a session is resumed.
use paho_cpp_static.Packet.{type_code, publish}
use paho_cpp_static.Client.Transmit.{enqueue}
use paho_cpp_static.Prelude.{
  Bool-cases, ◌≡◌, ◌++◌, [], true, suc, inl, zero, inr, false, length, ℕ, ◌+◌, List, ◌≤◌, ◌∷◌,
  if◌then◌else◌, sym, append-nil, arith, length-append, ◌∙◌, ap, append_assoc, ◌==◌, refl,
  all_below, bit_and, ◌/◌, get_or, ◌<◌, ◌&&◌, ◌%◌, agree_below, bit_or,
}
use paho_cpp_static.TxQueue.Inv.{IsValid}
use paho_cpp_static.TxQueue.{peek}
use paho_cpp_static.Client.View.Frame.{enqueue_tx}
use paho_cpp_static.Client.Queued.{enqueue_lem}
use paho_cpp_static.Client.Tables.{mark_dup}
use paho_cpp_static.Client.Pump.{pump_retransmit, retransmit_loop, retransmit_slot, is_due}
use paho_cpp_static.Client.State.{Setup, Sys, Client, OutboundSlot, is_free}

-- A packet whose type is 3, a PUBLISH, with DUP set: the bit of 8 in its first byte.
abbrev pub with_dup : List ℕ → List ℕ
with_dup [] = []
with_dup (first ∷ rest) =
    (if first / 16 == 3 && first / 8 % 2 == 0 then first + 8 else first) ∷ rest

-- The packets of the slots in use among the first `n`, in order, with DUP set in a PUBLISH.
abbrev pub resent : ℕ → List OutboundSlot → List ℕ
resent zero slots = []
resent (suc n) [] = []
resent (suc n) (s ∷ slots) =
    if is_free s.phase then resent n slots else with_dup s.packet ++ resent n slots

-- The packets begin with bytes.
abbrev pub BeginWithBytes : List OutboundSlot → Type 0
BeginWithBytes [] = Unit {0}
BeginWithBytes (s ∷ slots) = (get_or s.packet 0 0 < 256) × BeginWithBytes slots

dup_byte : ℕ → ℕ
dup_byte b = if bit_and (b / 16) 0x0F == type_code publish then bit_or b 0x08 else b

dup_byte_lem : (b : ℕ) → b < 256 → dup_byte b ≡ (if b / 16 == 3 && b / 8 % 2 == 0 then b + 8 else b)
unfolding all_below dup_byte type_code
dup_byte_lem = agree_below _ _ 256 refl

mark_dup-with_dup_on :
    (packet : List ℕ) (s : OutboundSlot)
    → get_or packet 0 0 < 256
    → (mark_dup (record s { packet = packet })).packet ≡ with_dup packet
unfolding mark_dup dup_byte
mark_dup-with_dup_on [] s h = refl
mark_dup-with_dup_on (b ∷ rest) s h =
    let byte = dup_byte_lem b h in
    elim (Bool-cases (bit_and (b / 16) 0x0F == type_code publish)) [
      | inl e ↦ rw e (ap (λ (k : ℕ). k ∷ rest) (rw e at byte))
      | inr e ↦ rw e (ap (λ (k : ℕ). k ∷ rest) (rw e at byte))
    ]

mark_dup-with_dup :
    (s : OutboundSlot) → get_or s.packet 0 0 < 256 → (mark_dup s).packet ≡ with_dup s.packet
mark_dup-with_dup s h = mark_dup-with_dup_on s.packet s h

-- The packets as `mark_dup` makes them.
abbrev marked : ℕ → List OutboundSlot → List ℕ
marked zero slots = []
marked (suc n) [] = []
marked (suc n) (s ∷ slots) =
    if is_free s.phase then marked n slots else (mark_dup s).packet ++ marked n slots

marked-resent :
    (n : ℕ) (slots : List OutboundSlot) → BeginWithBytes slots → marked n slots ≡ resent n slots
marked-resent zero slots h = refl
marked-resent (suc n) [] h = refl
marked-resent (suc n) (s ∷ slots) h = rw (mark_dup-with_dup s h.0, marked-resent n slots h.1) refl

module _ (u : Setup) where
  loop-marked :
      (now n : ℕ) (slots : List OutboundSlot) (c : Client)
      → IsValid c.tx
      → length (peek c.tx) + length (marked n slots) ≤ c.tx.capacity
      → (peek (retransmit_loop u true now n slots c).1.tx ≡ peek c.tx ++ marked n slots)
        × ((retransmit_loop u true now n slots c).1.retransmit_now ≡ c.retransmit_now)
  unfolding retransmit_loop retransmit_slot is_due
  loop-marked now zero slots c v h = (sym (append-nil (peek c.tx)), refl)
  loop-marked now (suc n) [] c v h = (sym (append-nil (peek c.tx)), refl)
  loop-marked now (suc n) (s ∷ slots) c v h = elim (Bool-cases (is_free s.phase)) [
    | inl e ↦ rw e (loop-marked now n slots c v (rw e at h))
    | inr e ↦
        let first = (mark_dup s).packet in
        let space : length (peek c.tx) + length (first ++ marked n slots) ≤ c.tx.capacity =
          rw e at h in
        let (fine, queued, valid, capacity) =
          enqueue_lem first c v (omega (arith, space, length-append first (marked n slots))) in
        let rest : length (peek (enqueue first c).1.tx) + length (marked n slots)
            ≤ (enqueue first c).1.tx.capacity =
          rw (queued, capacity)
            (omega (
              arith,
              space,
              length-append first (marked n slots),
              length-append (peek c.tx) first,
            )) in
        let (later, flag) = loop-marked now n slots (enqueue first c).1 valid rest in
        let kept : (enqueue first c).1.retransmit_now ≡ c.retransmit_now =
          ap (λ (x : Client). x.retransmit_now) (enqueue_tx first c) in
        rw e (
          later
              ∙ ap (λ l. l ++ marked n slots) queued
              ∙ append_assoc (peek c.tx) first (marked n slots),
          flag ∙ kept,
        )
  ]

  -- When a retransmission is forced, as it is by a CONNACK, the queue has room for all packets in
  -- flight and each of them begins with a byte, `pump_retransmit` queues each of them once, behind
  -- what waits and in the order of the slots, with the DUP bit set in a PUBLISH and nothing else
  -- changed; and the next call is no longer forced.
  pub pump_retransmit_in_order :
      (s : Sys u.env.World)
      → s.client.retransmit_now ≡ true
      → IsValid s.client.tx
      → BeginWithBytes s.client.outbound
      → length (peek s.client.tx) + length (resent u.cfg.max_inflight_out s.client.outbound)
        ≤ s.client.tx.capacity
      → (peek (pump_retransmit u s).1.client.tx
          ≡ peek s.client.tx ++ resent u.cfg.max_inflight_out s.client.outbound)
        × ((pump_retransmit u s).1.client.retransmit_now ≡ false)
  unfolding pump_retransmit
  pump_retransmit_in_order s forced v begin h =
      let c : Client = record s.client { retransmit_now = false } in
      let same = marked-resent u.cfg.max_inflight_out c.outbound begin in
      let (queued, flag) =
        loop-marked (u.env.now_ms s.world).0 u.cfg.max_inflight_out c.outbound c v (rw same h) in
      let all = queued ∙ ap (λ l. peek c.tx ++ l) same in
      elim (Bool-cases (u.cfg.retry_interval_ms == 0)) [
        | inl e ↦ rw (e, forced) (all, flag)
        | inr e ↦ rw (e, forced) (all, flag)
      ]
