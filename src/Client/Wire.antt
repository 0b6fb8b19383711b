-- ===== src/Client/Wire.antt =====
-- What the other end of the transport receives while pump_tx runs.
use paho_cpp_static.Error.{Error, is_ok, ok}
use paho_cpp_static.Prelude.{
  Bool-cases, Option-cases, ◌≡◌, ◌++◌, false, true, inr, zero, inl, suc, List, ℕ, ◌≤◌, ◌∙◌, take,
  length, refl, none, ◌<◌, drop, arith, ap, append-nil, append_assoc, take-append-drop, [], sym,
  subst, ◌-◌,
}
use paho_cpp_static.TxQueue.Inv.{IsValid, consume-IsValid}
use paho_cpp_static.TxQueue.Refine.{length-peek, consume_refines}
use paho_cpp_static.TxQueue.{peek, pending, is_drained, consume, TxQueue}
use paho_cpp_static.Client.Flush.{consume_shorter}
use paho_cpp_static.Client.Transmit.{sent, pump_tx, pump_tx_loop}
use paho_cpp_static.Client.State.{Env, Setup, Sys}

-- The other end of a transport. As include/mqtt/transport.hpp has it, `send` passes on the bytes that
-- it reports as accepted, and none unless it returns Ok; reading the clock passes nothing on.
pub record Peer (e : Env) : Type 0 where
  pub received : e.World → List ℕ
  pub on_ok :
      (bytes : List ℕ) (w : e.World)
      → is_ok (e.send bytes w).0 ≡ true
      → received (e.send bytes w).2 ≡ received w ++ take (e.send bytes w).1 bytes
  pub on_error :
      (bytes : List ℕ) (w : e.World)
      → is_ok (e.send bytes w).0 ≡ false
      → received (e.send bytes w).2 ≡ received w
  pub on_clock : (w : e.World) → received (e.now_ms w).1 ≡ received w

drained_peek : (q : TxQueue) → is_drained q ≡ true → peek q ≡ []
unfolding is_drained peek
drained_peek q e =
    ap (λ (k : ℕ). take k (drop q.head q.buffer))
      (let nothing : q.tail - q.head ≡ 0 = ground (arith, e) in nothing)

waits : (q : TxQueue) → IsValid q → is_drained q ≡ false → 1 ≤ length (peek q)
unfolding is_drained pending
waits q v e = ground (arith, e, length-peek q v)

module _ (u : Setup) (peer : Peer u.env) where
  abbrev W : Type 0
  W = Sys u.env.World

  -- What has been received and what waits.
  abbrev pub stream : W → List ℕ
  stream s = peer.received s.world ++ peek s.client.tx

  -- The bytes taken off the front of the queue stand behind those received before.
  moved :
      (n : ℕ) (s : W) (before : List ℕ)
      → IsValid s.client.tx
      → peer.received s.world ≡ before ++ take (suc n) (peek s.client.tx)
      → peer.received (u.env.now_ms s.world).1 ++ peek (consume (suc n) s.client.tx)
        ≡ before ++ peek s.client.tx
  moved n s before v good =
      let kept : peek (consume (suc n) s.client.tx) ≡ drop (suc n) (peek s.client.tx) =
        (consume_refines (suc n) s.client.tx v).0 in
      rw (peer.on_clock s.world, good, kept)
        (append_assoc before (take (suc n) (peek s.client.tx)) (drop (suc n) (peek s.client.tx))
          ∙ ap (λ l. before ++ l) (take-append-drop (suc n) (peek s.client.tx)))

  -- What `sent` does with an answer, the bytes of which have been received.
  sent-stream :
      (e : Error) (n : ℕ) (s : W) (before : List ℕ)
      → IsValid s.client.tx
      → (is_ok e ≡ true → peer.received s.world ≡ before ++ take n (peek s.client.tx))
      → (is_ok e ≡ false → peer.received s.world ≡ before)
      → (stream (sent u e n s).1 ≡ before ++ peek s.client.tx) × IsValid (sent u e n s).1.client.tx
  unfolding sent
  sent-stream Error.ok zero s before v good bad =
      (ap (λ l. l ++ peek s.client.tx) (good refl ∙ append-nil before), v)
  sent-stream Error.ok (suc n) s before v good bad =
      (moved n s before v (good refl), consume-IsValid (suc n) s.client.tx v)
  sent-stream e n s before v good bad = (ap (λ l. l ++ peek s.client.tx) (bad refl), v)

  loop_stream :
      (fuel : ℕ) (s : W) → IsValid s.client.tx → stream (pump_tx_loop u fuel s).1 ≡ stream s
  unfolding pump_tx_loop
  loop_stream zero s v = refl
  loop_stream (suc fuel) s v =
      let o : Error × ℕ × u.env.World = u.env.send (peek s.client.tx) s.world in
      let t : W = record s { world = o.2 } in
      let (same, valid) =
        sent-stream o.0 o.1 t (peer.received s.world) v (peer.on_ok (peek s.client.tx) s.world)
          (peer.on_error (peek s.client.tx) s.world) in
      elim (Bool-cases (is_drained s.client.tx)) [
        | inl b ↦ rw b refl
        | inr b ↦ elim (Option-cases (sent u o.0 o.1 t).0) [
          | inl q ↦ rw (b, q) (loop_stream fuel (sent u o.0 o.1 t).1 valid ∙ same)
          | inr (x, q) ↦ rw (b, q) same
        ]
      ]

  -- Whatever the transport accepts and however it fails, `pump_tx` neither loses nor repeats nor
  -- reorders a byte: what the other end has received, followed by what waits, stays the same.
  pub pump_tx_in_order :
      (s : W)
      → IsValid s.client.tx
      → peer.received (pump_tx u s).1.world ++ peek (pump_tx u s).1.client.tx
        ≡ peer.received s.world ++ peek s.client.tx
  unfolding pump_tx
  pump_tx_in_order s v = loop_stream (suc (pending s.client.tx)) s v

  -- A transport that accepts a byte at least, whenever it is given one.
  abbrev pub Accepts : Type 0
  Accepts =
      (bytes : List ℕ) (w : u.env.World)
      → 1 ≤ length bytes
      → ((u.env.send bytes w).0 ≡ ok) × (1 ≤ (u.env.send bytes w).1)

  -- A round over such a transport goes on.
  goes_on :
      (e : Error) (n : ℕ) (s : W)
      → e ≡ ok
      → 1 ≤ n
      → ((sent u e n s).0 ≡ none)
        × ((k : ℕ) × ((sent u e n s).1.client.tx ≡ consume (suc k) s.client.tx))
  unfolding sent
  goes_on e zero s fine one = absurd (omega arith)
  goes_on e (suc n) s fine one = rw fine (refl, (n, refl))

  loop_drains :
      (eager : Accepts) (fuel : ℕ) (s : W)
      → IsValid s.client.tx
      → pending s.client.tx < fuel
      → ((pump_tx_loop u fuel s).0 ≡ ok)
        × (is_drained (pump_tx_loop u fuel s).1.client.tx ≡ true)
        × IsValid (pump_tx_loop u fuel s).1.client.tx
  unfolding pump_tx_loop
  loop_drains eager zero s v h = absurd (omega arith)
  loop_drains eager (suc fuel) s v h = elim (Bool-cases (is_drained s.client.tx)) [
    | inl b ↦ rw b (refl, b, v)
    | inr b ↦
        let o : Error × ℕ × u.env.World = u.env.send (peek s.client.tx) s.world in
        let t : W = record s { world = o.2 } in
        let (fine, one) = eager (peek s.client.tx) s.world (waits s.client.tx v b) in
        let (go, (k, tx)) = goes_on o.0 o.1 t fine one in
        let valid = subst IsValid (sym tx) (consume-IsValid (suc k) s.client.tx v) in
        rw (b, go)
          (loop_drains eager fuel (sent u o.0 o.1 t).1 valid
            (rw tx (omega (arith, h, consume_shorter u k s.client.tx v b))))
  ]

  -- With a transport that accepts a byte at least whenever it is given one, one `pump_tx` succeeds
  -- and drains the queue: the other end receives all that waited, in order.
  pub pump_tx_drains :
      (eager : Accepts) (s : W)
      → IsValid s.client.tx
      → ((pump_tx u s).0 ≡ ok)
        × (is_drained (pump_tx u s).1.client.tx ≡ true)
        × (peer.received (pump_tx u s).1.world ≡ peer.received s.world ++ peek s.client.tx)
  unfolding pump_tx
  pump_tx_drains eager s v =
      let (fine, drained, valid) =
        loop_drains eager (suc (pending s.client.tx)) s v (omega arith) in
      let nothing = drained_peek (pump_tx u s).1.client.tx drained in
      (
        fine,
        drained,
        sym (append-nil (peer.received (pump_tx u s).1.world))
            ∙ ap (λ l. peer.received (pump_tx u s).1.world ++ l) (sym nothing)
            ∙ pump_tx_in_order s v,
      )
