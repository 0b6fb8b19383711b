-- ===== src/Client/Flush.antt =====
-- The loop of pump_tx ends: its rounds are bounded by the waiting bytes.
use paho_cpp_static.Error.{Error}
use paho_cpp_static.TxQueue.Inv.{IsValid, consume-IsValid}
use paho_cpp_static.Client.Transmit.{pump_tx, pump_tx_loop, sent}
use paho_cpp_static.TxQueue.{consume, pending, is_drained, TxQueue, peek}
use paho_cpp_static.Client.State.{Setup, Sys}
use paho_cpp_static.Prelude.{
  suc, false, ℕ, ◌≡◌, ◌<◌, arith, zero, inr, inl, none, refl, Bool-cases, Option-cases, subst, sym,
}

module _ (u : Setup) where
  pub consume_shorter :
      (n : ℕ) (q : TxQueue)
      → IsValid q
      → is_drained q ≡ false
      → pending (consume (suc n) q) < pending q
  unfolding consume pending is_drained
  consume_shorter n q v h = ground arith

  keeps_going :
      (e : Error) (n : ℕ) (s : Sys u.env.World)
      → (sent u e n s).0 ≡ none
      → (k : ℕ) × ((sent u e n s).1.client.tx ≡ consume (suc k) s.client.tx)
  unfolding sent
  keeps_going Error.ok zero s h = absurd (ground arith)
  keeps_going Error.ok (suc n) s h = (n, refl)
  keeps_going e n s h = absurd (ground arith)

  same_rounds :
      (a b : ℕ) (s : Sys u.env.World)
      → IsValid s.client.tx
      → pending s.client.tx < a
      → pending s.client.tx < b
      → pump_tx_loop u a s ≡ pump_tx_loop u b s
  unfolding pump_tx_loop
  same_rounds zero b s v ha hb = absurd (omega arith)
  same_rounds (suc a) zero s v ha hb = absurd (omega arith)
  same_rounds (suc a) (suc b) s v ha hb = elim (Bool-cases (is_drained s.client.tx)) [
    | inl e ↦ rw e refl
    | inr e ↦ elim (Option-cases (sent u o.0 o.1 t).0) [
      | inl q ↦
          let (k, tx) = keeps_going o.0 o.1 t q in
          rw (e, q)
            (same_rounds a b (sent u o.0 o.1 t).1
              (subst IsValid (sym tx) (consume-IsValid (suc k) s.client.tx v))
              (rw tx (omega (arith, consume_shorter k s.client.tx v e)))
              (rw tx (omega (arith, consume_shorter k s.client.tx v e))))
      | inr (x, q) ↦ rw (e, q) refl
    ]
  ]
    where
      o : Error × ℕ × u.env.World
      o = u.env.send (peek s.client.tx) s.world

      t : Sys u.env.World
      t = record s { world = o.2 }

  -- With a valid queue, any number of rounds above that of the waiting bytes gives what `pump_tx`
  -- gives: its loop never stops for want of rounds, whatever the transport answers.
  pub pump_tx_enough :
      (fuel : ℕ) (s : Sys u.env.World)
      → IsValid s.client.tx
      → pending s.client.tx < fuel
      → pump_tx_loop u fuel s ≡ pump_tx u s
  unfolding pump_tx
  pump_tx_enough fuel s v h = same_rounds fuel (suc (pending s.client.tx)) s v h (omega arith)
