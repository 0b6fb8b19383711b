-- ===== src/Client/View/Transmit.antt =====
-- An invariant of the view under the transmit path.
use paho_cpp_static.Codec.Room.{Caps, encode_ack-Caps}
use paho_cpp_static.TxQueue.{pending, reserve, peek, is_drained}
use paho_cpp_static.Packet.{PacketType}
use paho_cpp_static.Client.Transmit.{
  send_ack, enqueue_sized, pump_tx, enqueue, sent, pump_tx_loop, commit_encoded, packet_size,
}
use paho_cpp_static.Client.View.{View, Closed, ℕ, List, view, PacketType, reserve, length}
use paho_cpp_static.Prelude.{
  zero, true, inl, suc, inr, ℕ, List, Bool-cases, ltb, length, ◌≡◌, arith, refl, Option-cases,
}
use paho_cpp_static.Error.{value, error, Result, Error}
use paho_cpp_static.Client.State.{Sys, Setup, Client, M}

module _ (u : Setup) (P : View → Type 0) where
  -- A member function keeps the invariant.
  pub record Keeps {A : Type 0} (m : M u A) : Type 0 where
    pub at : (s : Sys u.env.World) → P (view s.client) → P (view (m s).1.client)

module _ (u : Setup) (P : View → Type 0) (k : Closed u.cfg P) where
  pub enqueue_keeps : (bytes : List ℕ) (c : Client) → P (view c) → P (view (enqueue bytes c).1)
  unfolding enqueue
  enqueue_keeps bytes c h = elim (Bool-cases (reserve (length bytes) c.tx).0) [
    | inl e ↦ rw e (k.on_queue bytes (length bytes) (view c) (omega arith) e h)
    | inr e ↦ rw e (k.on_reserve (length bytes) (view c) h)
  ]

  commit_encoded_keeps :
      (r : Result (List ℕ)) (size : ℕ) (c : Client)
      → Caps u.streams size r
      → (reserve size c.tx).0 ≡ true
      → P (view c)
      → P (view (commit_encoded r (reserve size c.tx).1 c).1)
  unfolding commit_encoded
  commit_encoded_keeps (value bytes) size c short e h =
      k.on_queue bytes size (view c) (short.at bytes refl) e h
  commit_encoded_keeps (error x) size c short e h = k.on_reserve size (view c) h

  pub enqueue_sized_keeps :
      (size : ℕ) (encode : ℕ → Result (List ℕ)) (c : Client)
      → Caps u.streams size (encode size)
      → P (view c)
      → P (view (enqueue_sized u.cfg size encode c).1)
  unfolding enqueue_sized
  enqueue_sized_keeps size encode c short h = elim (Bool-cases (ltb u.cfg.tx_buffer_size size)) [
    | inl e ↦ rw e h
    | inr e ↦ elim (Bool-cases (reserve size c.tx).0) [
      | inl f ↦ rw (e, f) (commit_encoded_keeps (encode size) size c short f h)
      | inr f ↦ rw (e, f) (k.on_reserve size (view c) h)
    ]
  ]

  pub send_ack_keeps :
      (t : PacketType) (id : ℕ) (c : Client) → P (view c) → P (view (send_ack u t id c).1)
  unfolding send_ack
  send_ack_keeps t id c h =
      enqueue_sized_keeps (packet_size 2) _ c (encode_ack-Caps u.streams (packet_size 2) t id) h

  sent_keeps :
      (e : Error) (n : ℕ) (s : Sys u.env.World)
      → P (view s.client)
      → P (view (sent u e n s).1.client)
  unfolding sent
  sent_keeps Error.ok zero s h = h
  sent_keeps Error.ok (suc n) s h = k.on_consume (suc n) (view s.client) h
  sent_keeps e n s h = h

  pump_tx_loop_keeps :
      (fuel : ℕ) (s : Sys u.env.World)
      → P (view s.client)
      → P (view (pump_tx_loop u fuel s).1.client)
  unfolding pump_tx_loop
  pump_tx_loop_keeps zero s h = h
  pump_tx_loop_keeps (suc fuel) s h = elim (Bool-cases (is_drained s.client.tx)) [
    | inl e ↦ rw e h
    | inr e ↦ elim (Option-cases (sent u o.0 o.1 t).0) [
      | inl q ↦ rw (e, q) (pump_tx_loop_keeps fuel (sent u o.0 o.1 t).1 (sent_keeps o.0 o.1 t h))
      | inr (x, q) ↦ rw (e, q) (sent_keeps o.0 o.1 t h)
    ]
  ]
    where
      o : Error × ℕ × u.env.World
      o = u.env.send (peek s.client.tx) s.world

      t : Sys u.env.World
      t = record s { world = o.2 }

  pub pump_tx_keeps : (s : Sys u.env.World) → P (view s.client) → P (view (pump_tx u s).1.client)
  unfolding pump_tx
  pump_tx_keeps s h = pump_tx_loop_keeps (suc (pending s.client.tx)) s h
