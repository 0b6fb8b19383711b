-- ===== src/Client/Acks.antt =====
-- What send_ack puts into the queue, and when it has to be deferred.
use paho_cpp_static.Vbi.{encode_loop}
use paho_cpp_static.Prelude.{
  ℕ, List, Bool, true, false, ◌≡◌, ◌≢◌, ◌++◌, arith, Bool-cases, inl, inr, leb, ltb, length, refl,
  ◌&&◌, ◌+◌, ◌∙◌,
}
use paho_cpp_static.Error.{is_ok, ok, value}
use paho_cpp_static.Packet.{PacketType}
use paho_cpp_static.TxQueue.Inv.{IsValid}
use paho_cpp_static.TxQueue.Refine.{reserve_refines}
use paho_cpp_static.TxQueue.{peek, reserve}
use paho_cpp_static.Codec.Encode.{encode_ack, is_ack}
use paho_cpp_static.Codec.Stream.{be16}
use paho_cpp_static.Codec.Wire.{packet, header, encode_ack_exact}
use paho_cpp_static.Client.Queued.{put_bytes_lem}
use paho_cpp_static.Client.Transmit.{send_ack, enqueue_sized, commit_encoded, packet_size}
use paho_cpp_static.Client.State.{Setup, Client}

-- An acknowledgement on the wire: four bytes.
abbrev pub ack_bytes : PacketType → ℕ → List ℕ
ack_bytes t id = packet (header t false 0 false 2) (be16 id)

-- The queue has room for four more bytes.
abbrev pub has_room : Setup → Client → Bool
has_room u c = leb 4 u.cfg.tx_buffer_size && leb (length (peek c.tx) + 4) c.tx.capacity

module _ (u : Setup) (t : PacketType) (id : ℕ) (c : Client) (valid : IsValid c.tx) where
  length-ack_bytes : length (ack_bytes t id) ≡ 4
  unfolding encode_loop
  length-ack_bytes = refl

  ack_encoded : is_ack t ≡ true → id ≢ 0 → encode_ack u.streams 4 t id ≡ value (ack_bytes t id)
  unfolding encode_loop
  ack_encoded a h = encode_ack_exact u.streams 4 id t a h ∙ refl

  pub send_ack_goes :
      is_ack t ≡ true
      → id ≢ 0
      → has_room u c ≡ true
      → ((send_ack u t id c).0 ≡ ok) × (peek (send_ack u t id c).1.tx ≡ peek c.tx ++ ack_bytes t id)
  unfolding send_ack enqueue_sized packet_size commit_encoded
  send_ack_goes a h room =
      let fits : (reserve 4 c.tx).0 ≡ true =
        (reserve_refines 4 c.tx valid).0.1 (ground (arith, room)) in
      let large : ltb u.cfg.tx_buffer_size 4 ≡ false = ground (arith, room) in
      rw (large, fits, ack_encoded a h)
        (
          refl,
          (put_bytes_lem (ack_bytes t id) 4 c.tx valid (omega (arith, length-ack_bytes)) fits).0,
        )

  pub send_ack_waits :
      has_room u c ≡ false
      → (is_ok (send_ack u t id c).0 ≡ false) × (peek (send_ack u t id c).1.tx ≡ peek c.tx)
  unfolding send_ack enqueue_sized packet_size commit_encoded
  send_ack_waits room = elim (Bool-cases (ltb u.cfg.tx_buffer_size 4)) [
    | inl small ↦ rw small (refl, refl)
    | inr large ↦ elim (Bool-cases (reserve 4 c.tx).0) [
      | inl fits ↦
          let enough = (reserve_refines 4 c.tx valid).0.0 fits in
          absurd (ground (arith, room, large, enough))
      | inr full ↦ rw (large, full) (refl, (reserve_refines 4 c.tx valid).1)
    ]
  ]
