-- ===== src/Client/Transmit.antt =====
-- The transmit path of the client: enqueue, enqueue_sized, pump_tx, send_ack.
use paho_cpp_static.Config.{Config}
use paho_cpp_static.Codec.Encode.{encode_ack}
use paho_cpp_static.Packet.{PacketType}
use paho_cpp_static.Client.State.{Setup, Client, M, Sys, clock_now}
use paho_cpp_static.TxQueue.{write, TxQueue, commit, reserve, pending, peek, is_drained, consume}
use paho_cpp_static.Prelude.{
  zero, some, none, suc, ℕ, List, ◌+◌, if◌then◌else◌, length, ltb, not, Option,
}
use paho_cpp_static.Error.{
  value, error, Result, Error, ok, buffer_too_small, tx_queue_full, would_block,
}

abbrev pub set_tx : TxQueue → Client → Client
set_tx q c = record c { tx = q }

abbrev pub vbi_size_c : ℕ → ℕ
vbi_size_c v = if ltb v 128 then 1 else if ltb v 16384 then 2 else if ltb v 2097152 then 3 else 4

unfoldable pub packet_size : ℕ → ℕ
packet_size remaining_length = 1 + vbi_size_c remaining_length + remaining_length

-- The copy and the commit, once the room is reserved.
unfoldable pub put_bytes : List ℕ → TxQueue → TxQueue
unfolding write commit
put_bytes bytes q = commit (length bytes) (write bytes q)

unfoldable pub enqueue : List ℕ → Client → Error × Client
enqueue bytes c =
    let (fits, q) = reserve (length bytes) c.tx in
    if not fits then (tx_queue_full, set_tx q c) else (ok, set_tx (put_bytes bytes q) c)

-- `encode` writes into the first `size` bytes of the span at the tail.
unfoldable pub commit_encoded : Result (List ℕ) → TxQueue → Client → Error × Client
commit_encoded (error e) q c = (e, set_tx q c)
commit_encoded (value bytes) q c = (ok, set_tx (put_bytes bytes q) c)

unfoldable pub enqueue_sized : Config → ℕ → (ℕ → Result (List ℕ)) → Client → Error × Client
enqueue_sized cfg size encode c =
    let (fits, q) = reserve size c.tx in
    if ltb cfg.tx_buffer_size size
    then (buffer_too_small, c)
    else if not fits
    then (tx_queue_full, set_tx q c)
    else commit_encoded (encode size) q c

module _ (u : Setup) where
  unfoldable pub send_ack : PacketType → ℕ → Client → Error × Client
  send_ack ptype id c =
      enqueue_sized u.cfg (packet_size 2) (λ size. encode_ack u.streams size ptype id) c

  -- What pump_tx does with an answer of the transport: go on, or return.
  unfoldable pub sent : Error → ℕ → Sys u.env.World → Option Error × Sys u.env.World
  sent ok zero s = (some ok, s)
  sent ok (suc n) s =
      let (now, s') = clock_now u s in
      (
        none,
        record s' {
          client = record s'.client { tx = consume (suc n) s'.client.tx; last_sent_ms = now };
        },
      )
  sent would_block n s = (some ok, s)
  sent e n s = (some e, s)

  -- The loop; each round that goes on consumes a byte, so the waiting bytes bound the rounds.
  unfoldable pub pump_tx_loop : ℕ → M u Error
  pump_tx_loop zero s = (ok, s)
  pump_tx_loop (suc fuel) s =
      let (e, written, w) = u.env.send (peek s.client.tx) s.world in
      let r = sent e written (record s { world = w }) in
      let again = pump_tx_loop fuel r.1 in
      if is_drained s.client.tx then (ok, s) else (elim r.0 [ some e ↦ (e, r.1) | none ↦ again ])

  unfoldable pub pump_tx : M u Error
  pump_tx s = pump_tx_loop (suc (pending s.client.tx)) s
