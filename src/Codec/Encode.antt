-- ===== src/Codec/Encode.antt =====
-- The encoders of src/codec.cpp. The output span is given by its size; the result is the bytes
-- written to its front, whose number is what the source returns.
use paho_cpp_static.Vbi.{vbi_encode}
use paho_cpp_static.Codec.Sizes.{
  connect_remaining_length, subscribe_remaining_length, unsubscribe_remaining_length,
  max_string_len, publish_remaining_length,
}
use paho_cpp_static.Header.{to_byte}
use paho_cpp_static.Error.{
  Result, value, error, buffer_too_small, ◌>>◌, ◌>>=◌, guard, invalid_argument,
}
use paho_cpp_static.Prelude.{
  Option, ℕ, List, Bool, if◌then◌else◌, true, false, ◌∷◌, bit_or, bit_and, some, ◌*◌, none, not,
  is_empty, [], leb, ◌==◌, length, ◌&&◌, ◌%◌,
}
use Prim.Native.Nat.{ℕ, bit_or, bit_and}
use paho_cpp_static.Packet.{
  ConnectOptions, PacketType, Will, QoS, TopicSubscription, will_valid, FixedHeader, pingreq,
  puback, disconnect, pubrec, pubrel, pubcomp, connect, max_vbi_bytes, at_most_once,
  protocol_level_3_1_1, unsubscribe, subscribe, publish,
}
use paho_cpp_static.Codec.Stream.{ByteStream}

-- The CONNECT flags byte.
unfoldable pub connect_flags : ConnectOptions → ℕ
connect_flags opts =
    let clean : ℕ = if opts.clean_session then 0x02 else 0 in
    let will =
      if will_valid opts.will
      then (let flags = bit_or (bit_or clean 0x04) (bit_and opts.will.qos 0x03 * 8) in
          if opts.will.retain then bit_or flags 0x20 else flags)
      else clean in
    let pass = if not (is_empty opts.password) then bit_or will 0x40 else will in
    if not (is_empty opts.username) then bit_or pass 0x80 else pass

-- The four types of the switch.
abbrev pub is_ack : PacketType → Bool
is_ack puback = true
is_ack pubrec = true
is_ack pubrel = true
is_ack pubcomp = true
is_ack t = false

-- PINGREQ or DISCONNECT.
abbrev pub is_bare : PacketType → Bool
is_bare pingreq = true
is_bare disconnect = true
is_bare t = false

module _ (bs : ByteStream) where
  open bs use {Writer, open_writer, write_u8, write_u16, write_block, written}

  -- `if (!w.write(...)) return Error::BufferTooSmall;`
  abbrev pub or_too_small : Option Writer → Result Writer
  or_too_small none = error buffer_too_small
  or_too_small (some w) = value w

  unfoldable pub write_fixed_header : PacketType → ℕ → Bool → QoS → Bool → Writer → Result Writer
  write_fixed_header ptype remaining_length dup qos retain w = do
    let h : FixedHeader = record {
      ptype = ptype;
      dup = dup;
      qos = qos;
      retain = retain;
      remaining_length = remaining_length;
    }
    w1 ← or_too_small (write_u8 (to_byte h) w)
    n ← vbi_encode max_vbi_bytes remaining_length
    or_too_small (write_block n w1)

  unfoldable pub write_string : List ℕ → Writer → Result Writer
  write_string s w = do
    guard (leb (length s) max_string_len) invalid_argument
    w1 ← or_too_small (write_u16 (length s % 65536) w)
    if not (is_empty s) then or_too_small (write_block s w1) else value w1

  unfoldable pub write_binary : List ℕ → Writer → Result Writer
  write_binary d w = do
    guard (leb (length d) max_string_len) invalid_argument
    w1 ← or_too_small (write_u16 (length d % 65536) w)
    if not (is_empty d) then or_too_small (write_block d w1) else value w1

  -- The payload of CONNECT behind the client id.
  unfoldable pub write_will : Will → Writer → Result Writer
  write_will will w = do w1 ← write_string will.topic w; write_binary will.payload w1

  unfoldable pub encode_connect : ℕ → ConnectOptions → Result (List ℕ)
  encode_connect size opts = do
    rl ← connect_remaining_length opts
    w1 ← write_fixed_header connect rl false at_most_once false (open_writer size)
    w2 ← write_string (b'M' ∷ b'Q' ∷ b'T' ∷ b'T' ∷ []) w1
    w3 ← or_too_small (write_u8 protocol_level_3_1_1 w2)
    w4 ← or_too_small (write_u8 (connect_flags opts) w3)
    w5 ← or_too_small (write_u16 opts.keep_alive_s w4)
    w6 ← write_string opts.client_id w5
    w7 ← if will_valid opts.will then write_will opts.will w6 else value w6
    w8 ← if not (is_empty opts.username) then write_string opts.username w7 else value w7
    w9 ← if not (is_empty opts.password) then write_binary opts.password w8 else value w8
    value (written w9)

  unfoldable pub encode_publish : ℕ → List ℕ → List ℕ → QoS → Bool → Bool → ℕ → Result (List ℕ)
  encode_publish size topic payload qos retain dup packet_id = do
    guard (not (not (qos == at_most_once) && packet_id == 0)) invalid_argument
    guard (not (qos == at_most_once && dup)) invalid_argument
    rl ← publish_remaining_length topic (length payload) qos
    w1 ← write_fixed_header publish rl dup qos retain (open_writer size)
    w2 ← write_string topic w1
    w3 ← if not (qos == at_most_once) then or_too_small (write_u16 packet_id w2) else value w2
    w4 ← if not (is_empty payload) then or_too_small (write_block payload w3) else value w3
    value (written w4)

  unfoldable pub encode_ack : ℕ → PacketType → ℕ → Result (List ℕ)
  encode_ack size ptype packet_id = do
    guard (is_ack ptype) invalid_argument
    guard (not (packet_id == 0)) invalid_argument
    w1 ← write_fixed_header ptype 2 false at_most_once false (open_writer size)
    w2 ← or_too_small (write_u16 packet_id w1)
    value (written w2)

  unfoldable pub write_subscriptions : List TopicSubscription → Writer → Result Writer
  write_subscriptions [] w = value w
  write_subscriptions (s ∷ subs) w = do
    w1 ← write_string s.filter w
    w2 ← or_too_small (write_u8 s.qos w1)
    write_subscriptions subs w2

  unfoldable pub encode_subscribe : ℕ → ℕ → List TopicSubscription → Result (List ℕ)
  encode_subscribe size packet_id subs = do
    guard (not (packet_id == 0)) invalid_argument
    rl ← subscribe_remaining_length subs
    w1 ← write_fixed_header subscribe rl false at_most_once false (open_writer size)
    w2 ← or_too_small (write_u16 packet_id w1)
    w3 ← write_subscriptions subs w2
    value (written w3)

  unfoldable pub write_filters : List (List ℕ) → Writer → Result Writer
  write_filters [] w = value w
  write_filters (f ∷ filters) w = do w1 ← write_string f w; write_filters filters w1

  unfoldable pub encode_unsubscribe : ℕ → ℕ → List (List ℕ) → Result (List ℕ)
  encode_unsubscribe size packet_id filters = do
    guard (not (packet_id == 0)) invalid_argument
    rl ← unsubscribe_remaining_length filters
    w1 ← write_fixed_header unsubscribe rl false at_most_once false (open_writer size)
    w2 ← or_too_small (write_u16 packet_id w1)
    w3 ← write_filters filters w2
    value (written w3)

  unfoldable pub encode_empty : ℕ → PacketType → Result (List ℕ)
  encode_empty size ptype = do
    guard (is_bare ptype) invalid_argument
    w1 ← write_fixed_header ptype 0 false at_most_once false (open_writer size)
    value (written w1)
