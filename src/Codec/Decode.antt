-- ===== src/Codec/Decode.antt =====
-- The decoders of src/codec.cpp. A body is the list of its bytes, and so is each view into it.
use paho_cpp_static.Utf8.{is_valid_mqtt_string}
use paho_cpp_static.Vbi.{vbi_decode}
use paho_cpp_static.Header.{from_byte}
use paho_cpp_static.Error.{
  Result, error, ◌>>◌, incomplete, ◌>>=◌, guard, malformed_packet, protocol_violation, value,
}
use paho_cpp_static.Prelude.{
  ℕ, List, get_or, Bool, ◌*◌, if◌then◌else◌, true, ◌∷◌, ◌==◌, ◌%◌, not, leb, ◌+◌, length, ltb,
  is_empty, ◌&&◌, bit_and, drop, false, [], ◌-◌, some, none,
}
use paho_cpp_static.Packet.{
  FixedHeader, connack_number, ConnackCode, ConnackInfo, Message, accepted,
  unacceptable_protocol_version, identifier_rejected, suback_failure, not_authorized,
  server_unavailable, bad_username_or_password, at_most_once,
}
use Prim.Native.Nat.{ℕ, bit_and}
use paho_cpp_static.Codec.Stream.{ByteStream}

pub record PacketPeek : Type 0 where
  pub header : FixedHeader
  pub header_bytes : ℕ
  pub total_bytes : ℕ

pub record SubackView : Type 0 where
  pub packet_id : ℕ
  pub return_codes : List ℕ

unfoldable pub peek_header : List ℕ → Result PacketPeek
peek_header [] = error incomplete
peek_header (first ∷ rest) = do
  h ← from_byte first
  vbi ← vbi_decode rest
  value (record {
    header = record h { remaining_length = vbi.number };
    header_bytes = 1 + vbi.bytes;
    total_bytes = 1 + vbi.bytes + vbi.number;
  })

-- `static_cast<ConnackCode>(n)`, which is reached for 0 to 5 only.
unfoldable pub connack_code_of : ℕ → ConnackCode
connack_code_of n =
    if n == 0
    then accepted
    else if n == 1
    then unacceptable_protocol_version
    else if n == 2
    then identifier_rejected
    else if n == 3
    then server_unavailable
    else if n == 4
    then bad_username_or_password
    else not_authorized

unfoldable pub decode_connack : List ℕ → Result ConnackInfo
unfolding connack_code_of connack_number
decode_connack body = do
  let flags = get_or body 0 0
  let code = get_or body 1 0
  guard (length body == 2) malformed_packet
  guard (bit_and flags 0xFE == 0) protocol_violation
  guard (leb code (connack_number not_authorized)) protocol_violation
  guard (not (not (bit_and flags 0x01 == 0) && not (code == 0))) protocol_violation
  value (record { code = connack_code_of code; session_present = not (bit_and flags 0x01 == 0) })

-- `static_cast<uint16_t>(body[0] << 8) | body[1]`: the operands share no bit.
abbrev pub id_of : List ℕ → ℕ
id_of body = get_or body 0 0 * 256 % 65536 + get_or body 1 0

unfoldable pub decode_packet_id : List ℕ → Result ℕ
decode_packet_id body = do
  guard (length body == 2) malformed_packet
  guard (not (id_of body == 0)) protocol_violation
  value (id_of body)

-- The loop over SUBACK's return codes.
unfoldable pub codes_ok : List ℕ → Bool
codes_ok [] = true
codes_ok (c ∷ codes) = if ltb 2 c && not (c == suback_failure) then false else codes_ok codes

unfoldable pub decode_suback : List ℕ → Result SubackView
unfolding codes_ok
decode_suback body = do
  guard (leb 3 (length body)) malformed_packet
  guard (not (id_of body == 0)) protocol_violation
  guard (codes_ok (drop 2 body)) protocol_violation
  value (record { packet_id = id_of body; return_codes = drop 2 body })

module _ (bs : ByteStream) where
  open bs use {Reader, open_reader, read_u16, read_block, available_bytes}

  -- The string, behind its checks.
  unfoldable pub read_checked : ℕ → Reader → Result (List ℕ × Reader)
  read_checked len r = elim (read_block len r) [
    | none ↦ error malformed_packet
    | some (s, r') ↦ if is_valid_mqtt_string s then value (s, r') else error malformed_packet
  ]

  unfoldable pub read_string : Reader → Result (List ℕ × Reader)
  unfolding read_checked
  read_string r = elim (read_u16 r) [
    | none ↦ error malformed_packet
    | some (len, r') ↦ if len == 0 then value ([], r') else read_checked len r'
  ]

  -- The packet id of QoS 1 and 2, and the test on DUP at QoS 0.
  unfoldable pub read_publish_id : FixedHeader → Reader → Result (ℕ × Reader)
  read_publish_id header r =
      if not (header.qos == at_most_once)
      then (elim (read_u16 r) [
        | none ↦ error malformed_packet
        | some (id, r') ↦ if id == 0 then error protocol_violation else value (id, r')
      ])
      else if header.dup
      then error protocol_violation
      else value (0, r)

  unfoldable pub decode_publish : FixedHeader → List ℕ → Result Message
  unfolding read_string read_publish_id
  decode_publish header body = do
    (topic, r1) ← read_string (open_reader body)
    guard (not (is_empty topic)) protocol_violation
    (id, r2) ← read_publish_id header r1
    let consumed = length body - available_bytes r2
    value (record {
      topic = topic;
      payload = drop consumed body;
      qos = header.qos;
      retain = header.retain;
      dup = header.dup;
      packet_id = id;
    })
