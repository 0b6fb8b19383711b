-- ===== src/Header.antt =====
-- FixedHeader::to_byte and FixedHeader::from_byte of src/packet.cpp.
pub mod RoundTrip
mod Tests
use paho_cpp_static.Prelude.{
  ℕ, ◌*◌, ◌/◌, ◌%◌, Bool, true, false, not, ◌||◌, bit_and, bit_or, ltb, ◌==◌, if◌then◌else◌,
}
use paho_cpp_static.Error.{Result, value, error, malformed_packet}
use paho_cpp_static.Packet.{
  PacketType, reserved, connect, connack, publish, puback, pubrec, pubrel, pubcomp, subscribe,
  suback, unsubscribe, unsuback, pingreq, pingresp, disconnect, type_code, FixedHeader,
}

-- `t == PacketType::Publish`.
abbrev pub is_publish : PacketType → Bool
is_publish publish = true
is_publish t = false

-- The three types whose flags are 0b0010.
abbrev pub has_fixed_flag : PacketType → Bool
has_fixed_flag pubrel = true
has_fixed_flag subscribe = true
has_fixed_flag unsubscribe = true
has_fixed_flag t = false

-- `b |= mask` under a test.
abbrev set_if : Bool → ℕ → ℕ → ℕ
set_if test mask b = if test then bit_or b mask else b

unfoldable pub to_byte : FixedHeader → ℕ
unfolding type_code
to_byte h =
    let b = type_code h.ptype * 16 % 256 in
    if is_publish h.ptype
    then set_if h.retain 0x01 (bit_or (set_if h.dup 0x08 b) (bit_and h.qos 0x03 * 2 % 256))
    else if has_fixed_flag h.ptype
    then bit_or b 0x02
    else b

-- `static_cast<PacketType>(nibble)`, which `from_byte` reaches for 1 to 14 only.
unfoldable pub type_of_code : ℕ → PacketType
type_of_code n =
    if n == 1
    then connect
    else if n == 2
    then connack
    else if n == 3
    then publish
    else if n == 4
    then puback
    else if n == 5
    then pubrec
    else if n == 6
    then pubrel
    else if n == 7
    then pubcomp
    else if n == 8
    then subscribe
    else if n == 9
    then suback
    else if n == 10
    then unsubscribe
    else if n == 11
    then unsuback
    else if n == 12
    then pingreq
    else if n == 13
    then pingresp
    else if n == 14
    then disconnect
    else reserved

-- The header after its flags are read, with the remaining length still 0.
abbrev pub header_of : PacketType → Bool → ℕ → Bool → FixedHeader
header_of t dup qos retain = record {
  ptype = t;
  dup = dup;
  qos = qos;
  retain = retain;
  remaining_length = 0;
}

read_flags : PacketType → ℕ → Result FixedHeader
read_flags t flags =
    let q = bit_and (flags / 2) 0x03 in
    let expected : ℕ = if has_fixed_flag t then 0x02 else 0x00 in
    if is_publish t
    then if ltb 2 q
      then error malformed_packet
      else value (header_of t (not (bit_and flags 0x08 == 0)) q (not (bit_and flags 0x01 == 0)))
    else if flags == expected
    then value (header_of t false 0 false)
    else error malformed_packet

unfoldable pub from_byte : ℕ → Result FixedHeader
unfolding type_of_code read_flags type_code
from_byte b =
    let nibble = bit_and (b / 16) 0x0F in
    let flags = bit_and b 0x0F in
    if nibble == 0 || ltb (type_code disconnect) nibble
    then error malformed_packet
    else read_flags (type_of_code nibble) flags
