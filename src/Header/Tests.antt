-- ===== src/Header/Tests.antt =====
-- The fixed header at concrete inputs.
use paho_cpp_static.Header.RoundTrip.{is_plain, from_byte_exact}
use paho_cpp_static.Header.{to_byte, from_byte, PacketType}
use paho_cpp_static.Packet.{FixedHeader, PacketType}
use paho_cpp_static.Prelude.{true, false, ◌≡◌, ◌↔◌, refl, arith}
use paho_cpp_static.Error.{value, error, malformed_packet}

abbrev publish_1 : FixedHeader
publish_1 = record {
  ptype = PacketType.publish;
  dup = true;
  qos = 1;
  retain = false;
  remaining_length = 0;
}

publish_byte : to_byte publish_1 ≡ 0x3A
unfolding to_byte
publish_byte = refl

bad_pubrel_flags : from_byte 0x60 ≡ error malformed_packet
unfolding from_byte
bad_pubrel_flags = refl

from_byte_exact_example :
    (from_byte 0x3A ≡ value publish_1) ↔ ((to_byte publish_1 ≡ 0x3A) × (is_plain publish_1 ≡ true))
from_byte_exact_example = from_byte_exact 0x3A publish_1 (omega arith)
