-- ===== src/Codec/Tests.antt =====
-- Packets on concrete streams, and the theorems there.
use paho_cpp_static.Codec.Connect.Wire.{encode_connect_exact}
use paho_cpp_static.Codec.Connect.{connect_body}
use paho_cpp_static.Codec.Requests.{entries, encode_subscribe_exact}
use paho_cpp_static.Codec.Wire.{fitted, packet, header}
use paho_cpp_static.Codec.Ack.{IsReturnCode, decode_suback_exact}
use paho_cpp_static.Header.{to_byte}
use paho_cpp_static.Vbi.{vbi_encode, vbi_size, encode_loop}
use paho_cpp_static.Utf8.{is_valid_mqtt_string}
use paho_cpp_static.Codec.Sizes.{publish_remaining_length}
use paho_cpp_static.Codec.Publish.{message, decode-encode_publish}
use paho_cpp_static.Packet.{ConnectOptions, TopicSubscription, connect, subscribe}
use paho_cpp_static.Codec.Stream.{list_stream, be16}
use paho_cpp_static.Codec.Encode.{
  encode_publish, write_fixed_header, write_string, encode_connect, encode_subscribe,
}
use paho_cpp_static.Codec.Decode.{PacketPeek, peek_header, decode_publish, decode_suback}
use paho_cpp_static.Error.{value}
use paho_cpp_static.Prelude.{
  [], false, List, ℕ, ◌∷◌, ◌++◌, ◌≡◌, refl, ◌≤◌, take, drop, arith, ◌↔◌, length, All, true,
}

abbrev topic_a : List ℕ
topic_a = 0x61 ∷ 0x2F ∷ 0x62 ∷ []

abbrev publish_bytes : List ℕ
publish_bytes = 0x32 ∷ 0x08 ∷ 0x00 ∷ 0x03 ∷ 0x61 ∷ 0x2F ∷ 0x62 ∷ 0x00 ∷ 0x0A ∷ 0x68 ∷ []

publish_wire :
    encode_publish list_stream 64 topic_a (0x68 ∷ []) 1 false false 10 ≡ value publish_bytes
unfolding encode_publish list_stream publish_remaining_length is_valid_mqtt_string
    write_fixed_header vbi_encode vbi_size encode_loop write_string to_byte
publish_wire = refl

decode-encode_publish_example :
    (p : PacketPeek) × (peek_header (publish_bytes ++ (0xD0 ∷ [])) ≡ value p)
    × (p.total_bytes ≡ 10)
    × (10 ≤ 64)
    × (decode_publish list_stream p.header
          (take p.header.remaining_length (drop p.header_bytes (publish_bytes ++ (0xD0 ∷ []))))
        ≡ value (message topic_a (0x68 ∷ []) 1 false false 10))
decode-encode_publish_example =
    decode-encode_publish list_stream 64 topic_a (0x68 ∷ []) 1 false false 10 publish_bytes
      (0xD0 ∷ []) (omega arith) (omega arith) publish_wire

abbrev granted_and_refused : List ℕ
granted_and_refused = 1 ∷ 0x80 ∷ []

abbrev suback_body : List ℕ
suback_body = 0 ∷ 7 ∷ granted_and_refused

decode_suback_exact_example :
    (decode_suback suback_body
      ≡ value (record { packet_id = 7; return_codes = granted_and_refused }))
    ↔ ((suback_body ≡ be16 7 ++ granted_and_refused)
        × (1 ≤ 7)
        × (7 ≤ 65535)
        × (1 ≤ length granted_and_refused)
        × All IsReturnCode granted_and_refused)
decode_suback_exact_example =
    decode_suback_exact suback_body 7 granted_and_refused
      (omega arith, (omega arith, (omega arith, (omega arith, tt))))

-- "a/#" at QoS 1 and "b" at QoS 0.
abbrev two_filters : List TopicSubscription
two_filters =
    record { filter = b'a' ∷ b'/' ∷ b'#' ∷ []; qos = 1 }
    ∷ record { filter = b'b' ∷ []; qos = 0 }
    ∷ []

encode_subscribe_exact_example :
    encode_subscribe list_stream 20 7 two_filters
    ≡ fitted 20 (
        packet
          (header subscribe false 0 false (length (be16 7 ++ entries two_filters)))
          (be16 7 ++ entries two_filters))
unfolding encode_loop is_valid_mqtt_string
encode_subscribe_exact_example =
    encode_subscribe_exact list_stream 20 7 two_filters (λ e. ground arith)

-- A clean session with a will at QoS 1, a user name and a password.
abbrev options : ConnectOptions
options = record {
  client_id = b'c' ∷ [];
  username = b'u' ∷ [];
  password = b'p' ∷ [];
  will = record { topic = b'w' ∷ []; payload = []; qos = 1; retain = true };
  keep_alive_s = 60;
  clean_session = true;
}

encode_connect_exact_example :
    encode_connect list_stream 64 options
    ≡ fitted 64 (
        packet
          (header connect false 0 false (length (connect_body options)))
          (connect_body options))
unfolding encode_loop is_valid_mqtt_string
encode_connect_exact_example = encode_connect_exact list_stream 64 options
