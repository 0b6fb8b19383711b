-- ===== src/Vbi/Tests.antt =====
-- The variable byte integer at concrete inputs.
use paho_cpp_static.Vbi.Canonical.{vbi_decode_canonical}
use paho_cpp_static.Vbi.Encode.{vbi_decode-encode}
use paho_cpp_static.Packet.{max_remaining_length}
use paho_cpp_static.Vbi.{
  vbi_encode, vbi_decode, encode_loop, vbi_size, max_remaining_length, decode_loop,
}
use paho_cpp_static.Prelude.{[], ◌≤◌, List, ◌∷◌, ℕ, ◌≡◌, ◌++◌, length, take, refl, arith}
use paho_cpp_static.Error.{value, error, malformed_packet}

abbrev n321 : List ℕ
n321 = 0xC1 ∷ 0x02 ∷ []

encode_321 : vbi_encode 4 321 ≡ value n321
unfolding vbi_encode vbi_size encode_loop
encode_321 = refl

overlong_zero : vbi_decode (0x80 ∷ 0x00 ∷ []) ≡ error malformed_packet
unfolding vbi_decode decode_loop vbi_size
overlong_zero = refl

five_bytes : vbi_decode (0x80 ∷ 0x80 ∷ 0x80 ∷ 0x80 ∷ 0x01 ∷ []) ≡ error malformed_packet
unfolding vbi_decode decode_loop
five_bytes = refl

decoded_321 : vbi_decode (0xC1 ∷ 0x02 ∷ 0x07 ∷ []) ≡ value (record { number = 321; bytes = 2 })
unfolding vbi_decode decode_loop vbi_size
decoded_321 = refl

whole_321 : vbi_decode n321 ≡ value (record { number = 321; bytes = 2 })
unfolding vbi_decode decode_loop vbi_size
whole_321 = refl

vbi_decode-encode_example :
    (bytes : List ℕ) × (vbi_encode 4 321 ≡ value bytes)
    × (length bytes ≡ vbi_size 321)
    × (vbi_decode (bytes ++ (7 ∷ [])) ≡ value (record { number = 321; bytes = vbi_size 321 }))
unfolding vbi_size
vbi_decode-encode_example = vbi_decode-encode 4 321 (7 ∷ []) (omega arith) (omega arith)

vbi_decode_canonical_example :
    (321 ≤ max_remaining_length) × (vbi_encode 2 321 ≡ value (take 2 (0xC1 ∷ 0x02 ∷ 0x07 ∷ [])))
vbi_decode_canonical_example =
    vbi_decode_canonical (0xC1 ∷ 0x02 ∷ 0x07 ∷ []) (record { number = 321; bytes = 2 })
      (omega arith, (omega arith, (omega arith, tt))) decoded_321
