-- ===== src/Vbi.antt =====
-- The variable byte integer of src/packet.cpp: vbi_size, vbi_encode, vbi_decode, and the sizes of a
-- fixed header. An output span is given by its size, and what is written to it is the result.
pub mod Encode
pub mod Decode
pub mod Canonical
mod Tests
use paho_cpp_static.Prelude.{
  ℕ, zero, suc, ◌+◌, ◌*◌, ◌/◌, ◌%◌, ◌^◌, List, [], ◌∷◌, bit_and, bit_or, ltb, ◌==◌, if◌then◌else◌,
}
use paho_cpp_static.Error.{
  Result, value, error, invalid_argument, buffer_too_small, incomplete, malformed_packet,
}
use paho_cpp_static.Packet.{FixedHeader, VbiDecode, max_remaining_length, max_vbi_bytes}

unfoldable pub vbi_size : ℕ → ℕ
vbi_size n =
    if ltb max_remaining_length n
    then 0
    else if ltb n 128
    then 1
    else if ltb n 16384
    then 2
    else if ltb n 2097152
    then 3
    else 4

unfoldable pub header_size : FixedHeader → ℕ
header_size h = let n = vbi_size h.remaining_length in if n == 0 then 0 else 1 + n

unfoldable pub total_size : FixedHeader → ℕ
total_size h = header_size h + h.remaining_length

-- The do-while loop. Its rounds divide a number below 128 ^ 4 by 128, so four of them are enough.
unfoldable pub encode_loop : ℕ → ℕ → List ℕ
encode_loop zero n = []
encode_loop (suc rounds) n =
    let byte = n % 128 % 256 in
    let more = bit_or byte 0x80 ∷ encode_loop rounds (n / 128) in
    if ltb 0 (n / 128) then more else byte ∷ []

unfoldable pub vbi_encode : ℕ → ℕ → Result (List ℕ)
vbi_encode room n =
    if ltb max_remaining_length n
    then error invalid_argument
    else if ltb room (vbi_size n)
    then error buffer_too_small
    else value (encode_loop max_vbi_bytes n)

-- The for loop: `rounds` is what is left of kMaxVbiBytes, and `i` counts the bytes that are read.
unfoldable pub decode_loop : ℕ → List ℕ → ℕ → ℕ → ℕ → Result VbiDecode
decode_loop zero bytes i number multiplier = error malformed_packet
decode_loop (suc rounds) [] i number multiplier = error incomplete
decode_loop (suc rounds) (byte ∷ rest) i number multiplier =
    let number' = (number + bit_and byte 0x7F * multiplier % 2 ^ 32) % 2 ^ 32 in
    let more = decode_loop rounds rest (i + 1) number' (multiplier * 128 % 2 ^ 32) in
    if bit_and byte 0x80 == 0
    then if i + 1 == vbi_size number'
      then value (record { number = number'; bytes = i + 1 })
      else error malformed_packet
    else more

unfoldable pub vbi_decode : List ℕ → Result VbiDecode
vbi_decode bytes = decode_loop max_vbi_bytes bytes 0 0 1
