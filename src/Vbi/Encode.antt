-- ===== src/Vbi/Encode.antt =====
-- Decoding what `vbi_encode` writes.
use paho_cpp_static.Prelude.{
  ℕ, suc, ◌+◌, ◌*◌, ◌/◌, ◌%◌, ◌^◌, ◌≤◌, ◌<◌, ◌≡◌, refl, List, ◌++◌, length, bit_and, bit_or, arith,
  all_below, agree_below,
}
use paho_cpp_static.Error.{value}
use paho_cpp_static.Packet.{max_remaining_length}
use paho_cpp_static.Vbi.{vbi_size, encode_loop, vbi_encode, decode_loop, vbi_decode}

-- The masks on a group of seven bits, with the top bit clear and set.
last_low : (b : ℕ) → b < 128 → bit_and b 0x7F ≡ b
unfolding all_below
last_low = agree_below _ _ 128 refl

last_top : (b : ℕ) → b < 128 → bit_and b 0x80 ≡ 0
unfolding all_below
last_top = agree_below _ _ 128 refl

inner_low : (b : ℕ) → b < 128 → bit_and (bit_or b 0x80) 0x7F ≡ b
unfolding all_below
inner_low = agree_below _ _ 128 refl

inner_top : (b : ℕ) → b < 128 → bit_and (bit_or b 0x80) 0x80 ≡ 128
unfolding all_below
inner_top = agree_below _ _ 128 refl

-- The sum of one round of the decoding loop.
abbrev pub added : ℕ → ℕ → ℕ → ℕ
added number group multiplier = (number + group * multiplier % 2 ^ 32) % 2 ^ 32

module _ (rest : List ℕ) where
  -- One round on the last byte of an encoding, and on a byte with more behind it.
  last_round :
      (k n i number multiplier : ℕ)
      → n < 128
      → i + 1 ≡ vbi_size (added number n multiplier)
      → decode_loop (suc k) (encode_loop (suc k) n ++ rest) i number multiplier
        ≡ value (record { number = added number n multiplier; bytes = i + 1 })
  unfolding decode_loop encode_loop
  last_round k n i number multiplier h e = ground (arith, last_low n h, last_top n h)

  inner_round :
      (k n i number multiplier : ℕ)
      → 0 < n / 128
      → decode_loop (suc k) (encode_loop (suc k) n ++ rest) i number multiplier
        ≡ decode_loop k
            (encode_loop k (n / 128) ++ rest)
            (i + 1)
            (added number (n % 128) multiplier)
            (multiplier * 128 % 2 ^ 32)
  unfolding decode_loop encode_loop
  inner_round k n i number multiplier h = ground (arith, inner_low (n % 128), inner_top (n % 128))

  -- The fourth byte, then the third, the second and the first, with what the bytes before it gave.
  fourth :
      (n number : ℕ)
      → 0 < n
      → n < 128
      → number < 2097152
      → decode_loop 1 (encode_loop 1 n ++ rest) 3 number 2097152
        ≡ value (record { number = number + n * 2097152; bytes = 4 })
  unfolding vbi_size
  fourth n number p h q = ground (arith, last_round 0 n 3 number 2097152)

  third :
      (n number : ℕ)
      → 0 < n
      → n < 16384
      → number < 16384
      → decode_loop 2 (encode_loop 2 n ++ rest) 2 number 16384
        ≡ value (record { number = number + n * 16384; bytes = vbi_size (number + n * 16384) })
  unfolding vbi_size
  third n number p h q = ground (
    arith,
    last_round 1 n 2 number 16384,
    inner_round 1 n 2 number 16384,
    fourth (n / 128) (added number (n % 128) 16384),
  )

  second :
      (n number : ℕ)
      → 0 < n
      → n < 2097152
      → number < 128
      → decode_loop 3 (encode_loop 3 n ++ rest) 1 number 128
        ≡ value (record { number = number + n * 128; bytes = vbi_size (number + n * 128) })
  unfolding vbi_size
  second n number p h q = ground (
    arith,
    last_round 2 n 1 number 128,
    inner_round 2 n 1 number 128,
    third (n / 128) (added number (n % 128) 128),
  )

  first :
      (n : ℕ)
      → n ≤ max_remaining_length
      → decode_loop 4 (encode_loop 4 n ++ rest) 0 0 1
        ≡ value (record { number = n; bytes = vbi_size n })
  unfolding vbi_size
  first n h =
      ground
        (arith, last_round 3 n 0 0 1, inner_round 3 n 0 0 1, second (n / 128) (added 0 (n % 128) 1))

-- An encoding has the length that `vbi_size` announces.
pub length-encode : (n : ℕ) → n ≤ max_remaining_length → length (encode_loop 4 n) ≡ vbi_size n
unfolding encode_loop vbi_size
length-encode n h = ground arith

pub vbi_decode-encode_loop :
    (n : ℕ) (rest : List ℕ)
    → n ≤ max_remaining_length
    → vbi_decode (encode_loop 4 n ++ rest) ≡ value (record { number = n; bytes = vbi_size n })
unfolding vbi_decode
vbi_decode-encode_loop n rest h = first rest n h

-- Each number up to the MQTT maximum is encoded wherever vbi_size bytes of room are left, in that
-- many bytes, and decodes to itself and to their number, whatever follows.
pub vbi_decode-encode :
    (room n : ℕ) (rest : List ℕ)
    → n ≤ max_remaining_length
    → vbi_size n ≤ room
    → (bytes : List ℕ) × (vbi_encode room n ≡ value bytes)
      × (length bytes ≡ vbi_size n)
      × (vbi_decode (bytes ++ rest) ≡ value (record { number = n; bytes = vbi_size n }))
unfolding vbi_encode
vbi_decode-encode room n rest h fits =
    (encode_loop 4 n, ground arith, length-encode n h, vbi_decode-encode_loop n rest h)

pub vbi_size-le : (n : ℕ) → vbi_size n ≤ 4
unfolding vbi_size
vbi_size-le n = ground arith

pub vbi_encode_ok :
    (room n : ℕ)
    → n ≤ max_remaining_length
    → vbi_size n ≤ room
    → vbi_encode room n ≡ value (encode_loop 4 n)
unfolding vbi_encode
vbi_encode_ok room n h fits = ground arith
