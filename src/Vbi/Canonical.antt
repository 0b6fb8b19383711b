-- ===== src/Vbi/Canonical.antt =====
-- `vbi_decode` accepts the shortest encoding alone.
use paho_cpp_static.Prelude.{
  ℕ, suc, ◌+◌, ◌-◌, ◌*◌, ◌/◌, ◌%◌, ◌^◌, ◌≤◌, ◌<◌, ◌≡◌, ◌≢◌, List, [], ◌∷◌, take, bit_and, arith,
  low_seven, top_bit, set_top_bit, Bool-cases, ◌==◌, inl, inr, zero, All, IsByte,
}
use paho_cpp_static.Error.{value}
use paho_cpp_static.Packet.{VbiDecode, max_remaining_length}
use paho_cpp_static.Vbi.{vbi_size, encode_loop, decode_loop, vbi_decode, vbi_encode}
use paho_cpp_static.Vbi.Decode.{decode_loop-bytes}
use paho_cpp_static.Vbi.Encode.{added}

encode_last : (k n : ℕ) → n < 128 → encode_loop (suc k) n ≡ n ∷ []
unfolding encode_loop
encode_last k n h = ground arith

encode_inner :
    (k byte n : ℕ)
    → byte < 256
    → 128 ≤ byte
    → 0 < n
    → encode_loop (suc k) (byte % 128 + 128 * n) ≡ byte ∷ encode_loop k n
unfolding encode_loop
encode_inner k byte n h p q =
    let e : (byte % 128 + 128 * n) / 128 ≡ n = omega arith in
    let f : (byte % 128 + 128 * n) % 128 % 256 ≡ byte % 128 = omega arith in
    rw (e, f) (ground (arith, set_top_bit (byte % 128)))

-- What is known of a run of the loop that ends with the number `d`: it read the encoding of some
-- `n`, which counts `multiplier` times.
abbrev Reads : ℕ → List ℕ → ℕ → ℕ → ℕ → VbiDecode → Type 0
Reads k bytes i number multiplier d =
    (n : ℕ) × (d.number ≡ number + n * multiplier)
    × (take (d.bytes - i) bytes ≡ encode_loop k n)
    × (d.bytes ≡ vbi_size d.number)

module _ (k byte : ℕ) (rest : List ℕ) (i number multiplier : ℕ) (d : VbiDecode) where
  -- The round on a byte that ends the number, and on one that does not.
  ends :
      byte < 256
      → bit_and byte 0x80 ≡ 0
      → decode_loop (suc k) (byte ∷ rest) i number multiplier ≡ value d
      → (byte < 128)
        × (d.number ≡ added number byte multiplier)
        × (d.bytes ≡ i + 1)
        × (d.bytes ≡ vbi_size d.number)
  unfolding decode_loop
  ends h t e = ground (arith, low_seven byte h, top_bit byte h)

  goes_on :
      byte < 256
      → bit_and byte 0x80 ≢ 0
      → decode_loop (suc k) (byte ∷ rest) i number multiplier ≡ value d
      → (128 ≤ byte)
        × (decode_loop k rest
              (i + 1)
              (added number (byte % 128) multiplier)
              (multiplier * 128 % 2 ^ 32)
            ≡ value d)
  unfolding decode_loop
  goes_on h t e = ground (arith, low_seven byte h, top_bit byte h)

  -- One round turns what is known of the later rounds into what is known of this one.
  round :
      byte < 256
      → (128 ≤ byte
          → decode_loop k rest
              (i + 1)
              (added number (byte % 128) multiplier)
              (multiplier * 128 % 2 ^ 32)
            ≡ value d
          → (n : ℕ) × (0 < n)
            × (d.number ≡ number + (byte % 128 + 128 * n) * multiplier)
            × (take (d.bytes - (i + 1)) rest ≡ encode_loop k n)
            × (d.bytes ≡ vbi_size d.number))
      → number + byte * multiplier < 2 ^ 32
      → decode_loop (suc k) (byte ∷ rest) i number multiplier ≡ value d
      → Reads (suc k) (byte ∷ rest) i number multiplier d
  round h later small e = elim (Bool-cases (bit_and byte 0x80 == 0)) [
    | inl t ↦
        let (lt, num, at, sz) = ends h (ground arith) e in
        let one : d.bytes - i ≡ suc zero = omega arith in
        (byte, omega arith, rw (one, encode_last k byte lt), sz)
    | inr t ↦
        let (ge, more) = goes_on h (ground arith) e in
        let (n, pos, num, tk, sz) = later ge more in
        let past : i + 1 < d.bytes = (decode_loop-bytes k rest (i + 1) _ _ d more).0 in
        let next : d.bytes - i ≡ suc (d.bytes - (i + 1)) = omega arith in
        (byte % 128 + 128 * n, num, rw (next, encode_inner k byte n h ge pos, tk), sz)
  ]

fourth :
    (bytes : List ℕ) (number : ℕ) (d : VbiDecode)
    → All IsByte bytes
    → number < 2097152
    → decode_loop 1 bytes 3 number 2097152 ≡ value d
    → Reads 1 bytes 3 number 2097152 d
unfolding vbi_size
fourth [] number d h q e = unfold decode_loop in cc
fourth (byte ∷ rest) number d h q e = round 0 byte rest 3 number 2097152 d h.0 later (omega arith) e
  where
    later :
        128 ≤ byte
        → decode_loop 0 rest (3 + 1) (added number (byte % 128) 2097152) (2097152 * 128 % 2 ^ 32)
          ≡ value d
        → (n : ℕ) × (0 < n)
          × (d.number ≡ number + (byte % 128 + 128 * n) * 2097152)
          × (take (d.bytes - (3 + 1)) rest ≡ encode_loop 0 n)
          × (d.bytes ≡ vbi_size d.number)
    later ge more = unfold decode_loop in cc

third :
    (bytes : List ℕ) (number : ℕ) (d : VbiDecode)
    → All IsByte bytes
    → number < 16384
    → decode_loop 2 bytes 2 number 16384 ≡ value d
    → Reads 2 bytes 2 number 16384 d
unfolding vbi_size
third [] number d h q e = unfold decode_loop in cc
third (byte ∷ rest) number d h q e = round 1 byte rest 2 number 16384 d h.0 later (omega arith) e
  where
    later :
        128 ≤ byte
        → decode_loop 1 rest (2 + 1) (added number (byte % 128) 16384) (16384 * 128 % 2 ^ 32)
          ≡ value d
        → (n : ℕ) × (0 < n)
          × (d.number ≡ number + (byte % 128 + 128 * n) * 16384)
          × (take (d.bytes - (2 + 1)) rest ≡ encode_loop 1 n)
          × (d.bytes ≡ vbi_size d.number)
    later ge more =
        let (n, num, tk, sz) =
          fourth rest (added number (byte % 128) 16384) d h.1 (omega arith) more in
        let past : 2 + 1 < d.bytes = (decode_loop-bytes 1 rest (2 + 1) _ _ d more).0 in
        (n, ground arith, omega arith, tk, sz)

second :
    (bytes : List ℕ) (number : ℕ) (d : VbiDecode)
    → All IsByte bytes
    → number < 128
    → decode_loop 3 bytes 1 number 128 ≡ value d
    → Reads 3 bytes 1 number 128 d
unfolding vbi_size
second [] number d h q e = unfold decode_loop in cc
second (byte ∷ rest) number d h q e = round 2 byte rest 1 number 128 d h.0 later (omega arith) e
  where
    later :
        128 ≤ byte
        → decode_loop 2 rest (1 + 1) (added number (byte % 128) 128) (128 * 128 % 2 ^ 32) ≡ value d
        → (n : ℕ) × (0 < n)
          × (d.number ≡ number + (byte % 128 + 128 * n) * 128)
          × (take (d.bytes - (1 + 1)) rest ≡ encode_loop 2 n)
          × (d.bytes ≡ vbi_size d.number)
    later ge more =
        let (n, num, tk, sz) =
          third rest (added number (byte % 128) 128) d h.1 (omega arith) more in
        let past : 1 + 1 < d.bytes = (decode_loop-bytes 2 rest (1 + 1) _ _ d more).0 in
        (n, ground arith, omega arith, tk, sz)

first :
    (bytes : List ℕ) (number : ℕ) (d : VbiDecode)
    → All IsByte bytes
    → number < 1
    → decode_loop 4 bytes 0 number 1 ≡ value d
    → Reads 4 bytes 0 number 1 d
unfolding vbi_size
first [] number d h q e = unfold decode_loop in cc
first (byte ∷ rest) number d h q e = round 3 byte rest 0 number 1 d h.0 later (omega arith) e
  where
    later :
        128 ≤ byte
        → decode_loop 3 rest (0 + 1) (added number (byte % 128) 1) (1 * 128 % 2 ^ 32) ≡ value d
        → (n : ℕ) × (0 < n)
          × (d.number ≡ number + (byte % 128 + 128 * n) * 1)
          × (take (d.bytes - (0 + 1)) rest ≡ encode_loop 3 n)
          × (d.bytes ≡ vbi_size d.number)
    later ge more =
        let (n, num, tk, sz) = second rest (added number (byte % 128) 1) d h.1 (omega arith) more in
        let past : 0 + 1 < d.bytes = (decode_loop-bytes 3 rest (0 + 1) _ _ d more).0 in
        (n, ground arith, omega arith, tk, sz)

-- A length field that is accepted is at most the MQTT maximum, and is the one encoding that
-- `vbi_encode` writes for its number: no second spelling of a number is accepted.
pub vbi_decode_canonical :
    (bytes : List ℕ) (d : VbiDecode)
    → All IsByte bytes
    → vbi_decode bytes ≡ value d
    → (d.number ≤ max_remaining_length) × (vbi_encode d.bytes d.number ≡ value (take d.bytes bytes))
unfolding vbi_decode vbi_encode vbi_size
vbi_decode_canonical bytes d h e =
    let (n, num, tk, sz) = first bytes 0 d h (omega arith) e in
    let past : 0 < d.bytes = (decode_loop-bytes 4 bytes 0 0 1 d e).0 in
    let same : n ≡ d.number = omega arith in (ground arith, rw (← same) (ground (arith, tk)))
