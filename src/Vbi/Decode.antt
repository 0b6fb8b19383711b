-- ===== src/Vbi/Decode.antt =====
-- `vbi_decode` on a stream that is still arriving: a verdict stays when more bytes come.
use paho_cpp_static.Prelude.{
  ℕ, zero, suc, ◌+◌, ◌*◌, ◌%◌, ◌^◌, ◌≤◌, ◌<◌, ◌≡◌, ◌≢◌, refl, List, [], ◌∷◌, ◌++◌, length, bit_and,
  arith, subst, append-nil, ◌∙◌, inl, length-append, inr,
}
use paho_cpp_static.Error.{value, error, incomplete, Result-cases}
use paho_cpp_static.Packet.{VbiDecode, max_remaining_length}
use paho_cpp_static.Vbi.{vbi_size, encode_loop, decode_loop, vbi_decode}
use paho_cpp_static.Vbi.Encode.{length-encode, vbi_decode-encode_loop}

decode_loop-append :
    (k : ℕ) (front more : List ℕ) (i number multiplier : ℕ)
    → decode_loop k front i number multiplier ≢ error incomplete
    → decode_loop k (front ++ more) i number multiplier ≡ decode_loop k front i number multiplier
unfolding decode_loop
decode_loop-append zero front more i number multiplier h = refl
decode_loop-append (suc k) [] more i number multiplier h = absurd (h refl)
decode_loop-append (suc k) (byte ∷ front) more i number multiplier h = ground (
  arith,
  decode_loop-append k front more (i + 1)
      ((number + bit_and byte 0x7F * multiplier % 2 ^ 32) % 2 ^ 32) (multiplier * 128 % 2 ^ 32),
)

-- Once `vbi_decode` gives any answer but Incomplete, bytes that arrive later do not change it.
pub vbi_decode-append :
    (front more : List ℕ)
    → vbi_decode front ≢ error incomplete
    → vbi_decode (front ++ more) ≡ vbi_decode front
unfolding vbi_decode
vbi_decode-append front more h = decode_loop-append 4 front more 0 0 1 h

pub decode_loop-bytes :
    (k : ℕ) (front : List ℕ) (i number multiplier : ℕ) (d : VbiDecode)
    → decode_loop k front i number multiplier ≡ value d
    → (i < d.bytes) × (d.bytes ≤ i + length front)
unfolding decode_loop
decode_loop-bytes zero front i number multiplier d e = ground arith
decode_loop-bytes (suc k) [] i number multiplier d e = ground arith
decode_loop-bytes (suc k) (byte ∷ front) i number multiplier d e = ground (
  arith,
  decode_loop-bytes k front (i + 1) ((number + bit_and byte 0x7F * multiplier % 2 ^ 32) % 2 ^ 32)
      (multiplier * 128 % 2 ^ 32) d,
)

-- A packet's length field that has not arrived whole is Incomplete: so is every proper prefix of the
-- encoding of a number up to the MQTT maximum.
pub vbi_decode_prefix :
    (n byte : ℕ) (front back : List ℕ)
    → n ≤ max_remaining_length
    → encode_loop 4 n ≡ front ++ (byte ∷ back)
    → vbi_decode front ≡ error incomplete
unfolding vbi_decode
vbi_decode_prefix n byte front back h e = elim (Result-cases (vbi_decode front)) [
  | inl (d, p) ↦ ground (
    arith,
    whole,
    vbi_decode-append front (byte ∷ back),
    decode_loop-bytes 4 front 0 0 1 d,
    length-encode n h,
    length-append front (byte ∷ back),
  )
  | inr (x, p) ↦ ground (arith, whole, vbi_decode-append front (byte ∷ back))
]
  where
    whole : vbi_decode (front ++ byte ∷ back) ≡ value (record { number = n; bytes = vbi_size n })
    whole =
        subst (λ l. vbi_decode l ≡ value (record { number = n; bytes = vbi_size n }))
          (append-nil (encode_loop 4 n) ∙ e) (vbi_decode-encode_loop n [] h)
