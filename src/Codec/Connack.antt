-- ===== src/Codec/Connack.antt =====
-- The body of CONNACK: decode_connack.
use paho_cpp_static.Codec.Decode.{connack_code_of, decode_connack}
use paho_cpp_static.Packet.{connack_number, ConnackCode}
use paho_cpp_static.Prelude.{
  [], false, all_below, Bool, ℕ, List, ◌≤◌, ◌≡◌, if◌then◌else◌, All, ◌<◌, arith, IsByte, bit_and,
  ◌/◌, ◌↔◌, ◌%◌, agree_below, ◌∷◌, ◌*◌, ◌&&◌, refl, not, ◌==◌, sym, ◌∙◌, ap,
}
use paho_cpp_static.Error.{value}

high_bits : (b : ℕ) → b < 256 → bit_and b 0xFE ≡ b / 2 * 2
unfolding all_below
high_bits = agree_below _ _ 256 refl

low_bit : (b : ℕ) → b < 256 → bit_and b 0x01 ≡ b % 2
unfolding all_below
low_bit = agree_below _ _ 256 refl

number-code_of : (n : ℕ) → n ≤ 5 → connack_number (connack_code_of n) ≡ n
unfolding connack_code_of connack_number
number-code_of n h = ground arith

code_of-number : (c : ConnackCode) → connack_code_of (connack_number c) ≡ c
unfolding connack_code_of connack_number
code_of-number c = ground arith

number-upper : (c : ConnackCode) → connack_number c ≤ 5
unfolding connack_number
number-upper c = ground arith

-- The acknowledge flags of a CONNACK.
abbrev pub connack_flags : Bool → ℕ
connack_flags session_present = if session_present then 1 else 0

module _ {a b : ℕ} {code : ConnackCode} {session : Bool} (ha : a < 256) (hb : b < 256) where
  reads :
      decode_connack (a ∷ b ∷ []) ≡ value (record { code = code; session_present = session })
      → ((a ∷ b ∷ []) ≡ connack_flags session ∷ connack_number code ∷ [])
        × ((session && not (connack_number code == 0)) ≡ false)
  unfolding decode_connack
  reads e = (two flags number, ground (arith, number, n.4))
    where
      n :
          (b ≤ 5)
          × (connack_code_of b ≡ code)
          × (bit_and a 0xFE ≡ 0)
          × (not (bit_and a 0x01 == 0) ≡ session)
          × ((session && not (b == 0)) ≡ false)
      n = ground arith

      number : b ≡ connack_number code
      number = sym (number-code_of b n.0) ∙ ap connack_number n.1

      flags : a ≡ connack_flags session
      flags = ground (arith, n, high_bits a ha, low_bit a ha)

      two : {x y : ℕ} → a ≡ x → b ≡ y → (a ∷ b ∷ []) ≡ x ∷ y ∷ []
      two p q = rw (p, q) refl

  writes :
      ((a ∷ b ∷ []) ≡ connack_flags session ∷ connack_number code ∷ [])
        × ((session && not (connack_number code == 0)) ≡ false)
      → decode_connack (a ∷ b ∷ []) ≡ value (record { code = code; session_present = session })
  unfolding decode_connack
  writes p = ground (arith, p, high_bits a ha, low_bit a ha, number-upper code, code_of-number code)

-- Of the bodies of bytes, `decode_connack` accepts exactly the two bytes of a known return code and
-- of flags that report a session only with the code Accepted, and returns the two.
pub decode_connack_exact :
    (body : List ℕ) (code : ConnackCode) (session_present : Bool)
    → All IsByte body
    → (decode_connack body ≡ value (record { code = code; session_present = session_present })) ↔ (
        (body ≡ connack_flags session_present ∷ connack_number code ∷ [])
        × ((session_present && not (connack_number code == 0)) ≡ false))
unfolding decode_connack
decode_connack_exact [] code session h = (λ e. absurd (ground arith), λ p. absurd (ground arith))
decode_connack_exact (a ∷ []) code session h =
    (λ e. absurd (ground arith), λ p. absurd (ground arith))
decode_connack_exact (a ∷ b ∷ c ∷ rest) code session h =
    (λ e. absurd (ground arith), λ p. absurd (ground arith))
decode_connack_exact (a ∷ b ∷ []) code session h =
    (λ e. reads (h.0) (h.1.0) e, writes (h.0) (h.1.0))
