-- ===== src/Codec/Ack.antt =====
-- The bodies of the acknowledgements: decode_packet_id.
use paho_cpp_static.Packet.{suback_failure}
use paho_cpp_static.Codec.Stream.{be16}
use paho_cpp_static.Codec.Decode.{decode_packet_id, decode_suback, codes_ok}
use paho_cpp_static.Error.{value}
use paho_cpp_static.Prelude.{
  [], List, ℕ, All, IsByte, ◌≡◌, ◌↔◌, ◌≤◌, arith, ◌∷◌, ◌<◌, ◌*◌, ◌+◌, ◌/◌, ◌%◌, refl, true, ◌⊎◌,
  ◌++◌, length,
}

reads :
    {a b id : ℕ}
    → a < 256
    → b < 256
    → decode_packet_id (a ∷ b ∷ []) ≡ value id
    → ((a ∷ b ∷ []) ≡ be16 id) × (1 ≤ id) × (id ≤ 65535)
unfolding decode_packet_id
reads {a} {b} {id} ha hb e = (two (omega (arith, n)), omega (arith, n), omega (arith, n))
  where
    n : (a * 256 + b ≡ id) × (1 ≤ id)
    n = ground arith

    two : (a ≡ id / 256) × (b ≡ id % 256) → (a ∷ b ∷ []) ≡ be16 id
    two p = rw (← p.0, ← p.1) refl

-- Of the bodies of bytes, `decode_packet_id` accepts exactly the two bytes of a packet id from 1 to
-- 65535, the most significant first, and returns that id.
pub decode_packet_id_exact :
    (body : List ℕ) (id : ℕ)
    → All IsByte body
    → (decode_packet_id body ≡ value id) ↔ ((body ≡ be16 id) × (1 ≤ id) × (id ≤ 65535))
unfolding decode_packet_id
decode_packet_id_exact [] id h = (λ e. absurd (ground arith), λ p. absurd (ground arith))
decode_packet_id_exact (a ∷ []) id h = (λ e. absurd (ground arith), λ p. absurd (ground arith))
decode_packet_id_exact (a ∷ b ∷ []) id h = (λ e. reads (h.0) (h.1.0) e, λ p. ground arith)
decode_packet_id_exact (a ∷ b ∷ c ∷ rest) id h =
    (λ e. absurd (ground arith), λ p. absurd (ground arith))

-- A return code of SUBACK: a granted QoS, or the refusal.
abbrev pub IsReturnCode : ℕ → Type 0
IsReturnCode c = (c ≤ 2) ⊎ (c ≡ suback_failure)

codes_ok_iff : (codes : List ℕ) → (codes_ok codes ≡ true) ↔ All IsReturnCode codes
unfolding codes_ok
codes_ok_iff [] = (λ e. tt, λ p. refl)
codes_ok_iff (c ∷ codes) = (
  λ e. (ground arith, (codes_ok_iff codes).0 (ground arith)),
  λ p. ground (arith, (codes_ok_iff codes).1 p.1),
)

reads_codes :
    {a b id : ℕ} {rest codes : List ℕ}
    → a < 256
    → b < 256
    → decode_suback (a ∷ b ∷ rest) ≡ value (record { packet_id = id; return_codes = codes })
    → ((a ∷ b ∷ rest) ≡ be16 id ++ codes)
      × (1 ≤ id)
      × (id ≤ 65535)
      × (1 ≤ length codes)
      × All IsReturnCode codes
unfolding decode_suback
reads_codes {a} {b} {id} {rest} {codes} ha hb e =
    (two (omega (arith, n.0)) n.2, n.1, omega (arith, n.0), n.3, (codes_ok_iff codes).0 n.4)
  where
    n :
        (a * 256 + b ≡ id)
        × (1 ≤ id)
        × (rest ≡ codes)
        × (1 ≤ length codes)
        × (codes_ok codes ≡ true)
    n = ground arith

    two : (a ≡ id / 256) × (b ≡ id % 256) → rest ≡ codes → (a ∷ b ∷ rest) ≡ be16 id ++ codes
    two p q = rw (← p.0, ← p.1, q) refl

-- Of the bodies of bytes, `decode_suback` accepts exactly a packet id from 1 to 65535 with one
-- return code behind it at least, each of which is a granted QoS or the refusal.
pub decode_suback_exact :
    (body : List ℕ) (id : ℕ) (codes : List ℕ)
    → All IsByte body
    → (decode_suback body ≡ value (record { packet_id = id; return_codes = codes })) ↔ (
        (body ≡ be16 id ++ codes)
        × (1 ≤ id)
        × (id ≤ 65535)
        × (1 ≤ length codes)
        × All IsReturnCode codes)
unfolding decode_suback
decode_suback_exact [] id codes h = (λ e. absurd (ground arith), λ p. absurd (ground arith))
decode_suback_exact (a ∷ []) id codes h = (λ e. absurd (ground arith), λ p. absurd (ground arith))
decode_suback_exact (a ∷ b ∷ rest) id codes h =
    (λ e. reads_codes (h.0) (h.1.0) e, λ p. ground (arith, p, (codes_ok_iff codes).1 p.4))
