-- ===== src/Header/RoundTrip.antt =====
-- The first byte of a packet: `from_byte` inverts `to_byte`, and accepts nothing else.
use paho_cpp_static.Prelude.{
  ℕ, zero, suc, ◌<◌, ◌≡◌, refl, subst, ◌↔◌, Bool, true, false, not, ◌&&◌, ◌||◌, leb, ◌==◌, arith,
  all_below, all_below_sound,
}
use paho_cpp_static.Error.{value, error}
use paho_cpp_static.Packet.{PacketType, reserved, publish, FixedHeader}
use paho_cpp_static.Header.{is_publish, to_byte, from_byte}

is_reserved : PacketType → Bool
is_reserved reserved = true
is_reserved t = false

-- A header that from_byte may return, its remaining length not read yet: a type that is not reserved,
-- a QoS of at most 2, and DUP, QoS and RETAIN set in a PUBLISH alone; there at will, DUP at QoS 0
-- included.
unfoldable pub is_plain : FixedHeader → Bool
unfolding is_reserved
is_plain h =
    not (is_reserved h.ptype)
    && leb h.qos 2
    && (is_publish h.ptype || not h.dup && h.qos == 0 && not h.retain)
    && h.remaining_length == 0

abbrev header : PacketType → Bool → ℕ → Bool → ℕ → FixedHeader
header t dup qos retain n = record {
  ptype = t;
  dup = dup;
  qos = qos;
  retain = retain;
  remaining_length = n;
}

back_publish :
    (dup : Bool) (qos : ℕ) (retain : Bool) (n : ℕ)
    → is_plain (header publish dup qos retain n) ≡ true
    → from_byte (to_byte (header publish dup qos retain n))
      ≡ value (header publish dup qos retain n)
unfolding is_plain from_byte to_byte
back_publish true zero true n h = ground arith
back_publish true zero false n h = ground arith
back_publish false zero true n h = ground arith
back_publish false zero false n h = ground arith
back_publish true (suc zero) true n h = ground arith
back_publish true (suc zero) false n h = ground arith
back_publish false (suc zero) true n h = ground arith
back_publish false (suc zero) false n h = ground arith
back_publish true (suc (suc zero)) true n h = ground arith
back_publish true (suc (suc zero)) false n h = ground arith
back_publish false (suc (suc zero)) true n h = ground arith
back_publish false (suc (suc zero)) false n h = ground arith
back_publish dup (suc (suc (suc k))) retain n h = ground arith

back :
    (t : PacketType) (dup : Bool) (qos : ℕ) (retain : Bool) (n : ℕ)
    → is_plain (header t dup qos retain n) ≡ true
    → from_byte (to_byte (header t dup qos retain n)) ≡ value (header t dup qos retain n)
unfolding is_plain from_byte to_byte
back publish dup qos retain n h = back_publish dup qos retain n h
back t dup qos retain n h = ground arith

-- What the table below says of one byte.
exact_at : ℕ → Bool
exact_at b = elim (from_byte b) [ value h ↦ to_byte h == b && is_plain h | error e ↦ true ]

exact_table : all_below 256 exact_at ≡ true
unfolding all_below exact_at from_byte to_byte is_plain
exact_table = refl

read_exact :
    (b : ℕ) (h : FixedHeader)
    → b < 256
    → from_byte b ≡ value h
    → (to_byte h ≡ b) × (is_plain h ≡ true)
unfolding exact_at
read_exact b h lt e = ground (arith, all_below_sound 256 exact_at b exact_table lt)

-- A byte decodes to a header exactly when it is what to_byte makes of that header, the header's type
-- is not reserved, its QoS is at most 2, and DUP, QoS and RETAIN are unset in all but a PUBLISH. In a
-- PUBLISH each of the three may be set: DUP at QoS 0, which the standard forbids, is not refused here.
pub from_byte_exact :
    (b : ℕ) (h : FixedHeader)
    → b < 256
    → (from_byte b ≡ value h) ↔ ((to_byte h ≡ b) × (is_plain h ≡ true))
from_byte_exact b h lt = (
  read_exact b h lt,
  λ p.
      subst (λ c. from_byte c ≡ value h) (p.0)
        (back h.ptype h.dup h.qos h.retain h.remaining_length p.1),
)

pub from_byte-to_byte : (h : FixedHeader) → is_plain h ≡ true → from_byte (to_byte h) ≡ value h
from_byte-to_byte h p = back h.ptype h.dup h.qos h.retain h.remaining_length p
