-- ===== src/Codec/Wire.antt =====
-- The packets on the wire, byte by byte, and the encoders against them.
use paho_cpp_static.Vbi.Encode.{length-encode, vbi_decode-encode_loop}
use paho_cpp_static.Header.RoundTrip.{is_plain, from_byte-to_byte}
use paho_cpp_static.Codec.Decode.{peek_header}
use paho_cpp_static.Codec.Sizes.{publish_remaining_length}
use paho_cpp_static.Codec.Writes.{
  Ends-fresh, Ends-then, Writes-header, Writes-string, Writes-u16, Ends-written, Writes-if,
  Writes-payload,
}
use paho_cpp_static.Vbi.{encode_loop, vbi_size, vbi_decode}
use paho_cpp_static.Codec.Encode.{
  encode_empty, encode_ack, is_ack, is_bare, or_too_small, encode_publish,
}
use paho_cpp_static.Header.{to_byte, from_byte}
use paho_cpp_static.Codec.Stream.{ByteStream, be16}
use paho_cpp_static.Packet.{FixedHeader, PacketType, QoS, max_remaining_length, publish}
use paho_cpp_static.Error.{error, value, Result, buffer_too_small}
use paho_cpp_static.Prelude.{
  false, [], true, List, ℕ, Bool, length, ◌∷◌, ◌++◌, if◌then◌else◌, leb, not, ◌≤◌, ◌≡◌, ◌≢◌, ◌==◌,
  arith, ◌&&◌, suc, take, ◌+◌, drop, length-append, ap, ◌∙◌, append_assoc, drop-append, take-append,
}

-- A fixed header and the body that it announces.
abbrev pub packet : FixedHeader → List ℕ → List ℕ
packet h body = to_byte h ∷ (encode_loop 4 (length body) ++ body)

abbrev pub header : PacketType → Bool → QoS → Bool → ℕ → FixedHeader
header ptype dup qos retain n = record {
  ptype = ptype;
  dup = dup;
  qos = qos;
  retain = retain;
  remaining_length = n;
}

-- A length-prefixed field.
abbrev pub field : List ℕ → List ℕ
field s = be16 (length s) ++ s

-- The answer of an encoder whose arguments are accepted: the whole packet, or the report that the
-- span has no room for it.
abbrev pub fitted : ℕ → List ℕ → Result (List ℕ)
fitted size bytes = if leb (length bytes) size then value bytes else error buffer_too_small

abbrev pub publish_body : List ℕ → List ℕ → QoS → ℕ → List ℕ
publish_body topic payload qos id =
    field topic ++ ((if not (qos == 0) then be16 id else []) ++ payload)

module _ (bs : ByteStream) where
  -- An acknowledgement of one of the four types, for a packet id that is not 0, is its fixed header
  -- and the id, or the report that its four bytes do not fit.
  pub encode_ack_exact :
      (size id : ℕ) (ptype : PacketType)
      → is_ack ptype ≡ true
      → id ≢ 0
      → encode_ack bs size ptype id ≡ fitted size (packet (header ptype false 0 false 2) (be16 id))
  unfolding encode_ack
  encode_ack_exact size id ptype a h =
      rw (a, test)
        (Ends-fresh bs size _ _ (
          Ends-then bs _ _ _ _ (Writes-header bs ptype 2 false 0 false (omega arith))
            (Ends-then bs _ _ _ _ (Writes-u16 bs id) (Ends-written bs))))
    where
      test : (id == 0) ≡ false
      test = ground arith

  -- A packet without a body is its fixed header, or the report that its two bytes do not fit.
  pub encode_empty_exact :
      (size : ℕ) (ptype : PacketType)
      → is_bare ptype ≡ true
      → encode_empty bs size ptype ≡ fitted size (packet (header ptype false 0 false 0) [])
  unfolding encode_empty
  encode_empty_exact size ptype a = rw a (
      Ends-fresh bs size _ _ (
        Ends-then bs _ _ _ _ (Writes-header bs ptype 0 false 0 false (omega arith))
          (Ends-written bs)))

  -- What `encode_publish` writes once its arguments are accepted.
  pub encode_publish_wire :
      (size : ℕ) (topic payload : List ℕ) (qos : QoS) (retain dup : Bool) (id rl : ℕ)
      → (not (qos == 0) && id == 0) ≡ false
      → (qos == 0 && dup) ≡ false
      → publish_remaining_length topic (length payload) qos ≡ value rl
      → length topic ≤ 65535
      → rl ≤ max_remaining_length
      → encode_publish bs size topic payload qos retain dup id
        ≡ fitted size (
            to_byte (header publish dup qos retain rl) ∷ encode_loop 4 rl
            ++ (field topic ++ ((if not (qos == 0) then be16 id else []) ++ (payload ++ []))))
  unfolding encode_publish
  encode_publish_wire size topic payload qos retain dup id rl a b c t n =
      rw (a, b, c)
        (Ends-fresh bs size _ _ (
          Ends-then bs _ _ _ _ (Writes-header bs publish rl dup qos retain n) (
            Ends-then bs _ _ _ _ (Writes-string bs topic t) (
              Ends-then bs _ _ _ _
                (Writes-if bs (not (qos == 0)) (be16 id) (λ w. or_too_small bs (bs.write_u16 id w))
                  (Writes-u16 bs id))
                (Ends-then bs _ _ _ _ (Writes-payload bs payload) (Ends-written bs))))))

-- A packet at the front of a receive buffer: `peek_header` finds its header and its size, and the
-- remaining-length region is its body.
module _ (t : PacketType) (dup : Bool) (qos : QoS) (retain : Bool) (body rest : List ℕ) where
  pub peek_header-packet :
      (n : ℕ)
      → is_plain (header t dup qos retain 0) ≡ true
      → n ≡ length body
      → n ≤ max_remaining_length
      → peek_header ((to_byte (header t dup qos retain n) ∷ (encode_loop 4 n ++ body)) ++ rest)
        ≡ value (record {
          header = header t dup qos retain n;
          header_bytes = 1 + vbi_size n;
          total_bytes = 1 + vbi_size n + n;
        })
  unfolding peek_header
  peek_header-packet n plain e h = ground (arith, first, vbi)
    where
      first : from_byte (to_byte (header t dup qos retain n)) ≡ value (header t dup qos retain 0)
      first = unfold to_byte in from_byte-to_byte (header t dup qos retain 0) plain

      vbi :
          vbi_decode ((encode_loop 4 n ++ body) ++ rest)
          ≡ value (record { number = n; bytes = vbi_size n })
      vbi = rw append_assoc (vbi_decode-encode_loop n (body ++ rest) h)

  pub body-packet :
      (n b : ℕ)
      → n ≡ length body
      → n ≤ max_remaining_length
      → take n (drop (1 + vbi_size n) ((b ∷ (encode_loop 4 n ++ body)) ++ rest)) ≡ body
  body-packet n b e h =
      ap (λ (k : ℕ). take n (drop k ((b ∷ (encode_loop 4 n ++ body)) ++ rest))) one
      ∙ ap (λ l. take n (drop (length (encode_loop 4 n)) l))
          (append_assoc (encode_loop 4 n) body rest)
      ∙ ap (take n) (drop-append (encode_loop 4 n) (body ++ rest))
      ∙ ap (λ (k : ℕ). take k (body ++ rest)) e
      ∙ take-append body rest
    where
      one : 1 + vbi_size n ≡ suc (length (encode_loop 4 n))
      one = omega (arith, length-encode n h)

  pub length-packet :
      (n b : ℕ)
      → n ≡ length body
      → n ≤ max_remaining_length
      → length (b ∷ (encode_loop 4 n ++ body)) ≡ 1 + vbi_size n + n
  length-packet n b e h = omega (arith, length-encode n h, length-append (encode_loop 4 n) body)
