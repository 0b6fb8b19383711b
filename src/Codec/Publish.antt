-- ===== src/Codec/Publish.antt =====
-- A PUBLISH that is encoded, found by peek_header in the receive buffer and decoded.
use paho_cpp_static.Vbi.{encode_loop, vbi_size}
use paho_cpp_static.Header.RoundTrip.{is_plain}
use paho_cpp_static.Header.{to_byte}
use paho_cpp_static.Codec.Encode.{encode_publish}
use paho_cpp_static.Codec.Wire.{
  header, publish_body, field, fitted, encode_publish_wire, peek_header-packet, length-packet,
  body-packet,
}
use paho_cpp_static.Utf8.{is_valid_mqtt_string}
use paho_cpp_static.Packet.{QoS, FixedHeader, Message, max_remaining_length, publish}
use paho_cpp_static.Codec.Decode.{
  decode_publish, read_string, read_publish_id, PacketPeek, peek_header,
}
use paho_cpp_static.Codec.Sizes.{publish_remaining_length}
use paho_cpp_static.Codec.Stream.{ByteStream, be16}
use paho_cpp_static.Error.{value, Result-cases}
use paho_cpp_static.Prelude.{
  [], inl, inr, false, true, List, ℕ, ◌≡◌, is_empty, Bool, ◌≤◌, if◌then◌else◌, length, not, arith,
  ◌<◌, ◌++◌, ◌==◌, ◌∷◌, ◌/◌, ◌^◌, ◌+◌, ◌&&◌, ◌%◌, ◌*◌, Bool-cases, subst, sym, length-append, take,
  take-append, ◌∙◌, drop-append, append_assoc, refl, ◌-◌, drop, ap, append-nil,
}

-- What an accepted PUBLISH says of its arguments.
pub record Accepted (topic payload : List ℕ) (qos : QoS) (rl : ℕ) : Type 0 where
  pub topic_lower : 1 ≤ length topic
  pub topic_upper : length topic ≤ 65535
  pub qos_upper : qos ≤ 2
  pub topic_valid : is_valid_mqtt_string topic ≡ true
  pub rl_upper : rl ≤ max_remaining_length
  pub rl_sum : rl ≡ 2 + length topic + ((if not (qos == 0) then 2 else 0) + length payload)

is_empty-length : (s : List ℕ) → is_empty s ≡ false → 1 ≤ length s
is_empty-length [] e = absurd (ground arith)
is_empty-length (x ∷ s) e = omega arith

nonempty : (s : List ℕ) → 1 ≤ length s → is_empty s ≡ false
nonempty [] h = absurd (omega arith)
nonempty (x ∷ s) h = refl

publish-Accepted :
    (topic payload : List ℕ) (qos : QoS) (rl : ℕ)
    → length payload < 2 ^ 63
    → publish_remaining_length topic (length payload) qos ≡ value rl
    → Accepted topic payload qos rl
unfolding publish_remaining_length
publish-Accepted [] payload qos rl h e = absurd (ground arith)
publish-Accepted (c ∷ topic) payload qos rl h e = ground arith

body_length :
    (topic payload : List ℕ) (qos : QoS) (rl id : ℕ)
    → Accepted topic payload qos rl
    → rl ≡ length (publish_body topic payload qos id)
body_length topic payload qos rl id acc = ground (
  arith,
  length-append topic ((if not (qos == 0) then be16 id else []) ++ payload),
  length-append (if not (qos == 0) then be16 id else []) payload,
)

fitted_value :
    (size : ℕ) (whole bytes : List ℕ)
    → fitted size whole ≡ value bytes
    → (whole ≡ bytes) × (length whole ≤ size)
fitted_value size whole bytes e = ground arith

is_plain-publish :
    (dup : Bool) (qos : ℕ) (retain : Bool)
    → qos ≤ 2
    → (qos == 0 && dup) ≡ false
    → is_plain (header publish dup qos retain 0) ≡ true
unfolding is_plain
is_plain-publish dup qos retain h b = ground arith

-- The message that the receiver is handed.
abbrev pub message : List ℕ → List ℕ → QoS → Bool → Bool → ℕ → Message
message topic payload qos retain dup id = record {
  topic = topic;
  payload = payload;
  qos = qos;
  retain = retain;
  dup = dup;
  packet_id = if not (qos == 0) then id else 0;
}

module _ (bs : ByteStream) where
  open bs use {
    Reader, open_reader, unread, open_unread, available_lem, read_u16_fits, read_block_fits,
  }

  read_string_ok :
      (r : Reader) (s rest : List ℕ)
      → unread r ≡ be16 (length s) ++ (s ++ rest)
      → 1 ≤ length s
      → length s ≤ 65535
      → is_valid_mqtt_string s ≡ true
      → (r' : Reader) × (read_string bs r ≡ value (s, r')) × (unread r' ≡ rest)
  unfolding read_string
  read_string_ok r s rest e lower upper valid =
      let (r1, e1, u1) = read_u16_fits r (length s / 256) (length s % 256) (s ++ rest) e in
      let size : length s / 256 * 256 + length s % 256 ≡ length s = omega arith in
      let some_left : (length s == 0) ≡ false = ground arith in
      let (r2, e2, u2) =
        read_block_fits (length s) r1
          (subst (λ l. length s ≤ length l) (sym u1) (omega (arith, length-append s rest))) in
      let front : take (length s) (unread r1) ≡ s = rw u1 (take-append s rest) in
      (r2, ground (arith, e1, size, some_left, e2, front, valid), u2 ∙ rw u1 (drop-append s rest))

  -- The packet id, at each QoS.
  read_id_ok :
      (h : FixedHeader) (r : Reader) (id : ℕ) (rest : List ℕ)
      → unread r ≡ (if not (h.qos == 0) then be16 id else []) ++ rest
      → id < 65536
      → (not (h.qos == 0) && id == 0) ≡ false
      → (h.qos == 0 && h.dup) ≡ false
      → (r' : Reader) × (read_publish_id bs h r ≡ value (if not (h.qos == 0) then id else 0, r'))
        × (unread r' ≡ rest)
  unfolding read_publish_id
  read_id_ok h r id rest e small a b = elim (Bool-cases (h.qos == 0)) [
    | inl z ↦
        let plain : h.dup ≡ false = ground (arith, b, z) in (r, ground (arith, z, plain), rw z at e)
    | inr z ↦
        let (r1, e1, u1) = read_u16_fits r (id / 256) (id % 256) rest (rw z at e) in
        let same : id / 256 * 256 + id % 256 ≡ id = omega arith in
        let set : (id == 0) ≡ false = ground (arith, a, z) in
        (r1, ground (arith, z, e1, same, set), u1)
  ]

  -- The body that `encode_publish` writes decodes to the message.
  pub decode_publish_body :
      (topic payload : List ℕ) (qos : QoS) (retain dup : Bool) (id rl : ℕ)
      → Accepted topic payload qos rl
      → id < 65536
      → (not (qos == 0) && id == 0) ≡ false
      → (qos == 0 && dup) ≡ false
      → decode_publish bs (header publish dup qos retain rl) (publish_body topic payload qos id)
        ≡ value (message topic payload qos retain dup id)
  unfolding decode_publish
  decode_publish_body topic payload qos retain dup id rl acc small a b =
      let body = publish_body topic payload qos id in
      let rest = (if not (qos == 0) then be16 id else []) ++ payload in
      let (r1, e1, u1) =
        read_string_ok (open_reader body) topic rest
          (open_unread body ∙ append_assoc (be16 (length topic)) topic rest) acc.topic_lower
          acc.topic_upper acc.topic_valid in
      let (r2, e2, u2) = read_id_ok (header publish dup qos retain rl) r1 id payload u1 small a b in
      let front = field topic ++ (if not (qos == 0) then be16 id else []) in
      let split : body ≡ front ++ payload =
        sym (append_assoc (field topic) (if not (qos == 0) then be16 id else []) payload) in
      let left : length body - bs.available_bytes r2 ≡ length front =
        omega
          (arith, available_lem r2, ap length u2, ap length split, length-append front payload) in
      let behind : drop (length body - bs.available_bytes r2) body ≡ payload =
        ap (λ (k : ℕ). drop k body) left
        ∙ ap (drop (length front)) split
        ∙ drop-append front payload in
      let full : is_empty topic ≡ false = nonempty topic acc.topic_lower in
      rw (e1, full, e2, behind)

  -- What the receiver makes of the bytes.
  abbrev Reads : ℕ → List ℕ → List ℕ → QoS → Bool → Bool → ℕ → List ℕ → List ℕ → Type 0
  Reads size topic payload qos retain dup id rest bytes =
      (p : PacketPeek) × (peek_header (bytes ++ rest) ≡ value p)
      × (p.total_bytes ≡ length bytes)
      × (length bytes ≤ size)
      × (decode_publish bs p.header
            (take p.header.remaining_length (drop p.header_bytes (bytes ++ rest)))
          ≡ value (message topic payload qos retain dup id))

  accepts :
      (size : ℕ) (topic payload : List ℕ) (qos : QoS) (retain dup : Bool) (id : ℕ) (bytes : List ℕ)
      → length payload < 2 ^ 63
      → encode_publish bs size topic payload qos retain dup id ≡ value bytes
      → (rl : ℕ) × ((not (qos == 0) && id == 0) ≡ false)
        × ((qos == 0 && dup) ≡ false)
        × (publish_remaining_length topic (length payload) qos ≡ value rl)
  unfolding encode_publish
  accepts size topic payload qos retain dup id bytes h e =
      elim (Result-cases (publish_remaining_length topic (length payload) qos)) [
        | inl (rl, p) ↦ (rl, ground (arith, p), ground (arith, p), p)
        | inr (x, p) ↦ absurd (ground (arith, p))
      ]

  -- A PUBLISH that encode_publish returns is the one packet that peek_header finds at the front of
  -- a receive buffer that begins with it: its header, and its size as the number of bytes to
  -- consume. Its body decodes to the topic, payload, QoS, flags and, above QoS 0, packet id that
  -- were encoded. The payload is shorter than 2 ^ 63 bytes and the packet id a 16-bit number.
  pub decode-encode_publish :
      (size : ℕ) (topic payload : List ℕ) (qos : QoS) (retain dup : Bool) (id : ℕ)
      (bytes rest : List ℕ)
      → length payload < 2 ^ 63
      → id < 65536
      → encode_publish bs size topic payload qos retain dup id ≡ value bytes
      → (p : PacketPeek) × (peek_header (bytes ++ rest) ≡ value p)
        × (p.total_bytes ≡ length bytes)
        × (length bytes ≤ size)
        × (decode_publish bs p.header
              (take p.header.remaining_length (drop p.header_bytes (bytes ++ rest)))
            ≡ value (message topic payload qos retain dup id))
  decode-encode_publish size topic payload qos retain dup id bytes rest h small e =
      let (rl, a, b, c) = accepts size topic payload qos retain dup id bytes h e in
      let acc = publish-Accepted topic payload qos rl h c in
      let body = publish_body topic payload qos id in
      let b0 = to_byte (header publish dup qos retain rl) in
      let whole = b0 ∷ (encode_loop 4 rl ++ body) in
      let wire : encode_publish bs size topic payload qos retain dup id ≡ fitted size whole =
        encode_publish_wire bs size topic payload qos retain dup id rl a b c acc.topic_upper
          acc.rl_upper
        ∙ ap
            (λ l. fitted size (
              b0
              ∷ (encode_loop 4 rl
                  ++ (field topic ++ ((if not (qos == 0) then be16 id else []) ++ l)))))
            (append-nil payload) in
      let len : rl ≡ length body = body_length topic payload qos rl id acc in
      let (same, fits) = fitted_value size whole bytes (sym wire ∙ e) in
      let plain = is_plain-publish dup qos retain acc.qos_upper b in
      subst (Reads size topic payload qos retain dup id rest) same (
        record {
          header = header publish dup qos retain rl;
          header_bytes = 1 + vbi_size rl;
          total_bytes = 1 + vbi_size rl + rl;
        },
        peek_header-packet publish dup qos retain body rest rl plain len acc.rl_upper,
        sym (length-packet publish dup qos retain body rest rl b0 len acc.rl_upper),
        fits,
        ap (decode_publish bs (header publish dup qos retain rl))
              (body-packet publish dup qos retain body rest rl b0 len acc.rl_upper)
            ∙ decode_publish_body topic payload qos retain dup id rl acc small a b,
      )
