-- ===== src/Codec/Requests.antt =====
-- SUBSCRIBE and UNSUBSCRIBE on the wire: which requests are encoded, and as which bytes.
use paho_cpp_static.Vbi.{encode_loop}
use paho_cpp_static.Header.{to_byte}
use paho_cpp_static.Codec.Writes.{
  Writes, Writes-nothing, Writes-then, Writes-string, Writes-u8, Ends-fresh, Ends-then,
  Writes-header, Writes-u16, Ends-written,
}
use paho_cpp_static.Codec.Encode.{
  write_filters, encode_subscribe, write_subscriptions, encode_unsubscribe, write_fixed_header,
  or_too_small,
}
use paho_cpp_static.Prelude.{
  ℕ, List, Bool, [], ◌∷◌, ◌++◌, ◌&&◌, not, leb, is_empty, length, true, if◌then◌else◌, ◌≤◌, ◌+◌,
  ◌≡◌, arith, length-append, dec_lt, inl, false, inr, ◌≢◌, ◌==◌, Bool-cases, ◌∙◌, refl, ap,
  append-nil, suc,
}
use paho_cpp_static.Error.{Result, value, error, invalid_argument, ◌>>=◌}
use paho_cpp_static.Packet.{
  TopicSubscription, max_remaining_length, subscribe, unsubscribe, PacketType, at_most_once,
}
use paho_cpp_static.Utf8.{is_valid_mqtt_string}
use paho_cpp_static.Codec.Sizes.{
  subscribe_loop, checked_add, valid_qos, unsubscribe_remaining_length, subscribe_remaining_length,
  unsubscribe_loop,
}
use paho_cpp_static.Codec.Wire.{field, fitted, packet, header}
use paho_cpp_static.Codec.Stream.{be16, ByteStream}

-- A filter that the codec lets through: a UTF-8 string of 1 to 65535 bytes.
abbrev pub filter_fits : List ℕ → Bool
filter_fits f = not (is_empty f) && leb (length f) 65535 && is_valid_mqtt_string f

abbrev pub all_subscribable : List TopicSubscription → Bool
all_subscribable [] = true
all_subscribable (s ∷ subs) = filter_fits s.filter && leb s.qos 2 && all_subscribable subs

-- The payload: each filter as a length-prefixed field, and its requested QoS.
abbrev pub entries : List TopicSubscription → List ℕ
entries [] = []
entries (s ∷ subs) = field s.filter ++ (s.qos ∷ entries subs)

abbrev pub summed : Bool → ℕ → Result ℕ
summed fine total =
    if fine && leb total max_remaining_length then value total else error invalid_argument

subscribe_loop_lem :
    (subs : List TopicSubscription) (total : ℕ)
    → total ≤ max_remaining_length
    → subscribe_loop subs total ≡ summed (all_subscribable subs) (total + length (entries subs))
unfolding subscribe_loop checked_add valid_qos
subscribe_loop_lem [] total h = ground arith
subscribe_loop_lem (s ∷ subs) total h =
    let len = length-append (field s.filter) (s.qos ∷ entries subs) in
    let field_len = length-append (be16 (length s.filter)) s.filter in
    elim (dec_lt max_remaining_length (total + (2 + length s.filter + 1))) [
      | yes over ↦ ground (arith, len, field_len, over)
      | no under ↦ ground (
        arith,
        len,
        field_len,
        under,
        subscribe_loop_lem subs (total + (2 + length s.filter + 1)) (omega arith),
      )
    ]

abbrev pub all_filters_fit : List (List ℕ) → Bool
all_filters_fit [] = true
all_filters_fit (f ∷ filters) = filter_fits f && all_filters_fit filters

abbrev pub fields : List (List ℕ) → List ℕ
fields [] = []
fields (f ∷ filters) = field f ++ fields filters

unsubscribe_loop_lem :
    (filters : List (List ℕ)) (total : ℕ)
    → total ≤ max_remaining_length
    → unsubscribe_loop filters total
      ≡ summed (all_filters_fit filters) (total + length (fields filters))
unfolding unsubscribe_loop checked_add
unsubscribe_loop_lem [] total h = ground arith
unsubscribe_loop_lem (f ∷ filters) total h =
    let len = length-append (field f) (fields filters) in
    let field_len = length-append (be16 (length f)) f in
    elim (dec_lt max_remaining_length (total + (2 + length f))) [
      | yes over ↦ ground (arith, len, field_len, over)
      | no under ↦ ground (
        arith,
        len,
        field_len,
        under,
        unsubscribe_loop_lem filters (total + (2 + length f)) (omega arith),
      )
    ]

abbrev pub subscribable : List TopicSubscription → Bool
subscribable subs =
    not (is_empty subs)
    && all_subscribable subs
    && leb (2 + length (entries subs)) max_remaining_length

abbrev pub unsubscribable : List (List ℕ) → Bool
unsubscribable filters =
    not (is_empty filters)
    && all_filters_fit filters
    && leb (2 + length (fields filters)) max_remaining_length

pub subscribe_length :
    (subs : List TopicSubscription)
    → subscribe_remaining_length subs ≡ (
        if subscribable subs
        then value (suc (suc (length (entries subs))))
        else error invalid_argument)
unfolding subscribe_remaining_length
subscribe_length subs = ground (arith, subscribe_loop_lem subs 2 (omega arith))

unsubscribe_length :
    (filters : List (List ℕ))
    → unsubscribe_remaining_length filters ≡ (
        if unsubscribable filters
        then value (suc (suc (length (fields filters))))
        else error invalid_argument)
unfolding unsubscribe_remaining_length
unsubscribe_length filters = ground (arith, unsubscribe_loop_lem filters 2 (omega arith))

module _ (bs : ByteStream) where
  Writes-subscriptions :
      (subs : List TopicSubscription)
      → all_subscribable subs ≡ true
      → Writes bs (entries subs) (write_subscriptions bs subs)
  unfolding write_subscriptions
  Writes-subscriptions [] h = Writes-nothing bs
  Writes-subscriptions (s ∷ subs) h =
      Writes-then bs (field s.filter) (s.qos ∷ entries subs) _ _
        (Writes-string bs s.filter (ground (arith, h)))
        (Writes-then bs (s.qos ∷ []) (entries subs) _ _ (Writes-u8 bs s.qos)
          (Writes-subscriptions subs (ground (arith, h))))

  Writes-filters :
      (filters : List (List ℕ))
      → all_filters_fit filters ≡ true
      → Writes bs (fields filters) (write_filters bs filters)
  unfolding write_filters
  Writes-filters [] h = Writes-nothing bs
  Writes-filters (f ∷ filters) h =
      Writes-then bs (field f) (fields filters) _ _ (Writes-string bs f (ground (arith, h)))
        (Writes-filters filters (ground (arith, h)))

  -- What is written once a request is accepted.
  request_wire :
      (t : PacketType) (size id : ℕ) (bytes : List ℕ) (f : bs.Writer → Result bs.Writer)
      → suc (suc (length bytes)) ≤ max_remaining_length
      → Writes bs bytes f
      → (write_fixed_header bs t
            (suc (suc (length bytes)))
            false
            at_most_once
            false
            (bs.open_writer size)
          >>= λ w1.
              or_too_small bs (bs.write_u16 id w1) >>= λ w2. f w2 >>= λ w3. value (bs.written w3))
        ≡ fitted size
            (packet (header t false 0 false (length (be16 id ++ bytes))) (be16 id ++ bytes))
  request_wire t size id bytes f h writes =
      Ends-fresh bs size _ _ (
        Ends-then bs _ _ _ _ (Writes-header bs t (suc (suc (length bytes))) false 0 false h)
          (Ends-then bs _ _ _ _ (Writes-u16 bs id) (Ends-then bs _ _ _ _ writes (Ends-written bs))))
      ∙ ap
          (λ l. fitted size (
            to_byte (header t false 0 false (suc (suc (length bytes))))
            ∷ (encode_loop 4 (suc (suc (length bytes))) ++ (be16 id ++ l))))
          (append-nil bytes)

  -- encode_subscribe, given a packet id that is not 0, encodes exactly the requests that name a filter
  -- at least, each of them a UTF-8 string of 1 to 65535 bytes with a QoS of at most 2, and whose
  -- remaining length is at most 268435455. The levels of a filter are not looked at. What it returns
  -- is the fixed header, the packet id, and each filter with its length in front and its QoS behind,
  -- or the report that they do not fit into the span.
  pub encode_subscribe_exact :
      (size id : ℕ) (subs : List TopicSubscription)
      → id ≢ 0
      → encode_subscribe bs size id subs ≡ (
          if subscribable subs
          then fitted size (
              packet
                (header subscribe false 0 false (length (be16 id ++ entries subs)))
                (be16 id ++ entries subs))
          else error invalid_argument)
  unfolding encode_subscribe
  encode_subscribe_exact size id subs h =
      let test : (id == 0) ≡ false = ground arith in
      elim (Bool-cases (subscribable subs)) [
        | inr e ↦ rw (test, subscribe_length subs, e) refl
        | inl e ↦
            rw (test, subscribe_length subs, e)
              (request_wire subscribe size id (entries subs) (write_subscriptions bs subs)
                (ground (arith, e)) (Writes-subscriptions subs (ground (arith, e))))
      ]

  -- encode_unsubscribe, given a packet id that is not 0, encodes exactly the requests that name a filter
  -- at least, each of them a UTF-8 string of 1 to 65535 bytes, and that fit into a packet. What it
  -- returns is the fixed header, the packet id, and each filter with its length in front, or the
  -- report that they do not fit into the span.
  pub encode_unsubscribe_exact :
      (size id : ℕ) (filters : List (List ℕ))
      → id ≢ 0
      → encode_unsubscribe bs size id filters ≡ (
          if unsubscribable filters
          then fitted size (
              packet
                (header unsubscribe false 0 false (length (be16 id ++ fields filters)))
                (be16 id ++ fields filters))
          else error invalid_argument)
  unfolding encode_unsubscribe
  encode_unsubscribe_exact size id filters h =
      let test : (id == 0) ≡ false = ground arith in
      elim (Bool-cases (unsubscribable filters)) [
        | inr e ↦ rw (test, unsubscribe_length filters, e) refl
        | inl e ↦
            rw (test, unsubscribe_length filters, e)
              (request_wire unsubscribe size id (fields filters) (write_filters bs filters)
                (ground (arith, e)) (Writes-filters filters (ground (arith, e))))
      ]
