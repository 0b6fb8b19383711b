-- ===== src/Codec/Room.antt =====
-- No encoder returns more bytes than the span that it is given holds.
use paho_cpp_static.Packet.{PacketType, QoS, ConnectOptions, TopicSubscription, Will}
use paho_cpp_static.Codec.Encode.{
  write_fixed_header, or_too_small, encode_connect, encode_publish, write_filters,
  write_subscriptions, encode_unsubscribe, write_binary, write_will, encode_subscribe, write_string,
  encode_ack, encode_empty,
}
use paho_cpp_static.Codec.Stream.{ByteStream, be16}
use paho_cpp_static.Error.{value, error, Result, Error, ◌>>=◌, buffer_too_small}
use paho_cpp_static.Prelude.{
  [], true, false, ℕ, length, List, Bool, ◌≡◌, ◌+◌, if◌then◌else◌, arith, ◌≤◌, refl, dec_lt,
  length-append, ◌∷◌,
}

module _ (bs : ByteStream) where
  open bs use {
    Writer, open_writer, write_u8, write_u16, write_block, room, written, open_room, open_written,
    u8_fits, u8_full, u16_fits, u16_full, block_fits, block_full,
  }

  -- A writer that such a result holds has `n` bytes, written or left.
  record Holds (n : ℕ) (r : Result Writer) : Type 0 where
    at : (w : Writer) → r ≡ value w → length (written w) + room w ≡ n

  pub record Caps (n : ℕ) (r : Result (List ℕ)) : Type 0 where
    pub at : (bytes : List ℕ) → r ≡ value bytes → length bytes ≤ n

  Holds-value : (n : ℕ) (w : Writer) → length (written w) + room w ≡ n → Holds n (value w)
  Holds-value n w h = record { at = λ v e. ground (arith, h) }

  Holds-error : (n : ℕ) (e : Error) → Holds n (error e)
  Holds-error n e = record { at = λ v e. cc }

  Caps-error : (n : ℕ) (e : Error) → Caps n (error e)
  Caps-error n e = record { at = λ v e. cc }

  Holds-bind :
      (n : ℕ) (r : Result Writer) (f : Writer → Result Writer)
      → Holds n r
      → ((w : Writer) → length (written w) + room w ≡ n → Holds n (f w))
      → Holds n (r >>= f)
  Holds-bind n (value w) f h k = k w (h.at w refl)
  Holds-bind n (error e) f h k = Holds-error n e

  Caps-bind :
      (n : ℕ) (r : Result Writer) (f : Writer → Result (List ℕ))
      → Holds n r
      → ((w : Writer) → length (written w) + room w ≡ n → Caps n (f w))
      → Caps n (r >>= f)
  Caps-bind n (value w) f h k = k w (h.at w refl)
  Caps-bind n (error e) f h k = Caps-error n e

  Holds-after :
      {A : Type 0} (n : ℕ) (r : Result A) (f : A → Result Writer)
      → ((a : A) → Holds n (f a))
      → Holds n (r >>= f)
  Holds-after n (value a) f k = k a
  Holds-after n (error e) f k = Holds-error n e

  Caps-after :
      {A : Type 0} (n : ℕ) (r : Result A) (f : A → Result (List ℕ))
      → ((a : A) → Caps n (f a))
      → Caps n (r >>= f)
  Caps-after n (value a) f k = k a
  Caps-after n (error e) f k = Caps-error n e

  Holds-if :
      (n : ℕ) (b : Bool) (r t : Result Writer)
      → Holds n r
      → Holds n t
      → Holds n (if b then r else t)
  Holds-if n true r t h k = h
  Holds-if n false r t h k = k

  Caps-written : (n : ℕ) (w : Writer) → length (written w) + room w ≡ n → Caps n (value (written w))
  Caps-written n w h = record { at = λ v e. ground (arith, h) }

  Holds-u8 :
      (n b : ℕ) (w : Writer)
      → length (written w) + room w ≡ n
      → Holds n (or_too_small bs (write_u8 b w))
  Holds-u8 n b w h = elim (dec_lt (room w) 1) [
    | yes p ↦ rw (u8_full b w p) (Holds-error n buffer_too_small)
    | no p ↦
        let (w', e, c, k) = u8_fits b w (omega arith) in
        rw e (Holds-value n w' (rw c (omega (arith, length-append (written w) (b ∷ [])))))
  ]

  Holds-u16 :
      (n b : ℕ) (w : Writer)
      → length (written w) + room w ≡ n
      → Holds n (or_too_small bs (write_u16 b w))
  Holds-u16 n b w h = elim (dec_lt (room w) 2) [
    | yes p ↦ rw (u16_full b w p) (Holds-error n buffer_too_small)
    | no p ↦
        let (w', e, c, k) = u16_fits b w (omega arith) in
        rw e (Holds-value n w' (rw c (omega (arith, length-append (written w) (be16 b)))))
  ]

  Holds-block :
      (n : ℕ) (s : List ℕ) (w : Writer)
      → length (written w) + room w ≡ n
      → Holds n (or_too_small bs (write_block s w))
  Holds-block n s w h = elim (dec_lt (room w) (length s)) [
    | yes p ↦ rw (block_full s w p) (Holds-error n buffer_too_small)
    | no p ↦
        let (w', e, c, k) = block_fits s w (omega arith) in
        rw e (Holds-value n w' (rw c (omega (arith, length-append (written w) s))))
  ]

  ruleset holds_rules = (
    Holds-value, Holds-bind, Caps-bind, Holds-after, Caps-after, Holds-if, Caps-written, Holds-u8,
    Holds-u16, Holds-block,
  )

  Holds-header :
      (n : ℕ) (t : PacketType) (rl : ℕ) (dup : Bool) (qos : QoS) (retain : Bool) (w : Writer)
      → length (written w) + room w ≡ n
      → Holds n (write_fixed_header bs t rl dup qos retain w)
  unfolding write_fixed_header
  Holds-header n t rl dup qos retain w h = search holds_rules

  Holds-string :
      (n : ℕ) (s : List ℕ) (w : Writer)
      → length (written w) + room w ≡ n
      → Holds n (write_string bs s w)
  unfolding write_string
  Holds-string n s w h = search holds_rules

  Holds-binary :
      (n : ℕ) (s : List ℕ) (w : Writer)
      → length (written w) + room w ≡ n
      → Holds n (write_binary bs s w)
  unfolding write_binary
  Holds-binary n s w h = search holds_rules

  Holds-will :
      (n : ℕ) (will : Will) (w : Writer)
      → length (written w) + room w ≡ n
      → Holds n (write_will bs will w)
  unfolding write_will
  Holds-will n will w h = search (holds_rules, Holds-string, Holds-binary)

  Holds-subscriptions :
      (n : ℕ) (subs : List TopicSubscription) (w : Writer)
      → length (written w) + room w ≡ n
      → Holds n (write_subscriptions bs subs w)
  unfolding write_subscriptions
  Holds-subscriptions n [] w h = Holds-value n w h
  Holds-subscriptions n (s ∷ subs) w h =
      search (holds_rules, Holds-string, Holds-subscriptions n subs)

  Holds-filters :
      (n : ℕ) (filters : List (List ℕ)) (w : Writer)
      → length (written w) + room w ≡ n
      → Holds n (write_filters bs filters w)
  unfolding write_filters
  Holds-filters n [] w h = Holds-value n w h
  Holds-filters n (f ∷ filters) w h = search (holds_rules, Holds-string, Holds-filters n filters)

  open_holds : (n : ℕ) → length (written (open_writer n)) + room (open_writer n) ≡ n
  open_holds n = rw (open_written n, open_room n) (omega arith)

  ruleset encoder_rules = (
    holds_rules, Holds-header, Holds-string, Holds-binary, Holds-will, Holds-subscriptions,
    Holds-filters, open_holds,
  )

  pub encode_connect-Caps :
      (size : ℕ) (opts : ConnectOptions) → Caps size (encode_connect bs size opts)
  unfolding encode_connect
  encode_connect-Caps size opts = search encoder_rules depth 30

  pub encode_publish-Caps :
      (size : ℕ) (topic payload : List ℕ) (qos : QoS) (retain dup : Bool) (id : ℕ)
      → Caps size (encode_publish bs size topic payload qos retain dup id)
  unfolding encode_publish
  encode_publish-Caps size topic payload qos retain dup id = search encoder_rules depth 30

  pub encode_ack-Caps : (size : ℕ) (t : PacketType) (id : ℕ) → Caps size (encode_ack bs size t id)
  unfolding encode_ack
  encode_ack-Caps size t id = search encoder_rules depth 30

  pub encode_subscribe-Caps :
      (size id : ℕ) (subs : List TopicSubscription) → Caps size (encode_subscribe bs size id subs)
  unfolding encode_subscribe
  encode_subscribe-Caps size id subs = search encoder_rules depth 30

  pub encode_unsubscribe-Caps :
      (size id : ℕ) (filters : List (List ℕ)) → Caps size (encode_unsubscribe bs size id filters)
  unfolding encode_unsubscribe
  encode_unsubscribe-Caps size id filters = search encoder_rules depth 30

  pub encode_empty-Caps : (size : ℕ) (t : PacketType) → Caps size (encode_empty bs size t)
  unfolding encode_empty
  encode_empty-Caps size t = search encoder_rules depth 30
