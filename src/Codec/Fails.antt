-- ===== src/Codec/Fails.antt =====
-- An encoder that fails reports an error other than Ok.
use paho_cpp_static.Packet.{PacketType, QoS}
use paho_cpp_static.Prelude.{
  none, some, false, true, inl, inr, arith, ℕ, List, ◌≡◌, Bool, Option, Option-cases, if◌then◌else◌,
  refl,
}
use paho_cpp_static.Codec.Encode.{encode_publish, write_fixed_header, write_string, or_too_small}
use paho_cpp_static.Codec.Sizes.{publish_remaining_length, add_or, checked_add}
use paho_cpp_static.Codec.Stream.{ByteStream}
use paho_cpp_static.Vbi.{vbi_encode}
use paho_cpp_static.Error.{Result, value, error, Error, guard, is_ok, ◌>>=◌, buffer_too_small}

pub record Fails {A : Type 0} (r : Result A) : Type 0 where
  pub at : (e : Error) → r ≡ error e → is_ok e ≡ false

module _ {A : Type 0} where
  Fails-value : (a : A) → Fails (value a)
  Fails-value a = record { at = λ e q. cc }

  Fails-error : (e : Error) → is_ok e ≡ false → Fails {A = A} (error e)
  Fails-error e h = record { at = λ x q. ground (arith, h, q) }

  Fails-if : (b : Bool) (r t : Result A) → Fails r → Fails t → Fails (if b then r else t)
  Fails-if true r t h k = h
  Fails-if false r t h k = k

Fails-bind :
    {A B : Type 0} (r : Result A) (f : A → Result B)
    → Fails r
    → ((a : A) → Fails (f a))
    → Fails (r >>= f)
Fails-bind (value a) f h k = k a
Fails-bind (error e) f h k = record { at = λ x q. ground (arith, h.at e refl, q) }

Fails-guard : (b : Bool) (e : Error) → is_ok e ≡ false → Fails (guard b e)
Fails-guard true e h = Fails-value tt
Fails-guard false e h = Fails-error e h

pub Fails-add_or : (e : Error) (a b : ℕ) → is_ok e ≡ false → Fails (add_or e a b)
Fails-add_or e a b h = elim (Option-cases (checked_add a b)) [
  | inl q ↦ rw (q, add_or) (Fails-error e h)
  | inr (n, q) ↦ rw (q, add_or) (Fails-value n)
]

ruleset failures = (Fails-value, Fails-error, Fails-if, Fails-bind, Fails-guard, Fails-add_or, refl)

Fails-vbi_encode : (room n : ℕ) → Fails (vbi_encode room n)
unfolding vbi_encode
Fails-vbi_encode room n = search failures depth 30

Fails-publish_size :
    (topic : List ℕ) (n : ℕ) (qos : QoS) → Fails (publish_remaining_length topic n qos)
unfolding publish_remaining_length
Fails-publish_size topic n qos = search failures depth 40

module _ (bs : ByteStream) where
  open bs use {Writer}

  Fails-too_small : (o : Option Writer) → Fails (or_too_small bs o)
  Fails-too_small none = Fails-error buffer_too_small refl
  Fails-too_small (some w) = Fails-value w

  Fails-header :
      (t : PacketType) (rl : ℕ) (dup : Bool) (qos : QoS) (retain : Bool) (w : Writer)
      → Fails (write_fixed_header bs t rl dup qos retain w)
  unfolding write_fixed_header
  Fails-header t rl dup qos retain w = search (failures, Fails-too_small, Fails-vbi_encode) depth 40

  Fails-string : (s : List ℕ) (w : Writer) → Fails (write_string bs s w)
  unfolding write_string
  Fails-string s w = search (failures, Fails-too_small) depth 40

  pub encode_publish-Fails :
      (size : ℕ) (topic payload : List ℕ) (qos : QoS) (retain dup : Bool) (id : ℕ)
      → Fails (encode_publish bs size topic payload qos retain dup id)
  unfolding encode_publish
  encode_publish-Fails size topic payload qos retain dup id =
      search (failures, Fails-too_small, Fails-header, Fails-string, Fails-publish_size) depth 60
