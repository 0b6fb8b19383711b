-- ===== src/Codec/Sizes.antt =====
-- The remaining lengths of src/codec.cpp, computed before anything is written.
use paho_cpp_static.Utf8.{is_valid_mqtt_string}
use paho_cpp_static.Packet.{
  ConnectOptions, Will, QoS, TopicSubscription, max_remaining_length, will_valid, at_most_once,
}
use paho_cpp_static.Prelude.{
  ℕ, List, Option, ◌+◌, Bool, ◌%◌, leb, ◌∷◌, ◌^◌, if◌then◌else◌, ltb, none, some, length, not,
  is_empty, ◌&&◌, [], ◌==◌,
}
use paho_cpp_static.Error.{
  Error, Result, value, error, ◌>>◌, guard, invalid_argument, ◌>>=◌, payload_too_large,
}
use Prim.Native.Nat.{ℕ}

abbrev pub max_string_len : ℕ
max_string_len = 65535

-- `std::uint64_t` addition, checked against the MQTT maximum; `none` is false.
unfoldable pub checked_add : ℕ → ℕ → Option ℕ
checked_add total add =
    let sum = (total + add) % 2 ^ 64 in if ltb max_remaining_length sum then none else some sum

unfoldable pub valid_qos : QoS → Bool
valid_qos q = leb q 2

abbrev pub utf8_size : ℕ → ℕ
utf8_size len = 2 + len

-- `if (!checked_add(total, add)) return e;`
abbrev pub add_or : Error → ℕ → ℕ → Result ℕ
add_or e total add = elim (checked_add total add) [ none ↦ error e | some sum ↦ value sum ]

-- The will's part of the remaining length.
unfoldable pub will_length : Will → ℕ → Result ℕ
unfolding checked_add valid_qos
will_length will total = do
  guard (valid_qos will.qos) invalid_argument
  guard (leb (length will.topic) max_string_len && leb (length will.payload) max_string_len)
      invalid_argument
  guard (is_valid_mqtt_string will.topic) invalid_argument
  total' ← add_or invalid_argument total (utf8_size (length will.topic))
  add_or invalid_argument total' (utf8_size (length will.payload))

unfoldable pub username_length : List ℕ → ℕ → Result ℕ
unfolding checked_add
username_length username total = do
  guard (leb (length username) max_string_len) invalid_argument
  guard (is_valid_mqtt_string username) invalid_argument
  add_or invalid_argument total (utf8_size (length username))

unfoldable pub password_length : List ℕ → List ℕ → ℕ → Result ℕ
unfolding checked_add
password_length username password total = do
  guard (not (is_empty username)) invalid_argument
  guard (leb (length password) max_string_len) invalid_argument
  add_or invalid_argument total (utf8_size (length password))

unfoldable pub connect_remaining_length : ConnectOptions → Result ℕ
unfolding checked_add will_length username_length password_length
connect_remaining_length opts = do
  guard (leb (length opts.client_id) max_string_len) invalid_argument
  guard (is_valid_mqtt_string opts.client_id) invalid_argument
  fixed ← add_or invalid_argument 0 (utf8_size 4 + 1 + 1 + 2)
  with_id ← add_or invalid_argument fixed (utf8_size (length opts.client_id))
  with_will ← if will_valid opts.will then will_length opts.will with_id else value with_id
  with_user ←
      (if not (is_empty opts.username)
        then username_length opts.username with_will
        else value with_will)
  (if not (is_empty opts.password)
      then password_length opts.username opts.password with_user
      else value with_user)

unfoldable pub publish_remaining_length : List ℕ → ℕ → QoS → Result ℕ
unfolding checked_add valid_qos
publish_remaining_length topic payload_len qos = do
  guard (not (is_empty topic) && leb (length topic) max_string_len) invalid_argument
  guard (valid_qos qos) invalid_argument
  guard (is_valid_mqtt_string topic) invalid_argument
  with_topic ← add_or invalid_argument 0 (utf8_size (length topic))
  with_id ←
      if not (qos == at_most_once) then add_or invalid_argument with_topic 2 else value with_topic
  add_or payload_too_large with_id payload_len

-- The loop over the requested filters, from the packet id's two bytes on.
unfoldable pub subscribe_loop : List TopicSubscription → ℕ → Result ℕ
unfolding checked_add valid_qos
subscribe_loop [] total = value total
subscribe_loop (s ∷ subs) total = do
  guard (not (is_empty s.filter) && leb (length s.filter) max_string_len) invalid_argument
  guard (is_valid_mqtt_string s.filter) invalid_argument
  guard (valid_qos s.qos) invalid_argument
  total' ← add_or invalid_argument total (utf8_size (length s.filter) + 1)
  subscribe_loop subs total'

unfoldable pub subscribe_remaining_length : List TopicSubscription → Result ℕ
unfolding subscribe_loop
subscribe_remaining_length subs = do
  guard (not (is_empty subs)) invalid_argument
  subscribe_loop subs 2

unfoldable pub unsubscribe_loop : List (List ℕ) → ℕ → Result ℕ
unfolding checked_add
unsubscribe_loop [] total = value total
unsubscribe_loop (f ∷ filters) total = do
  guard (not (is_empty f) && leb (length f) max_string_len) invalid_argument
  guard (is_valid_mqtt_string f) invalid_argument
  total' ← add_or invalid_argument total (utf8_size (length f))
  unsubscribe_loop filters total'

unfoldable pub unsubscribe_remaining_length : List (List ℕ) → Result ℕ
unfolding unsubscribe_loop
unsubscribe_remaining_length filters = do
  guard (not (is_empty filters)) invalid_argument
  unsubscribe_loop filters 2
