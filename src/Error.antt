-- ===== src/Error.antt =====
-- include/mqtt/error.hpp and the Error table of src/packet.cpp: the error codes, and the carrier of
-- a value or a code.
use Prim.Native.String.{String}
use paho_cpp_static.Prelude.{refl, ℕ, Bool, true, false, ◌≡◌, ◌⊎◌, inl, inr, if◌then◌else◌}

-- `enum class Error`.
pub data Error : Type 0 where
  ok would_block incomplete : Error
  invalid_argument not_connected already_connected not_supported : Error
  buffer_too_small tx_queue_full no_inflight_slot no_subscription_slot no_pending_ack_slot : Error
  payload_too_large topic_too_long : Error
  malformed_packet protocol_violation packet_too_large connection_refused : Error
  keep_alive_timeout connect_timeout : Error
  transport_failure transport_closed : Error
  reentrant : Error

-- The value that the enumeration gives each code.
unfoldable pub error_code : Error → ℕ
error_code ok = 0
error_code would_block = 1
error_code incomplete = 2
error_code invalid_argument = 3
error_code not_connected = 4
error_code already_connected = 5
error_code not_supported = 6
error_code buffer_too_small = 7
error_code tx_queue_full = 8
error_code no_inflight_slot = 9
error_code no_subscription_slot = 10
error_code no_pending_ack_slot = 11
error_code payload_too_large = 12
error_code topic_too_long = 13
error_code malformed_packet = 14
error_code protocol_violation = 15
error_code packet_too_large = 16
error_code connection_refused = 17
error_code keep_alive_timeout = 18
error_code connect_timeout = 19
error_code transport_failure = 20
error_code transport_closed = 21
error_code reentrant = 22

unfoldable pub is_retryable : Error → Bool
is_retryable would_block = true
is_retryable incomplete = true
is_retryable e = false

unfoldable pub error_to_string : Error → String
error_to_string ok = "Ok"
error_to_string would_block = "WouldBlock"
error_to_string incomplete = "Incomplete"
error_to_string invalid_argument = "InvalidArgument"
error_to_string not_connected = "NotConnected"
error_to_string already_connected = "AlreadyConnected"
error_to_string not_supported = "NotSupported"
error_to_string buffer_too_small = "BufferTooSmall"
error_to_string tx_queue_full = "TxQueueFull"
error_to_string no_inflight_slot = "NoInflightSlot"
error_to_string no_subscription_slot = "NoSubscriptionSlot"
error_to_string no_pending_ack_slot = "NoPendingAckSlot"
error_to_string payload_too_large = "PayloadTooLarge"
error_to_string topic_too_long = "TopicTooLong"
error_to_string malformed_packet = "MalformedPacket"
error_to_string protocol_violation = "ProtocolViolation"
error_to_string packet_too_large = "PacketTooLarge"
error_to_string connection_refused = "ConnectionRefused"
error_to_string keep_alive_timeout = "KeepAliveTimeout"
error_to_string connect_timeout = "ConnectTimeout"
error_to_string transport_failure = "TransportFailure"
error_to_string transport_closed = "TransportClosed"
error_to_string reentrant = "Reentrant"

-- `e == Error::Ok`.
abbrev pub is_ok : Error → Bool
is_ok ok = true
is_ok e = false

-- `Result<T>`. No function of the library returns one that carries `Error::Ok` and no value.
pub data Result {ℓ} (A : Type ℓ) : Type ℓ where
  value : A → Result A
  error : Error → Result A

pub Result-cases {ℓ} :
    {A : Type ℓ} (r : Result A) → ((a : A) × (r ≡ value a)) ⊎ ((e : Error) × (r ≡ error e))
Result-cases (value a) = inl (a, refl)
Result-cases (error e) = inr (e, refl)

-- `if (!test) return e;`
abbrev pub guard : Bool → Error → Result (Unit {0})
guard test e = if test then value tt else error e

-- `if (!r.ok()) return r.error();` and the rest.
abbrev pub ◌>>=◌ {ℓ ℓ'} : {S : Type ℓ} {T : Type ℓ'} → Result S → (S → Result T) → Result T
value s >>= rest = rest s
error e >>= rest = error e

abbrev pub ◌>>◌ {ℓ} : {T : Type ℓ} → Result (Unit {0}) → Result T → Result T
first >> rest = first >>= (λ u. rest)

infixl 5 ◌>>=◌ ◌>>◌
