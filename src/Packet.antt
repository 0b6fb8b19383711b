-- ===== src/Packet.antt =====
-- include/mqtt/packet.hpp and the name tables of src/packet.cpp: the wire vocabulary. A byte span
-- and a string view are the list of their bytes.
use Prim.Native.String.{String}
use paho_cpp_static.Prelude.{ℕ, Bool, not, List, is_empty}

pub data PacketType : Type 0 where
  reserved connect connack publish puback pubrec pubrel pubcomp : PacketType
  subscribe suback unsubscribe unsuback pingreq pingresp disconnect : PacketType

-- The value that the enumeration gives each type.
unfoldable pub type_code : PacketType → ℕ
type_code reserved = 0
type_code connect = 1
type_code connack = 2
type_code publish = 3
type_code puback = 4
type_code pubrec = 5
type_code pubrel = 6
type_code pubcomp = 7
type_code subscribe = 8
type_code suback = 9
type_code unsubscribe = 10
type_code unsuback = 11
type_code pingreq = 12
type_code pingresp = 13
type_code disconnect = 14

-- `enum class QoS : uint8_t` holds any byte; the three names are values of it.
abbrev pub QoS : Type 0
QoS = ℕ

abbrev pub at_most_once : QoS
at_most_once = 0

abbrev pub at_least_once : QoS
at_least_once = 1

abbrev pub exactly_once : QoS
exactly_once = 2

pub data ConnackCode : Type 0 where
  accepted unacceptable_protocol_version identifier_rejected server_unavailable : ConnackCode
  bad_username_or_password not_authorized : ConnackCode

unfoldable pub connack_number : ConnackCode → ℕ
connack_number accepted = 0
connack_number unacceptable_protocol_version = 1
connack_number identifier_rejected = 2
connack_number server_unavailable = 3
connack_number bad_username_or_password = 4
connack_number not_authorized = 5

abbrev pub suback_failure : ℕ
suback_failure = 0x80

abbrev pub protocol_level_3_1_1 : ℕ
protocol_level_3_1_1 = 4

abbrev pub max_remaining_length : ℕ
max_remaining_length = 268435455

abbrev pub max_vbi_bytes : ℕ
max_vbi_bytes = 4

pub record FixedHeader : Type 0 where
  pub ptype : PacketType
  pub dup : Bool
  pub qos : QoS
  pub retain : Bool
  pub remaining_length : ℕ

pub record VbiDecode : Type 0 where
  pub number : ℕ
  pub bytes : ℕ

pub record Message : Type 0 where
  pub topic : List ℕ
  pub payload : List ℕ
  pub qos : QoS
  pub retain : Bool
  pub dup : Bool
  pub packet_id : ℕ

pub record Will : Type 0 where
  pub topic : List ℕ
  pub payload : List ℕ
  pub qos : QoS
  pub retain : Bool

abbrev pub will_valid : Will → Bool
will_valid w = not (is_empty w.topic)

pub record ConnectOptions : Type 0 where
  pub client_id : List ℕ
  pub username : List ℕ
  pub password : List ℕ
  pub will : Will
  pub keep_alive_s : ℕ
  pub clean_session : Bool

pub record ConnackInfo : Type 0 where
  pub code : ConnackCode
  pub session_present : Bool

pub record TopicSubscription : Type 0 where
  pub filter : List ℕ
  pub qos : QoS

unfoldable pub type_to_string : PacketType → String
type_to_string reserved = "RESERVED"
type_to_string connect = "CONNECT"
type_to_string connack = "CONNACK"
type_to_string publish = "PUBLISH"
type_to_string puback = "PUBACK"
type_to_string pubrec = "PUBREC"
type_to_string pubrel = "PUBREL"
type_to_string pubcomp = "PUBCOMP"
type_to_string subscribe = "SUBSCRIBE"
type_to_string suback = "SUBACK"
type_to_string unsubscribe = "UNSUBSCRIBE"
type_to_string unsuback = "UNSUBACK"
type_to_string pingreq = "PINGREQ"
type_to_string pingresp = "PINGRESP"
type_to_string disconnect = "DISCONNECT"

unfoldable pub connack_to_string : ConnackCode → String
connack_to_string accepted = "Accepted"
connack_to_string unacceptable_protocol_version = "Unacceptable protocol version"
connack_to_string identifier_rejected = "Identifier rejected"
connack_to_string server_unavailable = "Server unavailable"
connack_to_string bad_username_or_password = "Bad user name or password"
connack_to_string not_authorized = "Not authorized"
