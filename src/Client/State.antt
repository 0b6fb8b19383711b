-- ===== src/Client/State.antt =====
-- The client's configuration and state, the transport and clock that it borrows, the application's
-- handlers, and the state passing in which its member functions are written.

use paho_cpp_static.Config.{Config}
use paho_cpp_static.Packet.{
  at_most_once, ConnectOptions, ConnackInfo, QoS, PacketType, Message, accepted, TopicSubscription,
}
use paho_cpp_static.Codec.Stream.{ByteStream}
use paho_cpp_static.Error.{Error, ok}
use paho_cpp_static.Prelude.{
  [], true, false, List, Bool, ℕ, Option, ◌+◌, replicate, ◌<◌, if◌then◌else◌, ltb, ◌^◌, ◌-◌, ◌≤◌,
  length, ◌%◌,
}
use Prim.Native.String.{String}
use paho_cpp_static.TxQueue.{TxQueue, empty_queue}

pub data State : Type 0 where
  idle connecting awaiting_connack connected disconnecting : State

unfoldable pub state_to_string : State → String
state_to_string idle = "Idle"
state_to_string connecting = "Connecting"
state_to_string awaiting_connack = "AwaitingConnack"
state_to_string connected = "Connected"
state_to_string disconnecting = "Disconnecting"

abbrev pub is_idle : State → Bool
is_idle idle = true
is_idle s = false

abbrev pub is_connecting : State → Bool
is_connecting connecting = true
is_connecting s = false

abbrev pub is_awaiting : State → Bool
is_awaiting awaiting_connack = true
is_awaiting s = false

abbrev pub is_connected : State → Bool
is_connected connected = true
is_connected s = false

abbrev pub is_disconnecting : State → Bool
is_disconnecting disconnecting = true
is_disconnecting s = false

pub data Phase : Type 0 where
  free wait_puback wait_pubrec wait_pubcomp : Phase

abbrev pub phase_code : Phase → ℕ
phase_code free = 0
phase_code wait_puback = 1
phase_code wait_pubrec = 2
phase_code wait_pubcomp = 3

abbrev pub is_free : Phase → Bool
is_free free = true
is_free p = false

-- `packet` is the first packet_len bytes of the slot's buffer.
pub record OutboundSlot : Type 0 where
  pub packet : List ℕ
  pub packet_id : ℕ
  pub last_sent_ms : ℕ
  pub qos : QoS
  pub phase : Phase

-- A handler slot is unset, or names one of the application's callables.
pub record Subscription : Type 0 where
  pub filter : List ℕ
  pub handler : Option ℕ
  pub sub_id : ℕ
  pub requested_qos : QoS
  pub granted_qos : ℕ
  pub needs_resub : Bool

pub record PendingAck : Type 0 where
  pub subs : List ℕ
  pub sent_ms : ℕ
  pub packet_id : ℕ
  pub expected : PacketType

-- `rx` is the first rx_len_ bytes of the receive buffer.
pub record Client : Type 0 where
  pub tx : TxQueue
  pub rx : List ℕ
  pub outbound : List OutboundSlot
  pub inbound_ids : List ℕ
  pub subscriptions : List Subscription
  pub pending_acks : List PendingAck
  pub connack : ConnackInfo
  pub state : State
  pub last_error : Error
  pub in_step : Bool
  pub keep_alive_ms : ℕ
  pub last_sent_ms : ℕ
  pub last_received_ms : ℕ
  pub ping_sent_ms : ℕ
  pub connect_started_ms : ℕ
  pub inbound_overflow_count : ℕ
  pub tx_backpressure_count : ℕ
  pub next_packet_id : ℕ
  pub next_sub_id : ℕ
  pub ping_outstanding : Bool
  pub clean_session : Bool
  pub retransmit_now : Bool

-- What the handler of a message may do to the client: the calls that the interface allows while the
-- subscription table is walked.
pub data Call : Type 0 where
  connects : ConnectOptions → Call
  disconnects aborts steps : Call
  publishes : List ℕ → List ℕ → QoS → Bool → Call

-- The other handlers may subscribe and unsubscribe as well.
pub data AnyCall : Type 0 where
  basic : Call → AnyCall
  subscribes : List TopicSubscription → Option ℕ → AnyCall
  unsubscribes : List (List ℕ) → AnyCall

-- A handler: a sequence of calls, each of which may depend on what the ones before it returned and
-- left behind.
pub data Program (C : Type 0) : Type 0 where
  finish : Program C
  call : C → (Error → Client → Program C) → Program C

-- The five callback slots, and the callables that a subscription names. An unset slot is `finish`.
pub record Handlers : Type 0 where
  pub on_subscription : ℕ → Message → Program Call
  pub on_message : Message → Program Call
  pub on_connect : ConnackInfo → Program AnyCall
  pub on_disconnect : Error → Program AnyCall
  pub on_delivery : ℕ → Program AnyCall
  pub on_suback : ℕ → List ℕ → Program AnyCall

-- The transport and the clock are the application's: their operations on a state of their own, and
-- what include/mqtt/transport.hpp demands of them.
pub record Env : Type 1 where
  pub World : Type 0
  pub now_ms : World → ℕ × World
  pub open_transport : World → Error × World
  pub send : List ℕ → World → Error × ℕ × World
  pub recv : ℕ → World → Error × List ℕ × World
  pub close : World → World
  pub now_ms_u32 : (w : World) → (now_ms w).0 < 2 ^ 32
  pub send_partial : (bytes : List ℕ) (w : World) → (send bytes w).1 ≤ length bytes
  pub recv_partial : (room : ℕ) (w : World) → length (recv room w).1 ≤ room

-- All that one client is built over.
pub record Setup : Type 1 where
  pub streams : ByteStream
  pub env : Env
  pub cfg : Config
  pub handlers : Handlers

pub record Sys (W : Type 0) : Type 0 where
  pub client : Client
  pub world : W

-- A member function: it returns a value and leaves the client and the outside changed.
abbrev pub M : Setup → Type 0 → Type 0
M u A = Sys u.env.World → A × Sys u.env.World

infixl 5 ◌>>=◌ ◌>>◌
abbrev pub ◌>>=◌ :
    {W A B : Type 0} → (Sys W → A × Sys W) → (A → Sys W → B × Sys W) → Sys W → B × Sys W
◌>>=◌ m f s = let r = m s in f r.0 r.1

abbrev pub ◌>>◌ :
    {W B : Type 0} → (Sys W → Unit {0} × Sys W) → (Sys W → B × Sys W) → Sys W → B × Sys W
◌>>◌ m k s = k (m s).1

abbrev pub pure : {W A : Type 0} → A → Sys W → A × Sys W
pure a s = (a, s)

abbrev pub get : {W : Type 0} → Sys W → Client × Sys W
get s = (s.client, s)

abbrev pub modify : {W : Type 0} → (Client → Client) → Sys W → Unit {0} × Sys W
modify f s = (tt, record s { client = f s.client })

abbrev pub clock_now : (u : Setup) → M u ℕ
clock_now u s = let r = u.env.now_ms s.world in (r.0, record s { world = r.1 })

-- A pure member function, in the state passing.
abbrev pub lift : {W A : Type 0} → (Client → A × Client) → Sys W → A × Sys W
lift f s = let r = f s.client in (r.0, record s { client = r.1 })

-- `elapsed_ms`: 32-bit subtraction.
unfoldable pub elapsed_ms : ℕ → ℕ → ℕ
elapsed_ms now since = (now + 2 ^ 32 - since) % 2 ^ 32

abbrev pub at_least_one : ℕ → ℕ
at_least_one n = if ltb 0 n then n else 1

abbrev pub free_slot : OutboundSlot
free_slot = record {
  packet = [];
  packet_id = 0;
  last_sent_ms = 0;
  qos = at_most_once;
  phase = free;
}

-- A client as it is constructed.
unfoldable pub new_client : Config → Client
unfolding empty_queue
new_client c = record {
  tx = empty_queue c.tx_buffer_size;
  rx = [];
  outbound = replicate (at_least_one c.max_inflight_out) free_slot;
  inbound_ids = [];
  subscriptions = [];
  pending_acks = [];
  connack = record { code = accepted; session_present = false };
  state = idle;
  last_error = ok;
  in_step = false;
  keep_alive_ms = 0;
  last_sent_ms = 0;
  last_received_ms = 0;
  ping_sent_ms = 0;
  connect_started_ms = 0;
  inbound_overflow_count = 0;
  tx_backpressure_count = 0;
  next_packet_id = 0;
  next_sub_id = 0;
  ping_outstanding = false;
  clean_session = true;
  retransmit_now = false;
}
