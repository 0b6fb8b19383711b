-- ===== src/Lib.antt =====
-- A verification library for paho-cpp-static, a static-memory MQTT 3.1.1 client in C++.
--
-- The program is a codec and a client over it. A packet is a first byte (FixedHeader), a remaining
-- length (the variable byte integer) and a body. src/packet.cpp holds the first two, src/codec.cpp
-- the bodies, src/utf8.cpp and src/topic.cpp the strings in them. include/mqtt/tx_queue.hpp is the
-- byte queue in which packets wait for the transport. include/mqtt/client.hpp is the client: its
-- calls check their arguments, encode a packet at the tail of the queue and enter it in a table;
-- step() drives the transport, drains both buffers, runs the handlers and the timers.
--
-- The files and the code that they model:
--   Error            include/mqtt/error.hpp: Error, Result; to_string(Error) of src/packet.cpp
--   Packet           include/mqtt/packet.hpp: the enumerations and structures
--   Header           src/packet.cpp: FixedHeader::to_byte, FixedHeader::from_byte
--   Vbi              src/packet.cpp: vbi_size, vbi_encode, vbi_decode, header_size
--   Utf8             src/utf8.cpp: is_valid_mqtt_string
--   Topic            src/topic.cpp: is_valid_topic_name, is_valid_filter, topic_matches
--   TxQueue          include/mqtt/tx_queue.hpp: TxQueue
--   Codec.Sizes      src/codec.cpp: the *_remaining_length functions
--   Codec.Encode     src/codec.cpp: the encode_* functions
--   Codec.Decode     src/codec.cpp: peek_header, the decode_* functions, read_string
--   Config           include/mqtt/config.hpp: DefaultConfig, ConfigCheck
--   Client.State     include/mqtt/client.hpp: the member variables; transport.hpp
--   Client.Tables    include/mqtt/client.hpp: the table helpers and the two allocators
--   Client.Transmit  include/mqtt/client.hpp: enqueue, enqueue_sized, pump_tx, send_ack
--   Client.Session   include/mqtt/client.hpp: connect, disconnect, abort, shutdown
--   Client.Publish   include/mqtt/client.hpp: publish
--   Client.Requests  include/mqtt/client.hpp: subscribe, unsubscribe
--   Client.Inbound   include/mqtt/client.hpp: dispatch, handle_publish
--   Client.Receive   include/mqtt/client.hpp: the other handle_* functions
--   Client.Drain     include/mqtt/client.hpp: handle_packet, drain_rx, pump_rx
--   Client.Pump      include/mqtt/client.hpp: the timers
--   Client.Step      include/mqtt/client.hpp: step_once, step
--   Client.Register  include/mqtt/client.hpp: the setters of the callbacks
--   Ports.Contract   include/mqtt/transport.hpp: Transport, and a part of what its comments demand
--   Ports.Ipv4       examples/ipv4.hpp: Ipv4, parse_ipv4, ipv4
--   Ports.Sockets    the members that the next two transports share; the system calls
--   Ports.TcpIp      examples/tcp_ip_transport.hpp: TcpIpTransport
--   Ports.Posix      examples/posix_transport.hpp: PosixTransport
--   Ports.Winsock    examples/winsock_transport.hpp: WinsockTransport
--   Ports.Tls        examples/tls_transport.hpp: MbedTlsTransport
--   Ports.Clocks     examples/posix_clock.hpp, examples/win_clock.hpp: the sample clocks
-- Prelude holds the Boolean tests and the lemmas on lists and bits that these share. The modules
-- below a component hold its proofs; those called Tests hold concrete runs. Client.View is the part
-- of the client that invariants speak of, with a record of what an invariant has to withstand;
-- Client.View.Reach has the calls of an application, the setting of callbacks and the changes of
-- the outside world as a relation.
--
-- How the code is represented. Bytes and machine integers are natural numbers; where the code can
-- wrap, `% 2 ^ w` is written out. A span or a string view is the list of its bytes. A fallible
-- function returns a Result. A member function of Client takes the client and the outside world
-- and returns its value and both as it leaves them; a pointer to a table entry is its index or its
-- key. The fixed-capacity containers are lists, and the tests of capacity are those of the code.
-- The byte streams of the Embedded Template Library, the transport, the clock and the handlers are
-- parameters: records of operations, and what their documentation says of them as fields. A handler
-- is a Program, a tree of the calls that it makes to the client: those that the interface allows.
-- It forbids subscribe() and unsubscribe() in the handler of a message.
--
-- The sample transports stand on the calls of POSIX, of Winsock and of mbedTLS, which are parameters:
-- operations on a state of the system that return a value or an error number, and what their
-- documentation says of the lengths that they return, of the descriptors that they open and close,
-- and of the verification result, which reads and writes keep. A transport is the record of its virtual
-- functions, on its own members and that state.
--
-- Bounds. The loops of the variable byte integer run 4 rounds, as in the code. The loops over a
-- string, a filter, the transmit queue and the receive buffer run on fuel that is the number of
-- bytes left, one at least of which each round takes. pump_rx runs its 8 rounds. `depth` bounds how
-- often a handler of on_disconnect connects and ends the new session again inside shutdown(); it is
-- a parameter of everything that may shut a session down.
--
-- Not modelled: the delegate wrapper detail::Handler, a callback that sets callbacks, what a
-- handler does against the interface, a step() that on_disconnect makes outside step() on a session
-- that it has just begun, negative timeouts of the transports' wait_readable, the demo programs of
-- examples/, the tests, the tools, the build, and the Embedded Template Library itself.
pub mod Prelude
pub mod Error
pub mod Packet
pub mod Header
pub mod Vbi
pub mod TxQueue
pub mod Utf8
pub mod Topic
pub mod Codec
pub mod Config
pub mod Client
pub mod Ports
