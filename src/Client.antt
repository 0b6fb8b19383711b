-- ===== src/Client.antt =====
-- include/mqtt/client.hpp: the single-threaded MQTT client.
pub mod State
pub mod Tables
pub mod Transmit
pub mod Publish
pub mod Requests
pub mod Session
pub mod Inbound
pub mod Receive
pub mod Drain
pub mod Pump
pub mod Step
pub mod Register
pub mod View
pub mod Ids
pub mod KeepAlive
pub mod Flush
pub mod Wire
pub mod Queued
pub mod Acks
pub mod Resend
pub mod Atomic
pub mod Refused
pub mod Handshake
pub mod Waits
pub mod Accepted
pub mod Entered
pub mod Subscribed
pub mod Dispatch
pub mod Delivery
mod Tests
