-- ===== src/Codec.antt =====
-- src/codec.cpp and include/mqtt/codec.hpp: packets to bytes and back.
pub mod Stream
pub mod Sizes
pub mod Encode
pub mod Decode
pub mod Writes
pub mod Wire
pub mod Requests
pub mod Connect
pub mod Publish
pub mod Room
pub mod Fails
pub mod Ack
pub mod Connack
mod Tests
