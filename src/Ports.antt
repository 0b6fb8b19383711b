-- ===== src/Ports.antt =====
-- examples/: the transports and clocks that are shipped with the library, over the operating
-- system's calls as parameters.
pub mod Ipv4
pub mod Contract
pub mod Sockets
pub mod Ledger
pub mod TcpIp
pub mod Posix
pub mod Winsock
pub mod Tls
pub mod Clocks
mod Tests
