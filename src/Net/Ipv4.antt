-- ===== src/Net/Ipv4.antt =====
-- libraries/net/ipv4: datagrams, their checks, and their reassembly.
pub mod Datagram
pub mod Receive
pub mod Tick
pub mod Send
mod Tests
