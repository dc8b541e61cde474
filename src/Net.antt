-- ===== src/Net.antt =====
-- libraries/net: the network stack.
pub mod Bytes
pub mod Tcp
pub mod Ipv4
pub mod Ethernet
pub mod Retryable
pub mod Arp
