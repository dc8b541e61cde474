-- ===== src/Net/Tcp.antt =====
-- libraries/net/tcp: segments, queues, connections and their states.
pub mod Definitions
pub mod SendQueue
pub mod ReceiveQueue
pub mod Checksum
pub mod Env
pub mod Connection
pub mod State
pub mod Step
pub mod Lookup
pub mod Table
pub mod Protocol
