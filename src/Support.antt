-- ===== src/Support.antt =====
-- libraries/support: the containers that the kernel, the network stack and the programs share.
pub mod Queue
pub mod RingBuffer
pub mod Pool
pub mod FlipBuffer
pub mod PageAlloc
pub mod UnorderedMap
pub mod FragBuffer
pub mod String
pub mod Format
pub mod Utils
pub mod Keyvalue
