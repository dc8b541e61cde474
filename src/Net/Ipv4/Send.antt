-- ===== src/Net/Ipv4/Send.antt =====
-- libraries/net/ipv4/protocol.cc: the datagrams that are sent, and where their next hop is.
use peos.Prelude.{
  ℕ, ◌+◌, ◌*◌, ◌/◌, ◌%◌, ◌^◌, Option, none, some, List, [], ◌∷◌, ◌++◌, length, ltb, ◌==◌,
  if◌then◌else◌,
}
use Prim.Native.Nat.{bit_and}
use peos.Net.Bytes.{bytes16, bytes32}
use peos.Net.Ipv4.Datagram.{Ipv4, checksum}

-- The header of a datagram to be sent, with the checksum given.
unfoldable pub header_bytes : ℕ → ℕ → ℕ → ℕ → ℕ → ℕ → List ℕ
header_bytes len id protocol check src_addr dest_addr =
    (5 + 4 * 16)
    ∷ 0
    ∷ (bytes16 len
        ++ (bytes16 id
            ++ (0
                ∷ 0
                ∷ 65
                ∷ protocol
                ∷ check % 256
                ∷ check / 256
                ∷ (bytes32 src_addr ++ bytes32 dest_addr))))

-- The frame's payload for ethernet, and the state: the identifier is used up also where the datagram is
-- too large and dropped.
unfoldable pub send_single_datagram : Ipv4 → ℕ → ℕ → ℕ → List ℕ → Option (List ℕ) × Ipv4
send_single_datagram s protocol src_addr dest_addr bytes =
    let s' = record s { next_datagram_id = (s.next_datagram_id + 1) % 2 ^ 16 } in
    let len = (20 + length bytes) % 2 ^ 16 in
    let check = checksum (header_bytes len s.next_datagram_id protocol 0 src_addr dest_addr) [] in
    if ltb 1500 (20 + length bytes)
    then (none, s')
    else (some (header_bytes len s.next_datagram_id protocol check src_addr dest_addr ++ bytes), s')

-- The destination itself in the own subnet, or the gateway.
pub next_hop : Ipv4 → ℕ → ℕ
next_hop s destination =
    if bit_and s.local_ s.netmask == bit_and destination s.netmask
    then destination
    else s.default_gateway
