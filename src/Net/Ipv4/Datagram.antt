-- ===== src/Net/Ipv4/Datagram.antt =====
-- libraries/net/ipv4/definitions.h, utils.cc and reassembly_buffer.h: headers, checksums, addresses
-- and what is kept of a datagram in parts.
use peos.Prelude.{
  ℕ, ◌+◌, ◌-◌, ◌*◌, ◌/◌, ◌%◌, ◌^◌, Bool, true, false, ◌&&◌, Option, none, some, List, [], ◌∷◌, ◌++◌,
  take, drop, get_or, leb, ◌==◌, if◌then◌else◌,
}
use Prim.Native.Nat.{bit_and}
use peos.Prelude.Fault.{◌>>=◌, ◌>>◌, assert}
use peos.Prelude.Int.{ℤ, pos}
use peos.Support.Pool.{Pool}
use peos.Support.Pool
use peos.Support.FragBuffer.{FragBuffer}
use peos.Support.FragBuffer
use peos.Support.UnorderedMap.{Entry}
use peos.Net.Bytes.{load16, load32, sum_words, ones_complement}

abbrev pub proto_icmp : ℕ
proto_icmp = 1

abbrev pub proto_tcp : ℕ
proto_tcp = 6

abbrev pub proto_udp : ℕ
proto_udp = 17

-- The header's fields as they lie in memory, the two bit fields apart.
pub record Header : Type 0 where
  pub ihl : ℕ
  pub version : ℕ
  pub total_len : ℕ
  pub id : ℕ
  pub frag_ofs : ℕ
  pub ttl : ℕ
  pub protocol : ℕ
  pub checksum : ℕ
  pub src_addr : ℕ
  pub dest_addr : ℕ

unfoldable pub load_header : List ℕ → Header
load_header bytes = record {
  ihl = get_or bytes 0 0 % 16;
  version = get_or bytes 0 0 / 16;
  total_len = load16 bytes 2;
  id = load16 bytes 4;
  frag_ofs = load16 bytes 6;
  ttl = get_or bytes 8 0;
  protocol = get_or bytes 9 0;
  checksum = load16 bytes 10;
  src_addr = load32 bytes 12;
  dest_addr = load32 bytes 16;
}

-- The header's bytes with its checksum field 0.
unfoldable pub unchecked : List ℕ → List ℕ
unchecked bytes = take 10 bytes ++ (0 ∷ 0 ∷ drop 12 (take 20 bytes))

-- `checksum` of a header whose checksum field is 0, with its options.
pub checksum : List ℕ → List ℕ → ℕ
checksum header options = ones_complement ((sum_words header + sum_words options) % 2 ^ 64)

-- The loop of `parse_ipaddr` over the string's bytes, which end in 0. A byte that is neither a digit
-- nor a dot nor the end is looked at for ever; `none` is that, or the assertion on the octet.
unfoldable pub parse_octets : List ℕ → ℕ → ℕ → Option ℕ
parse_octets [] ipaddr current_octet = do
  assert (leb current_octet 255)
  some ((ipaddr * 2 ^ 8 + current_octet) % 2 ^ 32)
parse_octets (c ∷ str) ipaddr current_octet =
    let digit = parse_octets str ipaddr (current_octet * 10 + (c - 48)) in
    let dot = parse_octets str ((ipaddr * 2 ^ 8 + current_octet) % 2 ^ 32) 0 in
    if leb 48 c && leb c 57
    then digit
    else (if c == 46 then (do assert (leb current_octet 255); dot) else none)

unfoldable pub parse_ipaddr : List ℕ → Option ℕ
parse_ipaddr str = parse_octets str 0 0

-- `~netmask`.
abbrev pub inverse : ℕ → ℕ
inverse netmask = 2 ^ 32 - 1 - netmask

pub is_broadcast_address : ℕ → ℕ → Bool
is_broadcast_address addr netmask =
    bit_and addr (inverse netmask) == bit_and (2 ^ 32 - 1) (inverse netmask)

pub is_same_subnet : ℕ → ℕ → ℕ → Bool
is_same_subnet addr1 addr2 netmask = bit_and addr1 netmask == bit_and addr2 netmask

pub record Identifier : Type 0 where
  pub dest : ℕ
  pub source : ℕ
  pub id : ℕ
  pub protocol : ℕ

pub same_identifier : Identifier → Identifier → Bool
same_identifier i other =
    i.dest == other.dest
    && i.source == other.source
    && i.id == other.id
    && i.protocol == other.protocol

pub record ReassemblyBuffer : Type 0 where
  pub ttl : ℤ
  pub received_last : Bool
  pub fragments : FragBuffer

-- The template arguments.
abbrev pub fragments_len : ℕ
fragments_len = 10000

abbrev pub buffers_len : ℕ
buffers_len = 10

-- `{}`. What the array holds at first is not read before it is written.
pub reassembly_buffer : Option ReassemblyBuffer
reassembly_buffer = do
  fragments ← FragBuffer.reset fragments_len (record {
    bytes = λ i. 0;
    holes = record {
      nodes = λ i. Pool.fresh none;
      watermark = 0;
      free_list_head = Pool.end_sentinel;
      free_list_tail = Pool.end_sentinel;
      count = 0;
    };
  })
  some (record { ttl = pos 20000; received_last = false; fragments = fragments })

pub record Ipv4 : Type 0 where
  pub local_ : ℕ
  pub netmask : ℕ
  pub default_gateway : ℕ
  pub next_datagram_id : ℕ
  pub reassembly_buffers : Pool (Entry Identifier ReassemblyBuffer)

pub configure : Ipv4 → ℕ → ℕ → ℕ → Ipv4
configure s local netmask default_gateway = record s {
  local_ = local;
  netmask = netmask;
  default_gateway = default_gateway;
}

-- Whether the local host answers to the address.
unfoldable pub is_recipient : Ipv4 → ℕ → Bool
is_recipient s dest_addr =
    if dest_addr == s.local_
    then true
    else (if is_same_subnet dest_addr s.local_ s.netmask && is_broadcast_address dest_addr s.netmask
        then true
        else false)
