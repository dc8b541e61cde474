-- ===== src/Net/Ipv4/Receive.antt =====
-- libraries/net/ipv4/protocol.cc: `on_receive`. `none` is a failed assertion or an access outside an array.
pub mod Drops
pub mod Refused
pub mod Sent
use peos.Prelude.{
  ℕ, zero, suc, ◌-◌, ◌*◌, ◌/◌, ◌%◌, ◌^◌, min, Bool, true, false, not, ◌&&◌, ◌||◌, Option, none,
  some, List, [], ◌∷◌, length, take, drop, ltb, ◌==◌, if◌then◌else◌,
}
use peos.Prelude.Fault.{◌>>=◌, ◌>>◌, assert}
use peos.Support.Pool.{Pool}
use peos.Support.Pool
use peos.Support.FragBuffer
use peos.Support.UnorderedMap.{Entry}
use peos.Support.UnorderedMap
use peos.Net.Bytes.{swap16, swap32}
use peos.Net.Ipv4.Datagram.{
  Header, Identifier, ReassemblyBuffer, Ipv4, proto_icmp, proto_tcp, proto_udp, load_header,
  unchecked, checksum, same_identifier, fragments_len, buffers_len, reassembly_buffer, is_recipient,
}

-- What is handed to the protocol above.
pub record Datagram : Type 0 where
  pub src_addr : ℕ
  pub dest_addr : ℕ
  pub protocol : ℕ
  pub payload : List ℕ

-- Whether there is a protocol to hand the datagram to, and the call of it.
forward_datagram : Datagram → Option Datagram
forward_datagram d =
    if d.protocol == proto_tcp || d.protocol == proto_udp || d.protocol == proto_icmp
    then some d
    else none

-- The checks before the addressee is looked at: each is a reason to drop the packet.
unfoldable pub passes_checks : Header → List ℕ → Bool
passes_checks hdr bytes =
    if not (hdr.version == 4)
    then false
    else (if ltb 60 (hdr.ihl * 4)
        then false
        else (if ltb (swap16 hdr.total_len) (hdr.ihl * 4)
            then false
            else (if ltb (length bytes) (swap16 hdr.total_len)
                then false
                else (if hdr.ttl == 0 then false else true))))

-- The bytes between the header and the payload.
pub options : Header → List ℕ → List ℕ
options hdr bytes = if ltb 20 (hdr.ihl * 4) then take (hdr.ihl * 4 - 20) (drop 20 bytes) else []

pub right_checksum : Header → List ℕ → Bool
right_checksum hdr bytes =
    swap16 hdr.checksum == swap16 (checksum (unchecked bytes) (options hdr bytes))

pub payload : Header → List ℕ → List ℕ
payload hdr bytes =
    take (min (swap16 hdr.total_len - 4 * hdr.ihl) (length bytes - 20)) (drop (4 * hdr.ihl) bytes)

-- `flags & FLAGS_MF`, of the upper four bits.
pub more_fragments : Header → Bool
more_fragments hdr = swap16 hdr.frag_ofs / 2 ^ 12 / 2 % 2 == 1

frag_offset : Header → ℕ
frag_offset hdr = swap16 hdr.frag_ofs % 2 ^ 13 * 8

-- The buffer of the datagram, made if there is none.
find_buffer : Ipv4 → Identifier → Option (ℕ × Ipv4)
find_buffer s ident = do
  it ← UnorderedMap.find same_identifier s.reassembly_buffers ident
  if not (it == s.reassembly_buffers.watermark) then some (it, s) else (do
    empty ← reassembly_buffer
    (_, buffers) ← UnorderedMap.insert same_identifier buffers_len s.reassembly_buffers ident empty
    it' ← UnorderedMap.find same_identifier buffers ident
    assert (not (it' == buffers.watermark))
    some (it', record s { reassembly_buffers = buffers }))

bytes_upto : (ℕ → ℕ) → ℕ → ℕ → List ℕ
bytes_upto bytes zero i = []
bytes_upto bytes (suc n) i = bytes i ∷ bytes_upto bytes n (suc i)

-- The datagram, if it is complete; its buffer is then given up.
complete : Ipv4 → ℕ → ReassemblyBuffer → Datagram → Option (Option Datagram × Ipv4)
complete s it buffer part = do
  size ← FragBuffer.continuous_size buffer.fragments
  if buffer.received_last && ltb 0 size
      then (do
        buffers ← UnorderedMap.erase s.reassembly_buffers it
        some (
          forward_datagram (record part { payload = bytes_upto buffer.fragments.bytes size 0 }),
          record s { reassembly_buffers = buffers },
        ))
      else some (none, s)

reassemble : Ipv4 → Header → Datagram → Option (Option Datagram × Ipv4)
reassemble s hdr part = if Pool.full buffers_len s.reassembly_buffers then some (none, s) else (do
  (it, s') ← find_buffer s (record {
    dest = part.dest_addr;
    source = part.src_addr;
    id = swap16 hdr.id;
    protocol = part.protocol;
  })
  entry ← Pool.at s'.reassembly_buffers it
  fragments ← FragBuffer.insert fragments_len entry.value.fragments (frag_offset hdr) part.payload
  let buffer : ReassemblyBuffer = record entry.value {
    received_last = if not (more_fragments hdr) then true else entry.value.received_last;
    fragments = fragments;
  }
  buffers ← Pool.store_at s'.reassembly_buffers it (record entry { value = buffer })
  complete (record s' { reassembly_buffers = buffers }) it buffer part)

-- Once the packet is accepted: `hdr.frag_ofs` is compared as a whole, flags included.
accept : Ipv4 → Header → List ℕ → Option (Option Datagram × Ipv4)
accept s hdr bytes =
    let part : Datagram = record {
      src_addr = swap32 hdr.src_addr;
      dest_addr = swap32 hdr.dest_addr;
      protocol = hdr.protocol;
      payload = payload hdr bytes;
    } in
    if not (more_fragments hdr) && hdr.frag_ofs == 0
    then some (forward_datagram part, s)
    else reassemble s hdr part

pub on_receive : Ipv4 → List ℕ → Option (Option Datagram × Ipv4)
on_receive s bytes = do
  assert (ltb 20 (length bytes))
  let hdr = load_header bytes
  if not (passes_checks hdr bytes)
      then some (none, s)
      else (if not (right_checksum hdr bytes)
          then some (none, s)
          else (if not (is_recipient s (swap32 hdr.dest_addr))
              then some (none, s)
              else accept s hdr bytes))
