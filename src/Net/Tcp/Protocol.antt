-- ===== src/Net/Tcp/Protocol.antt =====
-- libraries/net/tcp/protocol.cc: a segment from the wire to the connection that it belongs to.
use peos.Prelude.{
  ℕ, ◌*◌, ◌/◌, ◌%◌, ◌^◌, Bool, Option, none, some, List, length, drop, ltb, leb, ◌==◌,
  if◌then◌else◌,
}
use peos.Support.Pool
use peos.Net.Bytes.{load16, load32, swap16, swap32}
use peos.Net.Tcp.Definitions.{Endpoint, Header, SegmentMetadata, wildcard}
use peos.Net.Tcp.Env.{listen, M, ◌>>=◌, ◌>>◌, pure, lift, modify}
use peos.Net.Tcp.State.{create_connection}
use peos.Net.Tcp.Step
use peos.Net.Tcp.Lookup.{find_best_match}
use peos.Net.Tcp.Table.{step_new_connections, destroy_finished_connections}

-- `memcpy(&hdr, data, sizeof(hdr))` and the conversion of its fields.
pub parse_header : List ℕ → Header
parse_header bytes = record {
  src_port = swap16 (load16 bytes 0);
  dest_port = swap16 (load16 bytes 2);
  seq_nbr = swap32 (load32 bytes 4);
  ack_nbr = swap32 (load32 bytes 8);
  flags_hdrsz = swap16 (load16 bytes 12);
  wndsz = swap16 (load16 bytes 14);
  checksum = swap16 (load16 bytes 16);
  urgptr = swap16 (load16 bytes 18);
}

-- Where the payload starts. It is a multiple of 4 as it stands, so that `ALIGN_UP` keeps it.
pub header_size : Header → ℕ
header_size hdr = hdr.flags_hdrsz / 2 ^ 12 * 4

-- The bytes given to the connection. A header size past the end of the datagram makes the length wrap.
payload : Header → List ℕ → Option (List ℕ)
payload hdr bytes =
    if leb (header_size hdr) (length bytes) then some (drop (header_size hdr) bytes) else none

best_match : Endpoint → Endpoint → M ℕ
best_match remote local env = lift (find_best_match env.connections remote local) env

module _ (callback : ℕ → List ℕ → M (Unit {0})) where
  -- The segment to the connection that matches best, and what it leaves to be done.
  deliver : ℕ → SegmentMetadata → List ℕ → M (Unit {0})
  deliver conn metadata bytes = do
    data_ ← lift (payload metadata.tcp_header bytes)
    Step.on_receive callback conn metadata data_
    step_new_connections callback
    destroy_finished_connections

  route : ℕ → ℕ → Header → List ℕ → M (Unit {0})
  route src_addr dest_addr hdr bytes = do
    let metadata : SegmentMetadata = record {
      tcp_header = hdr;
      src_addr = src_addr;
      dest_addr = dest_addr;
      flags = hdr.flags_hdrsz % 512;
    }
    conn ←
        best_match (record { ipaddr = src_addr; port = hdr.src_port })
          (record { ipaddr = dest_addr; port = hdr.dest_port })
    let further = deliver conn metadata bytes
    if conn == Pool.end_sentinel then pure tt else further

  pub on_receive : ℕ → ℕ → List ℕ → M (Unit {0})
  on_receive src_addr dest_addr bytes =
      if ltb (length bytes) 20 then pure tt else route src_addr dest_addr (parse_header bytes) bytes

pub listen_on : Endpoint → M ℕ
listen_on local = create_connection wildcard local listen

-- Whether a callback is set; which one is the parameter of the other operations.
pub set_callback : Bool → M (Unit {0})
set_callback set env = modify (λ env. record env { callback_set = set }) env
