-- ===== src/Net/Tcp/Connection.antt =====
-- libraries/net/tcp/connection.cc: what a connection does for its state. `h` is the connection's handle.
-- The functions that call the state, `on_receive`, `step` and `close`, stand in Net/Tcp/Step.antt.
use peos.Prelude.{
  ℕ, ◌+◌, ◌*◌, ◌/◌, ◌%◌, ◌^◌, Bool, false, ◌&&◌, ◌||◌, Option, none, some, List, [], ◌∷◌, ◌++◌,
  length, ltb, ◌==◌, if◌then◌else◌,
}
use peos.Prelude.Int.{add32}
use peos.Prelude.Fault
use peos.Support.Pool
use peos.Net.Bytes.{bytes16, bytes32}
use peos.Net.Tcp.Checksum.{checksum}
use peos.Net.Tcp.Definitions.{Endpoint, SegmentMetadata, fin, syn, ack, has_flag, set_flag}
use peos.Net.Tcp.SendQueue.{SendQueue, SendSegment}
use peos.Net.Tcp.SendQueue
use peos.Net.Tcp.ReceiveQueue.{ReceiveQueue, RecvSegment}
use peos.Net.Tcp.ReceiveQueue
use peos.Net.Tcp.Env.{
  Env, Connection, State, SentSegment, M, ◌>>=◌, ◌>>◌, pure, lift, get, put, modify, handles_len,
}

-- The number of fields of a filter that are not wildcards, if all of those match; `none` is -1.
-- One field:
match_field : ℕ → ℕ → ℕ → Option ℕ
match_field filter value count =
    if filter == 0 then some count else (if value == filter then some (count + 1) else none)

count_specific_matches : Endpoint → Endpoint → Option ℕ
count_specific_matches filter endpoint =
    Fault.◌>>=◌ (match_field filter.ipaddr endpoint.ipaddr 0)
      (λ matching_fields. match_field filter.port endpoint.port matching_fields)

pub compare : Connection → Endpoint → Endpoint → Option ℕ
compare c remote local = Fault.◌>>=◌ (count_specific_matches c.remote remote) (λ remote_match.
    Fault.◌>>=◌ (count_specific_matches c.local local)
      (λ local_match. some (remote_match + local_match)))

-- A constructed connection: empty queues. What their arrays hold at first is never read.
abbrev pub empty_rx : ReceiveQueue
empty_rx = record {
  segments = Pool.clear (record {
    nodes = λ i. Pool.fresh none;
    watermark = 0;
    free_list_head = Pool.end_sentinel;
    free_list_tail = Pool.end_sentinel;
    count = 0;
  });
  data_buffer = record { items = λ i. 0; read_idx = 0; write_idx = 0 };
  read_cursor = 0;
}

abbrev pub empty_tx : SendQueue
empty_tx = record {
  ack_pos = 0;
  write_pos = 0;
  read_pos = 0;
  wndsz = 0xFFFF;
  data_buffer = record { items = λ i. 0; read_idx = 0; write_idx = 0 };
  segments = record {
    items = λ i. record { flags = 0; seqnbr = 0; data_length = 0; send_length = 0 };
    read_idx = 0;
    write_idx = 0;
  };
}

abbrev pub connection : Endpoint → Endpoint → State → Connection
connection remote local state = record {
  remote = remote;
  local = local;
  state = state;
  rx_queue = empty_rx;
  tx_queue = empty_tx;
  next_outgoing_seqnbr = 0;
  has_callback = false;
  handle = 0;
}

-- `connection_table::finish_connection`.
unfoldable pub finish_connection : ℕ → M (Unit {0})
finish_connection conn_handle env =
    Fault.◌>>=◌ (Pool.emplace_anywhere handles_len env.finished_connections conn_handle)
      (λ (_, p). some (tt, record env { finished_connections = p }))

unfoldable pub mark_for_destruction : ℕ → M (Unit {0})
mark_for_destruction h = do c ← get h; finish_connection c.handle

unfoldable pub transition : ℕ → State → M (Unit {0})
transition h new_state = do c ← get h; put h (record c { state = new_state })

pub reset_tx : ℕ → ℕ → M (Unit {0})
reset_tx h seqnbr = do c ← get h; put h (record c { tx_queue = SendQueue.reset c.tx_queue seqnbr })

pub reset_rx : ℕ → ℕ → M (Unit {0})
reset_rx h seqnbr = do
  c ← get h
  put h (record c { rx_queue = ReceiveQueue.reset c.rx_queue seqnbr })

-- Whether the queue took the segment is not looked at.
unfoldable pub sequence : ℕ → SegmentMetadata → List ℕ → M (Unit {0})
sequence h metadata bytes = do
  c ← get h
  let segment_ : RecvSegment = record {
    flags = metadata.flags;
    seqnbr = metadata.tcp_header.seq_nbr;
    len = 0;
  }
  (_, rx) ← lift (ReceiveQueue.insert c.rx_queue segment_ bytes)
  put h (record c { rx_queue = rx })

unfoldable pub transmit : ℕ → ℕ → List ℕ → ℕ → M (Unit {0})
transmit h flags bytes send_length = do
  c ← get h
  let segment_ : SendSegment = record {
    flags = flags;
    seqnbr = c.tx_queue.write_pos;
    data_length = 0;
    send_length = 0;
  }
  (_, tx) ← lift (SendQueue.write_back c.tx_queue segment_ (some bytes) (length bytes) send_length)
  put h (record c { tx_queue = tx })

-- The byte that stands for a SYN or a FIN in the sequence: `'!'`.
abbrev pub phantom : List ℕ
phantom = 33 ∷ []

unfoldable pub transmit_phantom : ℕ → ℕ → M (Unit {0})
transmit_phantom h flags = transmit h flags phantom 0

-- The public `send`.
pub send_data : ℕ → List ℕ → M (Unit {0})
send_data h bytes = transmit h 0 bytes (length bytes)

-- `hdr`, as it lies in memory. Five words of header.
header_bytes : Connection → ℕ → ℕ → ℕ → List ℕ
header_bytes c flags seqnbr check =
    bytes16 c.local.port
    ++ (bytes16 c.remote.port
        ++ (bytes32 seqnbr
            ++ (bytes32 c.rx_queue.read_cursor
                ++ (bytes16 (flags % 512 + 5 * 2 ^ 12)
                    ++ (bytes16 10000 ++ (check % 256 ∷ check / 256 ∷ bytes16 0))))))

pub is_phantom : ℕ → ℕ → Bool
is_phantom flags size = ((has_flag flags syn || has_flag flags fin) && size == 1) || size == 0

-- The datagram that `send` hands to IPv4. The checksum is computed with its own field 0, and stored
-- as it is.
pub datagram : Env → Connection → ℕ → ℕ → List ℕ → SentSegment
datagram env c flags seqnbr payload =
    let check =
      checksum env.local_address c.remote.ipaddr 6 (header_bytes c flags seqnbr 0) payload in
    record {
      destination = c.remote.ipaddr;
      header = header_bytes c flags seqnbr check;
      payload = payload;
    }

-- The private `send`: a segment with the acknowledgement of what has been read. A phantom byte is
-- not sent along.
unfoldable pub send : ℕ → ℕ → ℕ → List ℕ → M (Unit {0})
send h flags_ seqnbr bytes = do
  let flags = set_flag flags_ ack
  c ← get h
  let payload = if is_phantom flags (length bytes) then [] else bytes
  lift (
      if is_phantom flags (length bytes)
      then some tt
      else (if ltb (length bytes + 20) 1500 then some tt else none))
  modify (λ env. record env { sent = env.sent ++ (datagram env c flags seqnbr payload ∷ []) })
  put h (record c { next_outgoing_seqnbr = add32 seqnbr (length bytes) })

-- `_callback->on_receive` is the application's; it may send and close through the connection.
unfoldable pub on_full_receive : (ℕ → List ℕ → M (Unit {0})) → ℕ → List ℕ → M (Unit {0})
on_full_receive callback h bytes = do
  c ← get h
  if c.has_callback then callback h bytes else pure tt
