-- ===== src/Net/Tcp/Step.antt =====
-- libraries/net/tcp/connection.cc: the functions of a connection that call its state.
pub mod Acknowledge
pub mod Diagram
mod Tests
use peos.Prelude.{ℕ, zero, suc, Bool, not, ◌&&◌, none, List, [], leb, if◌then◌else◌}
use peos.Support.Pool
use peos.Support.Queue
use peos.Net.Tcp.Definitions.{SegmentMetadata, ack, has_flag}
use peos.Net.Tcp.SendQueue.{SendQueue, SendSegment}
use peos.Net.Tcp.SendQueue
use peos.Net.Tcp.ReceiveQueue.{ReceiveQueue, RecvSegment}
use peos.Net.Tcp.ReceiveQueue
use peos.Net.Tcp.Env.{M, ◌>>=◌, ◌>>◌, pure, lift, get, put}
use peos.Net.Tcp.Connection.{send}
use peos.Net.Tcp.State.{early_recv, sequenced_recv, remote_consumed_all, active_close}

-- The size of the buffer of `step`.
abbrev buffer_size : ℕ
buffer_size = 20480

module _ (callback : ℕ → List ℕ → M (Unit {0})) where
  -- One segment out of the receive queue and into the state.
  receive_one : ℕ → M (Unit {0})
  receive_one h = do
    c ← get h
    (segment, bytes, rx) ← lift (ReceiveQueue.read_one_segment c.rx_queue buffer_size)
    put h (record c { rx_queue = rx })
    sequenced_recv callback c.state h segment bytes

  -- The first loop of `step`. Each round takes a segment out of the pool, and no state puts one in.
  receive_loop : ℕ → ℕ → M (Unit {0})
  receive_loop zero h = λ env. none
  receive_loop (suc fuel) h = do
    c ← get h
    readable ← lift (ReceiveQueue.has_readable c.rx_queue)
    let further = receive_one h >> receive_loop fuel h
    if readable then further else pure tt

  -- One segment out of the send queue. A read that returns nothing leaves `seg` unwritten.
  send_one : ℕ → M (Unit {0})
  send_one h = do
    c ← get h
    (_, read, tx) ← lift (SendQueue.read_one_segment c.tx_queue buffer_size)
    put h (record c { tx_queue = tx })
    (seg, bytes) ← lift read
    send h seg.flags seg.seqnbr bytes

  -- The second loop. Each round moves the read position on by one segment.
  send_loop : ℕ → ℕ → M (Unit {0})
  send_loop zero h = λ env. none
  send_loop (suc fuel) h = do
    c ← get h
    let further = send_one h >> send_loop fuel h
    if SendQueue.has_readable c.tx_queue then further else pure tt

  -- The empty segment that carries an acknowledgement when nothing else will.
  acknowledge : ℕ → Bool → M (Unit {0})
  acknowledge h received_sequenced = do
    c ← get h
    if received_sequenced && not (SendQueue.has_readable c.tx_queue)
        then send h 0 c.next_outgoing_seqnbr []
        else pure tt

  pub step : ℕ → M (Unit {0})
  step h = do
    c ← get h
    received_sequenced ← lift (ReceiveQueue.has_readable c.rx_queue)
    receive_loop (suc (Pool.size c.rx_queue.segments)) h
    acknowledge h received_sequenced
    c' ← get h
    send_loop (suc (Queue.size c'.tx_queue.segments)) h

  -- The acknowledgement that a segment brings.
  take_ack : ℕ → SegmentMetadata → M (Unit {0})
  take_ack h metadata = do
    c ← get h
    tx ← lift (SendQueue.ack c.tx_queue metadata.tcp_header.ack_nbr)
    put h (record c { tx_queue = tx })
    if leb tx.write_pos metadata.tcp_header.ack_nbr then remote_consumed_all c.state h else pure tt

  pub on_receive : ℕ → SegmentMetadata → List ℕ → M (Unit {0})
  on_receive h metadata bytes = do
    c ← get h
    early_recv c.state h metadata bytes
    if has_flag metadata.flags ack then take_ack h metadata else pure tt
    step h

pub close : ℕ → M (Unit {0})
close h = do c ← get h; active_close c.state h
