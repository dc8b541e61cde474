-- ===== src/Net/Tcp/State.antt =====
-- libraries/net/tcp/connection_state.cc: what each state does with a segment that has arrived, with one
-- that is in sequence, when the remote has everything, and when the application closes.
pub mod Machine
use peos.Prelude.{◌≡◌, ℕ, false, not, ◌&&◌, some, List, length, ◌==◌, if◌then◌else◌}
use peos.Prelude.Fault
use peos.Support.Pool
use peos.Net.Tcp.Definitions.{Endpoint, SegmentMetadata, fin, syn, ack, has_flag}
use peos.Net.Tcp.ReceiveQueue.{RecvSegment}
use peos.Net.Tcp.Env.{
  Env, Connection, State, listen, syn_rcvd, established, last_ack, fin_wait_1, closing, fin_wait_2,
  M, ◌>>=◌, ◌>>◌, pure, get, put, connections_len, handles_len,
}
use peos.Net.Tcp.Connection.{
  connection, phantom, mark_for_destruction, transition, reset_tx, reset_rx, sequence, transmit,
  transmit_phantom, on_full_receive,
}

-- `_new_connections.emplace_anywhere`, and the connection itself.
add_new : ℕ → M (Unit {0})
add_new conn_handle env =
    Fault.◌>>=◌ (Pool.emplace_anywhere handles_len env.new_connections conn_handle)
      (λ (_, p). some (tt, record env { new_connections = p }))

add_connection : Connection → M ℕ
add_connection c env =
    Fault.◌>>=◌ (Pool.emplace_anywhere connections_len env.connections c)
      (λ (idx, p). some (idx, record env { connections = p }))

-- `connection_table::create_connection`. A full table is only logged; the pool then fails its
-- assertion.
pub create_connection : Endpoint → Endpoint → State → M ℕ
create_connection remote local state env =
    (do
      connection_id ← add_connection (connection remote local state)
      c ← get connection_id
      put connection_id (record c { handle = connection_id; has_callback = env.callback_set })
      add_new connection_id
      pure connection_id)
      env

-- A segment that begins a connection: it is sequenced in a connection of its own.
pub listen_syn : SegmentMetadata → M (Unit {0})
listen_syn metadata = do
  conn_idx ←
      create_connection (record { ipaddr = metadata.src_addr; port = metadata.tcp_header.src_port })
        (record { ipaddr = metadata.dest_addr; port = metadata.tcp_header.dest_port }) syn_rcvd
  reset_rx conn_idx metadata.tcp_header.seq_nbr
  reset_tx conn_idx 0xDEADBEEF
  sequence conn_idx metadata phantom

-- A FIN by itself is sequenced with a phantom byte, so that it can be acknowledged.
pub early_recv_fin_wait_2 : ℕ → SegmentMetadata → List ℕ → M (Unit {0})
early_recv_fin_wait_2 h metadata bytes =
    if has_flag metadata.flags fin && length bytes == 0
    then sequence h metadata phantom
    else pure tt

-- `early_recv`.
unfoldable pub early_recv : State → ℕ → SegmentMetadata → List ℕ → M (Unit {0})
early_recv listen h metadata bytes =
    if not (has_flag metadata.flags syn) then pure tt else listen_syn metadata
early_recv syn_rcvd h metadata bytes =
    if has_flag metadata.flags ack then transition h established else pure tt
early_recv established h metadata bytes =
    if has_flag metadata.flags fin && length bytes == 0
    then sequence h metadata phantom
    else sequence h metadata bytes
early_recv fin_wait_1 h metadata bytes =
    if has_flag metadata.flags fin && length bytes == 0
    then sequence h metadata phantom >> transition h closing
    else pure tt
early_recv fin_wait_2 h metadata bytes = early_recv_fin_wait_2 h metadata bytes
early_recv last_ack h metadata bytes = pure tt
early_recv closing h metadata bytes = pure tt

sequenced_recv_fin_wait_2 : ℕ → RecvSegment → M (Unit {0})
sequenced_recv_fin_wait_2 h segment =
    if has_flag segment.flags fin then mark_for_destruction h else pure tt

-- `sequenced_recv`.
pub sequenced_recv : (ℕ → List ℕ → M (Unit {0})) → State → ℕ → RecvSegment → List ℕ → M (Unit {0})
sequenced_recv callback syn_rcvd h segment bytes =
    if not (has_flag segment.flags syn) then pure tt else transmit h syn phantom 0
sequenced_recv callback established h segment bytes =
    if has_flag segment.flags fin
    then transmit h fin phantom 0 >> transition h last_ack
    else on_full_receive callback h bytes
sequenced_recv callback fin_wait_2 h segment bytes = sequenced_recv_fin_wait_2 h segment
sequenced_recv callback listen h segment bytes = pure tt
sequenced_recv callback last_ack h segment bytes = pure tt
sequenced_recv callback fin_wait_1 h segment bytes = pure tt
sequenced_recv callback closing h segment bytes = pure tt

-- `remote_consumed_all`.
unfoldable pub remote_consumed_all : State → ℕ → M (Unit {0})
remote_consumed_all last_ack h = mark_for_destruction h
remote_consumed_all fin_wait_1 h = transition h fin_wait_2
remote_consumed_all closing h = mark_for_destruction h
remote_consumed_all listen h = pure tt
remote_consumed_all syn_rcvd h = pure tt
remote_consumed_all established h = pure tt
remote_consumed_all fin_wait_2 h = pure tt

-- `active_close`.
pub active_close : State → ℕ → M (Unit {0})
active_close established h = transmit_phantom h fin >> transition h fin_wait_1
active_close listen h = pure tt
active_close syn_rcvd h = pure tt
active_close last_ack h = pure tt
active_close fin_wait_1 h = pure tt
active_close closing h = pure tt
active_close fin_wait_2 h = pure tt

-- The branch of `early_recv` that drops a segment on a port that is listened on.
pub early_recv-drops :
    (h : ℕ) (metadata : SegmentMetadata) (bytes : List ℕ) (env : Env)
    → has_flag metadata.flags syn ≡ false
    → early_recv listen h metadata bytes env ≡ some (tt, env)
unfolding early_recv
early_recv-drops h metadata bytes env e = rw e
