-- ===== src/Net/Tcp/Step/Acknowledge.antt =====
-- Segments that acknowledge: what they do to the connection they are given to.
use peos.Prelude.{ℕ, ◌<◌, ◌≡◌, refl, true, false, none, some, List}
use peos.Support.Pool
use peos.Net.Tcp.Definitions.{SegmentMetadata, ack, syn, has_flag}
use peos.Net.Tcp.SendQueue.Valid.{IsValid}
use peos.Net.Tcp.SendQueue.Ack.{ack-beyond}
use peos.Net.Tcp.Env.{Env, Connection, listen, M, get}
use peos.Net.Tcp.State.{early_recv-drops}
use peos.Net.Tcp.Step.{on_receive, take_ack}

-- A connection that listens, and has sent nothing, drops a segment that does not begin a connection; but
-- the acknowledgement in it is then taken all the same, and past what was written it fails an assertion.
pub on_receive-listen :
    (callback : ℕ → List ℕ → M (Unit {0})) (env : Env) (h : ℕ) (c : Connection)
    (metadata : SegmentMetadata) (bytes : List ℕ)
    → Pool.at env.connections h ≡ some c
    → c.state ≡ listen
    → IsValid c.tx_queue
    → has_flag metadata.flags syn ≡ false
    → has_flag metadata.flags ack ≡ true
    → c.tx_queue.write_pos < metadata.tcp_header.ack_nbr
    → on_receive callback h metadata bytes env ≡ none
unfolding on_receive take_ack get
on_receive-listen callback env h c metadata bytes e listening v no_syn has_ack past =
    rw
      (
        e,
        listening,
        early_recv-drops h metadata bytes env no_syn,
        has_ack,
        e,
        ack-beyond c.tx_queue metadata.tcp_header.ack_nbr v past,
      )
      refl
