-- ===== src/Net/Tcp/Step/Tests.antt =====
-- An acknowledgement to a port that is listened on, and the last segment of a handshake.
use peos.Prelude.{
  ℕ, ◌≡◌, refl, subst, Bool, if◌then◌else◌, true, false, none, some, List, [], arith,
}
use peos.Support.Pool.{Pool, fresh, end_sentinel}
use peos.Support.Pool
use peos.Support.Pool.Inv.{Inv, valid_iff, at-valid}
use peos.Support.Queue.{size}
use peos.Net.Tcp.Definitions.{SegmentMetadata, Endpoint, wildcard}
use peos.Net.Tcp.SendQueue.Valid.{IsValid}
use peos.Net.Tcp.Env.{Env, Connection, State, connections_len, listen, syn_rcvd, M, pure, get, put}
use peos.Net.Tcp.Connection.{connection, empty_tx, transition, on_full_receive}
use peos.Net.Tcp.Step.{on_receive, take_ack, step, receive_loop, acknowledge, send_loop}
use peos.Net.Tcp.Step.Diagram.{Reached, on_receive-Reached}
use peos.Net.Tcp.State.Machine.{Holds, Moved, stays}
use peos.Net.Tcp.State.{early_recv, remote_consumed_all}
use peos.Net.Tcp.ReceiveQueue
use peos.Net.Tcp.SendQueue
use peos.Net.Tcp.Step.Acknowledge.{on_receive-listen}

abbrev listener : Connection
listener = connection wildcard (record { ipaddr = 0; port = 80 }) listen

abbrev one_slot {ℓ} : {A : Type ℓ} → A → Pool A
one_slot a = record {
  nodes = λ i. fresh (some a);
  watermark = 1;
  free_list_head = end_sentinel;
  free_list_tail = end_sentinel;
  count = 1;
}

one_slot-Inv : Inv connections_len (one_slot listener) []
one_slot-Inv = record {
  linked = refl;
  tail_last = refl;
  distinct = tt;
  below = tt;
  bounded = omega arith;
  indexed = omega arith;
  counted = refl;
  taken = λ i lt e. (refl, refl, (listener, refl));
}

abbrev stack : Env
stack = record {
  connections = one_slot listener;
  new_connections = Pool.clear (one_slot 0);
  finished_connections = Pool.clear (one_slot 0);
  callback_set = false;
  local_address = 6;
  sent = [];
}

-- Flags ACK, acknowledged number 1.
abbrev probe : SegmentMetadata
probe = record {
  tcp_header = record {
    src_port = 4000;
    dest_port = 80;
    seq_nbr = 9;
    ack_nbr = 1;
    flags_hdrsz = 0x5010;
    wndsz = 10000;
    checksum = 0;
    urgptr = 0;
  };
  src_addr = 5;
  dest_addr = 6;
  flags = 0x10;
}

abbrev no_callback : ℕ → List ℕ → M (Unit {0})
no_callback h bytes = pure tt

empty-IsValid : IsValid empty_tx
unfolding size
empty-IsValid = record {
  buffer = omega arith;
  queue = omega arith;
  chained = refl;
  counted = refl;
  read_in = omega arith;
  no_wrap = omega arith;
}

on_receive-listen_example : on_receive no_callback 0 probe [] stack ≡ none
on_receive-listen_example =
    on_receive-listen no_callback stack 0 listener probe []
      (at-valid connections_len (one_slot listener) [] one_slot-Inv 0
        ((valid_iff connections_len (one_slot listener) [] one_slot-Inv 0).1 (omega arith, refl)))
      refl empty-IsValid refl refl (omega arith)

abbrev remote_end : Endpoint
remote_end = record { ipaddr = 5; port = 4000 }

abbrev handshaking : Connection
handshaking = connection remote_end (record { ipaddr = 6; port = 80 }) syn_rcvd

abbrev before : Env
before = record stack { connections = one_slot handshaking }

before-Inv : Inv connections_len before.connections []
before-Inv = record {
  linked = refl;
  tail_last = refl;
  distinct = tt;
  below = tt;
  bounded = omega arith;
  indexed = omega arith;
  counted = refl;
  taken = λ i lt e. (refl, refl, (handshaking, refl));
}

before_found : Pool.at before.connections 0 ≡ some handshaking
unfolding Pool.at Pool.valid
before_found = refl

before-Holds : Holds before 0 [] syn_rcvd
before-Holds = record {
  inv = before-Inv;
  conn = handshaking;
  found = before_found;
  in_state = refl;
}

-- The last segment of a handshake.
abbrev last_step : SegmentMetadata
last_step = record probe { tcp_header = record probe.tcp_header { ack_nbr = 0 } }

abbrev after_step : Env
after_step = elim (on_receive no_callback 0 last_step [] before) [
  | none ↦ before
  | some (u, env) ↦ env
]

returns : on_receive no_callback 0 last_step [] before ≡ some (tt, after_step)
unfolding on_receive early_recv take_ack step receive_loop acknowledge send_loop get put transition
    remote_consumed_all Pool.at Pool.valid Pool.store_at Pool.size ReceiveQueue.has_readable
    SendQueue.has_readable SendQueue.ack SendQueue.ack_loop SendQueue.drop_front size Pool.clear
returns = refl

no_callback-Moved :
    (bytes : List ℕ) (env env' : Env) (free : List ℕ) (s : State)
    → Holds env 0 free s
    → on_full_receive no_callback 0 bytes env ≡ some (tt, env')
    → Moved env' 0 free s
unfolding on_full_receive get
no_callback-Moved bytes env env' free s v e = by_callback v.conn.has_callback (rw v.found at e)
  where
    by_callback :
        (b : Bool) → ((if b then pure tt else pure tt) env ≡ some (tt, env')) → Moved env' 0 free s
    by_callback true e = (s, stays s, subst (λ t. Holds t 0 free s) (cc e) v)
    by_callback false e = (s, stays s, subst (λ t. Holds t 0 free s) (cc e) v)

on_receive-Reached_example : Reached after_step 0 [] syn_rcvd
on_receive-Reached_example =
    on_receive-Reached no_callback 0 no_callback-Moved last_step [] before after_step [] syn_rcvd
      (λ e. cc e) before-Holds returns
