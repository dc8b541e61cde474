-- ===== src/Net/Tcp/State/Machine.antt =====
-- The diagram of the states, and that the handlers keep to it.
use peos.Prelude.{
  ℕ, ◌≡◌, ◌≢◌, refl, subst, ◌∙◌, true, ◌&&◌, Option, none, some, List, length, ◌==◌, Bool-cases,
  inl, inr, ==_iff,
}
use peos.Prelude.Fault.{>>=-eq-some}
use peos.Prelude.Fault
use peos.Support.Pool.{Pool}
use peos.Support.Pool
use peos.Support.Pool.Inv.{Inv}
use peos.Support.Pool.Inv
use peos.Support.Pool.Store.{store_at-Filled}
use peos.Net.Tcp.Definitions.{SegmentMetadata, fin, syn, ack, has_flag}
use peos.Net.Tcp.ReceiveQueue.{RecvSegment}
use peos.Net.Tcp.ReceiveQueue
use peos.Net.Tcp.SendQueue
use peos.Net.Tcp.Env.{
  Env, Connection, State, listen, syn_rcvd, established, last_ack, fin_wait_1, closing, fin_wait_2,
  M, ◌>>=◌, ◌>>◌, pure, lift, get, put, connections_len, handles_len,
}
use peos.Net.Tcp.Connection.{
  sequence, transmit, transmit_phantom, transition, mark_for_destruction, finish_connection,
  phantom, on_full_receive,
}
use peos.Net.Tcp.State.{
  early_recv, sequenced_recv, remote_consumed_all, active_close, early_recv_fin_wait_2,
  sequenced_recv_fin_wait_2,
}

-- The arrows of the diagram, and the ways to stay.
pub data Arrow : State → State → Type 0 where
  stays : (s : State) → Arrow s s
  handshake_done : Arrow syn_rcvd established
  remote_closes : Arrow established last_ack
  local_closes : Arrow established fin_wait_1
  both_close : Arrow fin_wait_1 closing
  fin_acked : Arrow fin_wait_1 fin_wait_2

-- The connection with the handle is in the table, in the state.
pub record Holds (env : Env) (h : ℕ) (free : List ℕ) (s : State) : Type 0 where
  pub inv : Inv connections_len env.connections free
  pub conn : Connection
  pub found : Pool.at env.connections h ≡ some conn
  pub in_state : conn.state ≡ s

found_valid :
    (env : Env) (h : ℕ) (free : List ℕ) (s : State)
    → Holds env h free s
    → Pool.valid env.connections h ≡ true
found_valid env h free s v = elim (Bool-cases (Pool.valid env.connections h)) [
  | inl t ↦ t
  | inr f ↦ cc (v.found, Inv.at-none connections_len env.connections free v.inv h f)
]

put-Holds :
    (env : Env) (h : ℕ) (free : List ℕ) (s : State) (c : Connection)
    → Holds env h free s
    → (env' : Env) × (put h c env ≡ some (tt, env')) × Holds env' h free c.state
unfolding put
put-Holds env h free s c v =
    let (p, e, inv, filled, _) =
      store_at-Filled connections_len env.connections h c free v.inv (found_valid env h free s v) in
    (
      record env { connections = p },
      rw e refl,
      record {
        inv = inv;
        conn = c;
        found = filled h ∙ rw ((==_iff h h).1 refl) refl;
        in_state = refl;
      },
    )

-- A `put` that gave an environment gave the one of the lemma.
pub put-after :
    (env env' : Env) (h : ℕ) (free : List ℕ) (s : State) (c : Connection)
    → Holds env h free s
    → put h c env ≡ some (tt, env')
    → Holds env' h free c.state
put-after env env' h free s c v e =
    let (env'', e', w) = put-Holds env h free s c v in
    subst (λ t. Holds t h free c.state) (cc (e, e')) w

-- A part of the connection replaced by what an operation on it gave.
pub lift-put-Holds :
    {X : Type 0} (env env' : Env) (h : ℕ) (free : List ℕ) (s : State) (o : Option X)
    (g : X → Connection)
    → ((x : X) → (g x).state ≡ s)
    → Holds env h free s
    → (lift o >>= λ x. put h (g x)) env ≡ some (tt, env')
    → Holds env' h free s
lift-put-Holds env env' h free s none g k v e = cc e
lift-put-Holds env env' h free s (some x) g k v e =
    subst (λ t. Holds env' h free t) (k x) (put-after env env' h free s (g x) v e)

sequence-Holds :
    (env env' : Env) (h : ℕ) (free : List ℕ) (s : State) (metadata : SegmentMetadata)
    (bytes : List ℕ)
    → Holds env h free s
    → sequence h metadata bytes env ≡ some (tt, env')
    → Holds env' h free s
unfolding sequence get
sequence-Holds env env' h free s metadata bytes v e =
    lift-put-Holds env env' h free s
      (ReceiveQueue.insert v.conn.rx_queue
        (record { flags = metadata.flags; seqnbr = metadata.tcp_header.seq_nbr; len = 0 }) bytes)
      (λ r. record v.conn { rx_queue = r.1 }) (λ r. v.in_state) v (rw v.found at e)

transmit-Holds :
    (env env' : Env) (h : ℕ) (free : List ℕ) (s : State) (flags : ℕ) (bytes : List ℕ)
    (send_length : ℕ)
    → Holds env h free s
    → transmit h flags bytes send_length env ≡ some (tt, env')
    → Holds env' h free s
unfolding transmit get
transmit-Holds env env' h free s flags bytes send_length v e =
    lift-put-Holds env env' h free s
      (SendQueue.write_back v.conn.tx_queue
        (record {
          flags = flags;
          seqnbr = v.conn.tx_queue.write_pos;
          data_length = 0;
          send_length = 0;
        })
        (some bytes) (length bytes) send_length)
      (λ r. record v.conn { tx_queue = r.1 }) (λ r. v.in_state) v (rw v.found at e)

-- The connection is taken to its new state, whatever it was.
transition-Holds :
    (env env' : Env) (h : ℕ) (free : List ℕ) (s new_state : State)
    → Holds env h free s
    → transition h new_state env ≡ some (tt, env')
    → Holds env' h free new_state
unfolding transition get
transition-Holds env env' h free s new_state v e =
    put-after env env' h free s (record v.conn { state = new_state }) v (rw v.found at e)

finish-Holds :
    (env env' : Env) (h : ℕ) (free : List ℕ) (s : State)
    → Holds env h free s
    → mark_for_destruction h env ≡ some (tt, env')
    → Holds env' h free s
unfolding mark_for_destruction finish_connection get
finish-Holds env env' h free s v e =
    by_pool (Pool.emplace_anywhere handles_len env.finished_connections v.conn.handle)
      (rw v.found at e)
  where
    by_pool :
        (o : Option (ℕ × Pool ℕ))
        → Fault.◌>>=◌ {B = Unit {0} × Env} o
            (λ r. some (tt, record env { finished_connections = r.1 }))
          ≡ some (tt, env')
        → Holds env' h free s
    by_pool none e = cc e
    by_pool (some (i, p)) e =
        subst (λ t. Holds t h free s) {x = record env { finished_connections = p }} (cc e)
          (record { inv = v.inv; conn = v.conn; found = v.found; in_state = v.in_state })

-- One handler after another that keeps the state.
then_transition :
    (env env' : Env) (h : ℕ) (free : List ℕ) (s new_state : State) (m : M (Unit {0}))
    → ((env₁ : Env) → m env ≡ some (tt, env₁) → Holds env₁ h free s)
    → (m >> transition h new_state) env ≡ some (tt, env')
    → Holds env' h free new_state
then_transition env env' h free s new_state m k e =
    let ((u, env₁), first, second) = >>=-eq-some (m env) (λ r. transition h new_state r.1) e in
    transition-Holds env₁ env' h free s new_state (k env₁ (cc first)) second

-- What a handler has done with the connection: it followed an arrow from the state it was in.
abbrev pub Moved : Env → ℕ → List ℕ → State → Type 0
Moved env' h free s = (s' : State) × Arrow s s' × Holds env' h free s'

kept : (env' : Env) (h : ℕ) (free : List ℕ) (s : State) → Holds env' h free s → Moved env' h free s
kept env' h free s v = (s, stays s, v)

-- Doing nothing.
idle :
    (env env' : Env) (h : ℕ) (free : List ℕ) (s : State)
    → Holds env h free s
    → pure tt env ≡ some (tt, env')
    → Moved env' h free s
idle env env' h free s v e = kept env' h free s (subst (λ t. Holds t h free s) (cc e) v)

-- A FIN by itself is sequenced; anything else is passed over.
fin_only :
    (env env' : Env) (h : ℕ) (free : List ℕ) (s : State) (metadata : SegmentMetadata)
    (bytes : List ℕ)
    → Holds env h free s
    → early_recv_fin_wait_2 h metadata bytes env ≡ some (tt, env')
    → Moved env' h free s
unfolding early_recv_fin_wait_2
fin_only env env' h free s metadata bytes v e =
    elim (Bool-cases (has_flag metadata.flags fin && length bytes == 0)) [
      | inl t ↦ kept env' h free s (sequence-Holds env env' h free s metadata phantom v (rw t at e))
      | inr t ↦ idle env env' h free s v (rw t at e)
    ]

-- An arriving segment that a connection which does not listen takes moves it along an arrow or not at
-- all.
pub early_recv-Moved :
    (s : State) (env env' : Env) (h : ℕ) (free : List ℕ) (metadata : SegmentMetadata)
    (bytes : List ℕ)
    → s ≢ listen
    → Holds env h free s
    → early_recv s h metadata bytes env ≡ some (tt, env')
    → Moved env' h free s
unfolding early_recv
early_recv-Moved listen env env' h free metadata bytes n v e = absurd (n refl)
early_recv-Moved syn_rcvd env env' h free metadata bytes n v e =
    elim (Bool-cases (has_flag metadata.flags ack)) [
      | inl t ↦ (
        established,
        handshake_done,
        transition-Holds env env' h free syn_rcvd established v (rw t at e),
      )
      | inr t ↦ idle env env' h free syn_rcvd v (rw t at e)
    ]
early_recv-Moved established env env' h free metadata bytes n v e =
    elim (Bool-cases (has_flag metadata.flags fin && length bytes == 0)) [
      | inl t ↦
          kept env' h free established
            (sequence-Holds env env' h free established metadata phantom v (rw t at e))
      | inr t ↦
          kept env' h free established
            (sequence-Holds env env' h free established metadata bytes v (rw t at e))
    ]
early_recv-Moved fin_wait_1 env env' h free metadata bytes n v e =
    elim (Bool-cases (has_flag metadata.flags fin && length bytes == 0)) [
      | inl t ↦ (
        closing,
        both_close,
        then_transition env env' h free fin_wait_1 closing (sequence h metadata phantom)
            (λ env₁ e₁. sequence-Holds env env₁ h free fin_wait_1 metadata phantom v e₁)
            (rw t at e),
      )
      | inr t ↦ idle env env' h free fin_wait_1 v (rw t at e)
    ]
early_recv-Moved fin_wait_2 env env' h free metadata bytes n v e =
    fin_only env env' h free fin_wait_2 metadata bytes v e
early_recv-Moved last_ack env env' h free metadata bytes n v e = idle env env' h free last_ack v e
early_recv-Moved closing env env' h free metadata bytes n v e = idle env env' h free closing v e

-- A segment in sequence moves the connection along an arrow or not at all, whatever its state, while the
-- application's callback does so too.
pub sequenced_recv-Moved :
    (callback : ℕ → List ℕ → M (Unit {0})) (s : State) (env env' : Env) (h : ℕ) (free : List ℕ)
    (segment : RecvSegment) (bytes : List ℕ)
    → ((e₁ : Env) → on_full_receive callback h bytes env ≡ some (tt, e₁) → Moved e₁ h free s)
    → Holds env h free s
    → sequenced_recv callback s h segment bytes env ≡ some (tt, env')
    → Moved env' h free s
unfolding sequenced_recv sequenced_recv_fin_wait_2
sequenced_recv-Moved callback syn_rcvd env env' h free segment bytes k v e =
    elim (Bool-cases (has_flag segment.flags syn)) [
      | inl t ↦
          kept env' h free syn_rcvd
            (transmit-Holds env env' h free syn_rcvd syn phantom 0 v (rw t at e))
      | inr t ↦ idle env env' h free syn_rcvd v (rw t at e)
    ]
sequenced_recv-Moved callback established env env' h free segment bytes k v e =
    elim (Bool-cases (has_flag segment.flags fin)) [
      | inl t ↦ (
        last_ack,
        remote_closes,
        then_transition env env' h free established last_ack (transmit h fin phantom 0)
            (λ env₁ e₁. transmit-Holds env env₁ h free established fin phantom 0 v e₁) (rw t at e),
      )
      | inr t ↦ k env' (rw t at e)
    ]
sequenced_recv-Moved callback fin_wait_2 env env' h free segment bytes k v e =
    elim (Bool-cases (has_flag segment.flags fin)) [
      | inl t ↦ kept env' h free fin_wait_2 (finish-Holds env env' h free fin_wait_2 v (rw t at e))
      | inr t ↦ idle env env' h free fin_wait_2 v (rw t at e)
    ]
sequenced_recv-Moved callback listen env env' h free segment bytes k v e =
    idle env env' h free listen v e
sequenced_recv-Moved callback last_ack env env' h free segment bytes k v e =
    idle env env' h free last_ack v e
sequenced_recv-Moved callback fin_wait_1 env env' h free segment bytes k v e =
    idle env env' h free fin_wait_1 v e
sequenced_recv-Moved callback closing env env' h free segment bytes k v e =
    idle env env' h free closing v e

pub remote_consumed_all-Moved :
    (s : State) (env env' : Env) (h : ℕ) (free : List ℕ)
    → Holds env h free s
    → remote_consumed_all s h env ≡ some (tt, env')
    → Moved env' h free s
unfolding remote_consumed_all
remote_consumed_all-Moved last_ack env env' h free v e =
    kept env' h free last_ack (finish-Holds env env' h free last_ack v e)
remote_consumed_all-Moved closing env env' h free v e =
    kept env' h free closing (finish-Holds env env' h free closing v e)
remote_consumed_all-Moved fin_wait_1 env env' h free v e =
    (fin_wait_2, fin_acked, transition-Holds env env' h free fin_wait_1 fin_wait_2 v e)
remote_consumed_all-Moved listen env env' h free v e = idle env env' h free listen v e
remote_consumed_all-Moved syn_rcvd env env' h free v e = idle env env' h free syn_rcvd v e
remote_consumed_all-Moved established env env' h free v e = idle env env' h free established v e
remote_consumed_all-Moved fin_wait_2 env env' h free v e = idle env env' h free fin_wait_2 v e

pub active_close-Moved :
    (s : State) (env env' : Env) (h : ℕ) (free : List ℕ)
    → Holds env h free s
    → active_close s h env ≡ some (tt, env')
    → Moved env' h free s
unfolding active_close transmit_phantom
active_close-Moved established env env' h free v e = (
  fin_wait_1,
  local_closes,
  then_transition env env' h free established fin_wait_1 (transmit h fin phantom 0)
      (λ env₁ e₁. transmit-Holds env env₁ h free established fin phantom 0 v e₁) e,
)
active_close-Moved listen env env' h free v e = idle env env' h free listen v e
active_close-Moved syn_rcvd env env' h free v e = idle env env' h free syn_rcvd v e
active_close-Moved last_ack env env' h free v e = idle env env' h free last_ack v e
active_close-Moved fin_wait_1 env env' h free v e = idle env env' h free fin_wait_1 v e
active_close-Moved closing env env' h free v e = idle env env' h free closing v e
active_close-Moved fin_wait_2 env env' h free v e = idle env env' h free fin_wait_2 v e
