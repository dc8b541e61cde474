-- ===== src/Net/Tcp/Env.antt =====
-- What the connections of a stack share: the table (libraries/net/tcp/connection_table.h), the segments
-- handed to IPv4, and connections (libraries/net/tcp/connection.h) that refer to it by their handles.
-- An operation takes the environment and gives it back. `none` is a failed assertion, an access
-- outside an object, a read of a variable that was never written, or a loop that does not end.
use peos.Prelude.{ℕ, Bool, Option, some, List}
use peos.Prelude.Fault
use peos.Support.Pool.{Pool}
use peos.Support.Pool
use peos.Net.Tcp.Definitions.{Endpoint}
use peos.Net.Tcp.SendQueue.{SendQueue}
use peos.Net.Tcp.ReceiveQueue.{ReceiveQueue}

-- The `connection_state` objects.
pub data State : Type 0 where
  listen syn_rcvd established last_ack fin_wait_1 closing fin_wait_2 : State

pub record Connection : Type 0 where
  pub remote : Endpoint
  pub local : Endpoint
  pub state : State
  pub rx_queue : ReceiveQueue
  pub tx_queue : SendQueue
  pub next_outgoing_seqnbr : ℕ
  -- Whether `_callback` is set.
  pub has_callback : Bool
  pub handle : ℕ

-- A call of `ipv4::protocol::send`.
pub record SentSegment : Type 0 where
  pub destination : ℕ
  pub header : List ℕ
  pub payload : List ℕ

pub record Env : Type 0 where
  pub connections : Pool Connection
  pub new_connections : Pool ℕ
  pub finished_connections : Pool ℕ
  pub callback_set : Bool
  pub local_address : ℕ
  -- The newest last.
  pub sent : List SentSegment

-- The template arguments of the three pools.
abbrev pub connections_len : ℕ
connections_len = 40

abbrev pub handles_len : ℕ
handles_len = 10

abbrev pub M : Type 0 → Type 0
M A = Env → Option (A × Env)

infixl 5 ◌>>=◌ ◌>>◌
abbrev pub ◌>>=◌ : {A B : Type 0} → M A → (A → M B) → M B
◌>>=◌ m f env = Fault.◌>>=◌ (m env) (λ (a, env'). f a env')

abbrev pub ◌>>◌ : {B : Type 0} → M (Unit {0}) → M B → M B
m >> k = m >>= λ _. k

abbrev pub pure : {A : Type 0} → A → M A
pure a env = some (a, env)

abbrev pub lift : {A : Type 0} → Option A → M A
lift o env = Fault.◌>>=◌ o (λ a. some (a, env))

-- `connection_table::operator []`, read and written.
unfoldable pub get : ℕ → M Connection
get h env = lift (Pool.at env.connections h) env

unfoldable pub put : ℕ → Connection → M (Unit {0})
put h c env =
    Fault.◌>>=◌ (Pool.store_at env.connections h c) (λ p. some (tt, record env { connections = p }))

unfoldable pub modify : (Env → Env) → M (Unit {0})
modify f env = some (tt, f env)
