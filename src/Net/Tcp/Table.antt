-- ===== src/Net/Tcp/Table.antt =====
-- libraries/net/tcp/connection_table.cc: the pool of connections, and the handles of new and finished ones.
-- The loops over the two lists of handles run over what the lists hold when the loop begins: neither
-- `step` nor `erase` of a connection changes them, while the callback creates no connection.
use peos.Prelude.{ℕ, Bool, some, List, [], ◌∷◌, if◌then◌else◌}
use peos.Prelude.Fault
use peos.Support.Pool
use peos.Net.Tcp.Env.{M, ◌>>=◌, ◌>>◌, pure, lift}
use peos.Net.Tcp.Step.{step}

-- A round of the loop of `step_new_connections`: a handle in the list, and the connection that it names.
new_handle : ℕ → M ℕ
new_handle i env = lift (Pool.at env.new_connections i) env

names_connection : ℕ → M Bool
names_connection h env = pure (Pool.valid env.connections h) env

module _ (callback : ℕ → List ℕ → M (Unit {0})) where
  step_each : List ℕ → M (Unit {0})
  step_each [] = pure tt
  step_each (i ∷ is) = do
    h ← new_handle i
    valid ← names_connection h
    if valid then step callback h else pure tt
    step_each is

  clear_new : M (Unit {0})
  clear_new env = some (tt, record env { new_connections = Pool.clear env.new_connections })

  pub step_new_connections : M (Unit {0})
  step_new_connections = (λ env. step_each (Pool.indices env.new_connections) env) >> clear_new

finished_handle : ℕ → M ℕ
finished_handle i env = lift (Pool.at env.finished_connections i) env

erase_connection : ℕ → M (Unit {0})
erase_connection h env =
    Fault.◌>>=◌ (Pool.erase env.connections h) (λ p. some (tt, record env { connections = p }))

-- A handle that is finished twice ends the loop.
destroy_each : List ℕ → M (Unit {0})
destroy_each [] = pure tt
destroy_each (i ∷ is) = do
  h ← finished_handle i
  valid ← names_connection h
  let further = erase_connection h >> destroy_each is
  if valid then further else pure tt

clear_finished : M (Unit {0})
clear_finished env =
    some (tt, record env { finished_connections = Pool.clear env.finished_connections })

pub destroy_finished_connections : M (Unit {0})
destroy_finished_connections =
    (λ env. destroy_each (Pool.indices env.finished_connections) env) >> clear_finished
