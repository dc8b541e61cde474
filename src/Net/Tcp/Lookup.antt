-- ===== src/Net/Tcp/Lookup.antt =====
-- libraries/net/tcp/connection_table.cc: the search for the connection that a segment belongs to.
pub mod Match
mod Tests
use peos.Prelude.{ℕ, Bool, true, false, Option, none, some, List, [], ◌∷◌, ltb, ◌==◌, if◌then◌else◌}
use peos.Prelude.Fault.{◌>>=◌}
use peos.Support.Pool.{Pool}
use peos.Support.Pool
use peos.Net.Tcp.Definitions.{Endpoint}
use peos.Net.Tcp.Env.{Connection}
use peos.Net.Tcp.Connection.{compare}

-- `score > most_specific_match`, where `none` is -1.
abbrev pub beats : Option ℕ → Option ℕ → Bool
beats none best = false
beats (some score) none = true
beats (some score) (some best) = ltb best score

-- The loop of `find_best_match`, from the best score and index so far.
pub best_of : Pool Connection → Endpoint → Endpoint → List ℕ → Option ℕ → ℕ → Option ℕ
best_of connections remote local [] most_specific_match most_specific_it = some most_specific_it
best_of connections remote local (i ∷ is) most_specific_match most_specific_it = do
  c ← Pool.at connections i
  let score = compare c remote local
  let better = beats score most_specific_match
  best_of connections remote local is (if better then score else most_specific_match)
      (if better then i else most_specific_it)

-- `end()` of the iterators is the watermark; `end_sentinel()` is the answer for no match.
pub find_best_match : Pool Connection → Endpoint → Endpoint → Option ℕ
find_best_match connections remote local = do
  it ← best_of connections remote local (Pool.indices connections) none connections.watermark
  some (if it == connections.watermark then Pool.end_sentinel else it)
