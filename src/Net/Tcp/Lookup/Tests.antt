-- ===== src/Net/Tcp/Lookup/Tests.antt =====
-- A table with one connection, which listens on port 80.
use peos.Prelude.{ℕ, ◌≤◌, ◌≡◌, refl, true, Option, none, some, [], arith, ◌⊎◌}
use peos.Support.Pool.{Pool, fresh, end_sentinel}
use peos.Support.Pool
use peos.Support.Pool.Inv.{Inv}
use peos.Net.Tcp.Definitions.{Endpoint, wildcard}
use peos.Net.Tcp.Env.{Connection, connections_len, listen}
use peos.Net.Tcp.Connection.{connection}
use peos.Net.Tcp.Lookup.{find_best_match}
use peos.Net.Tcp.Lookup.Match.{Scores, find_best_match-most_specific}

abbrev listener : Connection
listener = connection wildcard (record { ipaddr = 0; port = 80 }) listen

abbrev table : Pool Connection
table = record {
  nodes = λ i. fresh (some listener);
  watermark = 1;
  free_list_head = end_sentinel;
  free_list_tail = end_sentinel;
  count = 1;
}

table-Inv : Inv connections_len table []
table-Inv = record {
  linked = refl;
  tail_last = refl;
  distinct = tt;
  below = tt;
  bounded = omega arith;
  indexed = omega arith;
  counted = refl;
  taken = λ i lt e. (refl, refl, (listener, refl));
}

abbrev remote_end : Endpoint
remote_end = record { ipaddr = 5; port = 4000 }

abbrev local_end : Endpoint
local_end = record { ipaddr = 6; port = 80 }

find_best_match-most_specific_example :
    (result : ℕ) × (find_best_match table remote_end local_end ≡ some result)
    × (((result ≡ end_sentinel)
          × ((j : ℕ)
              → Pool.valid table j ≡ true
              → (score : Option ℕ) → Scores table remote_end local_end j score
              → score ≡ none))
        ⊎ ((Pool.valid table result ≡ true)
            × ((n : ℕ) × Scores table remote_end local_end result (some n)
                × ((j : ℕ)
                    → Pool.valid table j ≡ true
                    → (m : ℕ) → Scores table remote_end local_end j (some m)
                    → m ≤ n))))
find_best_match-most_specific_example =
    find_best_match-most_specific table remote_end local_end [] table-Inv
