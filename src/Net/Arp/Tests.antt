-- ===== src/Net/Arp/Tests.antt =====
-- A table with one entry.
use peos.Prelude.{ℕ, ◌<◌, ◌≡◌, ◌≢◌, some, [], ◌∷◌, arith}
use peos.Support.Queue.{Queue}
use peos.Support.Queue
use peos.Support.Queue.Fifo.{IsValid}
use peos.Net.Arp.{CacheEntry, entries_len, insert, fetch}
use peos.Net.Arp.Mapping.{insert-fetch}

abbrev gateway : CacheEntry
gateway = record { ipaddr = 0x0A000001; hwaddr = 1 ∷ 2 ∷ 3 ∷ 4 ∷ 5 ∷ 6 ∷ [] }

abbrev one_known : Queue CacheEntry
one_known = record { items = λ i. gateway; read_idx = 0; write_idx = 1 }

one_known-IsValid : IsValid entries_len one_known
one_known-IsValid = record {
  room = omega arith;
  ordered = omega arith;
  fits = omega arith;
  small = omega arith;
}

insert-fetch_example :
    IsValid entries_len (insert one_known 7 (9 ∷ []))
    × (fetch (insert one_known 7 (9 ∷ [])) 7 ≡ some (9 ∷ []))
    × ((other : ℕ)
        → Queue.size one_known < entries_len
        → other ≢ 7
        → fetch (insert one_known 7 (9 ∷ [])) other ≡ fetch one_known other)
insert-fetch_example = insert-fetch one_known 7 (9 ∷ []) one_known-IsValid
