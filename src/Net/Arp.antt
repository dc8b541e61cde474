-- ===== src/Net/Arp.antt =====
-- libraries/net/arp/protocol.cc: the table of the addresses that were learned.
pub mod Mapping
mod Tests
use peos.Prelude.{
  ℕ, zero, suc, ◌+◌, ◌-◌, ◌*◌, ◌/◌, ◌%◌, ◌^◌, Bool, Option, none, some, List, ◌==◌, if◌then◌else◌,
}
use peos.Support.Queue.{Queue}
use peos.Support.Queue

pub record CacheEntry : Type 0 where
  pub ipaddr : ℕ
  pub hwaddr : List ℕ

-- The template argument of `_entries`.
abbrev pub entries_len : ℕ
entries_len = 64

pub insert : Queue CacheEntry → ℕ → List ℕ → Queue CacheEntry
insert q ipaddr hwaddr =
    let q' = if Queue.full entries_len q then (Queue.pop_front entries_len q).1 else q in
    (Queue.push_back entries_len q' (record { ipaddr = ipaddr; hwaddr = hwaddr })).1

-- The loop of `fetch`, with the number of rounds left.
fetch_from : ℕ → Queue CacheEntry → ℕ → ℕ → Option (List ℕ) → Option (List ℕ)
fetch_from zero q i ipaddr latest_value = latest_value
fetch_from (suc n) q i ipaddr latest_value =
    let entry = Queue.index entries_len q i in
    fetch_from n q (suc i) ipaddr
      (if entry.ipaddr == ipaddr then some entry.hwaddr else latest_value)

-- The latest entry for the address.
pub fetch : Queue CacheEntry → ℕ → Option (List ℕ)
fetch q ipaddr = fetch_from (Queue.end q - Queue.begin q) q (Queue.begin q) ipaddr none
