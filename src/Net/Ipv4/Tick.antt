-- ===== src/Net/Ipv4/Tick.antt =====
-- libraries/net/ipv4/protocol.cc: `tick`, which gives up the buffers whose time is over.
use peos.Prelude.{ℕ, zero, suc, Bool, true, false, Option, none, some, ◌==◌, if◌then◌else◌}
use peos.Prelude.Fault.{◌>>=◌}
use peos.Prelude.Int.{pos, ltb_ℤ, to_int, to_uint32, sub32}
use peos.Support.Pool.{Pool}
use peos.Support.Pool
use peos.Support.UnorderedMap.{Entry}
use peos.Support.UnorderedMap
use peos.Net.Ipv4.Datagram.{Identifier, ReassemblyBuffer, Ipv4}

abbrev expired : ReassemblyBuffer → Bool
expired b = if ltb_ℤ (pos 0) b.ttl then false else true

-- One round, of a `uint32_t` of milliseconds, which makes the subtraction one of 32 bits: the
-- buffers, and where the iterator stands. It moves on only past a buffer that was expired, or is now.
tick_round :
    Pool (Entry Identifier ReassemblyBuffer)
    → ℕ
    → ℕ
    → Option (Pool (Entry Identifier ReassemblyBuffer) × ℕ)
tick_round buffers iter delta_ms = do
  entry ← Pool.at buffers iter
  let buffer : ReassemblyBuffer = record entry.value {
    ttl = to_int (sub32 (to_uint32 entry.value.ttl) delta_ms);
  }
  if expired entry.value then some (buffers, Pool.next buffers iter) else (do
    buffers ← Pool.store_at buffers iter (record entry { value = buffer })
    if expired buffer
        then (do erased ← UnorderedMap.erase buffers iter; some (erased, Pool.next buffers iter))
        else some (buffers, iter))

-- `end_iter` is computed once.
tick_loop :
    ℕ
    → Pool (Entry Identifier ReassemblyBuffer)
    → ℕ
    → ℕ
    → ℕ
    → Option (Pool (Entry Identifier ReassemblyBuffer))
tick_loop zero buffers iter end_iter delta_ms = none
tick_loop (suc fuel) buffers iter end_iter delta_ms = if iter == end_iter then some buffers else (do
  (buffers, iter) ← tick_round buffers iter delta_ms
  tick_loop fuel buffers iter end_iter delta_ms)

-- The rounds of one tick are as many as its fuel allows; with no time passed the loop does not end.
pub tick : ℕ → Ipv4 → ℕ → Option Ipv4
tick fuel s delta_ms = do
  buffers ←
      tick_loop fuel s.reassembly_buffers (Pool.first s.reassembly_buffers)
        s.reassembly_buffers.watermark delta_ms
  some (record s { reassembly_buffers = buffers })
