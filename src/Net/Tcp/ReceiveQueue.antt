-- ===== src/Net/Tcp/ReceiveQueue.antt =====
-- libraries/net/tcp/receive_queue.cc and .h: reassembly of incoming segments.
pub mod Insert
pub mod Front
mod Tests
use peos.Prelude.{
  ℕ, zero, suc, ◌+◌, ◌-◌, ◌%◌, ◌^◌, min, Bool, true, false, not, ◌&&◌, Option, none, some, List, [],
  ◌∷◌, length, ltb, leb, ◌==◌, if◌then◌else◌,
}
use peos.Prelude.Int.{add32, sub32, to_int}
use peos.Prelude.Fault.{◌>>=◌, ◌>>◌, assert}
use peos.Support.Queue.{Queue}
use peos.Support.RingBuffer
use peos.Support.Pool.{Pool}
use peos.Support.Pool

pub record RecvSegment : Type 0 where
  pub flags : ℕ
  pub seqnbr : ℕ
  pub len : ℕ

-- The template arguments of `_data_buffer` and `_segments`.
abbrev pub data_len : ℕ
data_len = 0xFFFF

abbrev pub segments_len : ℕ
segments_len = 200

pub record ReceiveQueue : Type 0 where
  pub segments : Pool RecvSegment
  pub data_buffer : Queue ℕ
  pub read_cursor : ℕ

pub reset : ReceiveQueue → ℕ → ReceiveQueue
reset q seqnbr = record {
  segments = Pool.clear q.segments;
  data_buffer = RingBuffer.clear data_len q.data_buffer;
  read_cursor = seqnbr;
}

-- The check at the head of `insert`: is the number before the window? `max() - _read_cursor` says
-- whether the window reaches round to 0.
pub out_of_window : ReceiveQueue → ℕ → Bool
out_of_window q seqnbr =
    if ltb (2 ^ 32 - 1 - q.read_cursor) data_len
    then ltb seqnbr q.read_cursor && leb (add32 q.read_cursor data_len) seqnbr
    else ltb seqnbr q.read_cursor

-- The bookkeeping once the bytes are in the buffer.
add_segment : ReceiveQueue → RecvSegment → ℕ → Option (Bool × ReceiveQueue)
add_segment q segment len = do
  (idx, segments) ← Pool.emplace_anywhere segments_len q.segments segment
  segments ← Pool.store_at segments idx (record segment { len = len })
  some (true, record q { segments = segments })

pub insert : ReceiveQueue → RecvSegment → List ℕ → Option (Bool × ReceiveQueue)
insert q segment bytes =
    if Pool.full segments_len q.segments
    then some (false, q)
    else (if out_of_window q segment.seqnbr then some (false, q) else (do
      (written, buffer) ←
          RingBuffer.write data_len q.data_buffer bytes
            (to_int (sub32 segment.seqnbr q.read_cursor))
      if written
          then add_segment (record q { data_buffer = buffer }) segment (length bytes)
          else some (false, q)))

-- The loop of `find_front_segment`, from the best number and index so far.
find_lowest : Pool RecvSegment → List ℕ → ℕ → Option ℕ → Option (Option ℕ)
find_lowest segments [] lowest_seq lowest_it = some lowest_it
find_lowest segments (i ∷ is) lowest_seq lowest_it = do
  seg ← Pool.at segments i
  let lower = ltb seg.seqnbr lowest_seq
  find_lowest segments is (if lower then seg.seqnbr else lowest_seq)
      (if lower then some i else lowest_it)

pub find_front_segment : ReceiveQueue → Option ℕ
find_front_segment q = do
  lowest_it ← find_lowest q.segments (Pool.indices q.segments) (2 ^ 32 - 1) none
  lowest_it

pub read_one_segment : ReceiveQueue → ℕ → Option (RecvSegment × List ℕ × ReceiveQueue)
read_one_segment q len = do
  front_segment ← find_front_segment q
  seg ← Pool.at q.segments front_segment
  assert (seg.seqnbr == q.read_cursor)
  let (bytes, buffer) = RingBuffer.read_front data_len q.data_buffer (min len seg.len)
  assert (length bytes == seg.len)
  segments ← Pool.erase q.segments front_segment
  some (
    seg,
    bytes,
    record { segments = segments; data_buffer = buffer; read_cursor = add32 q.read_cursor seg.len },
  )

pub readable_until : ReceiveQueue → Option ℕ
readable_until q = if Pool.size q.segments == 0 then some q.read_cursor else (do
  front_segment ← find_front_segment q
  seg ← Pool.at q.segments front_segment
  some (if seg.seqnbr == q.read_cursor then add32 q.read_cursor seg.len else q.read_cursor))

unfoldable pub has_readable : ReceiveQueue → Option Bool
has_readable q = if Pool.size q.segments == 0 then some false else (do
  front_segment ← find_front_segment q
  seg ← Pool.at q.segments front_segment
  some (seg.seqnbr == q.read_cursor))
