-- ===== src/Net/Tcp/SendQueue.antt =====
-- libraries/net/tcp/send_queue.cc and .h: the bytes and segments that wait to be sent or acknowledged.
-- Sequence numbers and sizes are 32-bit words: sums wrap.
pub mod Valid
pub mod Ack
pub mod Read
mod Tests
use peos.Prelude.{
  ℕ, zero, suc, ◌+◌, ◌-◌, ◌%◌, ◌^◌, min, Bool, true, false, not, ◌&&◌, Option, none, some, List, [],
  ◌∷◌, length, take, ltb, ◌==◌, if◌then◌else◌,
}
use peos.Prelude.Int.{add32, sub32, to_int}
use peos.Prelude.Fault.{◌>>=◌, ◌>>◌, assert}
use peos.Support.Queue.{Queue}
use peos.Support.Queue
use peos.Support.RingBuffer

pub record SendSegment : Type 0 where
  pub flags : ℕ
  pub seqnbr : ℕ
  pub data_length : ℕ
  pub send_length : ℕ

-- The template arguments of `_data_buffer` and `_segments`.
abbrev pub data_len : ℕ
data_len = 0xFFFF

abbrev pub segments_len : ℕ
segments_len = 100

pub record SendQueue : Type 0 where
  pub ack_pos : ℕ
  pub write_pos : ℕ
  pub read_pos : ℕ
  pub wndsz : ℕ
  pub data_buffer : Queue ℕ
  pub segments : Queue SendSegment

pub reset : SendQueue → ℕ → SendQueue
reset q seqnbr = record {
  ack_pos = seqnbr;
  write_pos = seqnbr;
  read_pos = 0;
  wndsz = 0xFFFF;
  data_buffer = RingBuffer.clear data_len q.data_buffer;
  segments = Queue.clear q.segments;
}

-- The result of the write to the buffer is not looked at. `nullptr` for the data is `none`.
write_data : SendQueue → Option (List ℕ) → ℕ → Option SendQueue
write_data q none data_length = some q
write_data q (some bytes) data_length = do
  (_, buffer) ← RingBuffer.write_back data_len q.data_buffer (take data_length bytes)
  some (record q { data_buffer = buffer })

push_segment : SendQueue → SendSegment → ℕ → ℕ → Bool × SendQueue
push_segment q segment data_length send_length =
    let segment_ = record segment { data_length = data_length; send_length = send_length } in
    let (ok, segments) = Queue.push_back segments_len q.segments segment_ in
    (ok, record q { write_pos = add32 q.write_pos data_length; segments = segments })

pub write_back : SendQueue → SendSegment → Option (List ℕ) → ℕ → ℕ → Option (Bool × SendQueue)
write_back q segment bytes data_length send_length =
    if ltb (RingBuffer.capacity data_len - RingBuffer.size data_len q.data_buffer) data_length
    then some (false, q)
    else (if not (segment.seqnbr == q.write_pos) then some (false, q) else (do
      q' ← write_data q bytes data_length
      some (push_segment q' segment data_length send_length)))

-- The read that `read_one_segment` makes once the segment is inside the window.
read_active : SendQueue → SendSegment → ℕ → Option (ℕ × Option (SendSegment × List ℕ) × SendQueue)
read_active q segment len = do
  bytes ←
      RingBuffer.peek data_len q.data_buffer (to_int (sub32 segment.seqnbr q.ack_pos))
        (min segment.data_length len)
  assert (length bytes == segment.data_length)
  some (length bytes, some (segment, bytes), record q { read_pos = q.read_pos + 1 })

-- The number returned, and what is written through `segment` and `data`.
pub read_one_segment : SendQueue → ℕ → Option (ℕ × Option (SendSegment × List ℕ) × SendQueue)
read_one_segment q len =
    let active = Queue.index segments_len q.segments (Queue.begin q.segments + q.read_pos) in
    if Queue.size q.segments == 0
    then some (0, none, q)
    else (if ltb (add32 q.ack_pos q.wndsz) (add32 active.seqnbr active.send_length)
        then some (0, none, q)
        else read_active q active len)

unfoldable pub has_readable : SendQueue → Bool
has_readable q = ltb q.read_pos (Queue.size q.segments)

pub set_window : SendQueue → ℕ → SendQueue
set_window q size_ = record q { wndsz = size_ }

-- One acknowledged segment taken off the front.
unfoldable pub drop_front : SendQueue → SendSegment → SendQueue
drop_front q segment = record q {
  data_buffer = (RingBuffer.consume data_len q.data_buffer segment.data_length).1;
  segments = (Queue.pop_front segments_len q.segments).1;
  read_pos = if ltb 0 q.read_pos then q.read_pos - 1 else q.read_pos;
  ack_pos = add32 segment.seqnbr segment.data_length;
}

unfoldable pub ack_loop : ℕ → SendQueue → ℕ → Option SendQueue
ack_loop zero q new_ack_pos = none
ack_loop (suc fuel) q new_ack_pos =
    let segment = Queue.front segments_len q.segments in
    let rest = ack_loop fuel (drop_front q segment) new_ack_pos in
    if not (ltb q.ack_pos new_ack_pos) then some q else (do
      assert (ltb 0 (Queue.size q.segments))
      if ltb new_ack_pos (add32 segment.seqnbr segment.data_length) then some q else rest)

-- Each round takes one segment off, and a round without segments fails its assertion, so one round
-- more than there are segments is enough.
unfoldable pub ack : SendQueue → ℕ → Option SendQueue
ack q new_ack_pos = ack_loop (suc (Queue.size q.segments)) q new_ack_pos
