-- ===== src/Net/Tcp/SendQueue/Valid.antt =====
-- The invariant of the send queue: consecutive segments, whose bytes the buffer holds.
use peos.Prelude.{
  ℕ, suc, ◌+◌, ◌-◌, ◌^◌, ◌≤◌, ◌<◌, ◌≡◌, refl, ap, subst, true, false, some, List, [], ◌∷◌, ◌++◌,
  arith, length, length-append, take-length, le→ltb_false, ==_iff,
}
use peos.Prelude.Int.{add32}
use peos.Support.Queue.{Queue}
use peos.Support.Queue
use peos.Support.Queue.Fifo
use peos.Support.Queue.Fifo.{
  contents, length-contents, clear-contents, push_back-contents, push_back-full,
}
use peos.Support.RingBuffer
use peos.Support.RingBuffer.Bytes.{write_back-contents}
use peos.Net.Tcp.SendQueue.{
  SendQueue, SendSegment, data_len, segments_len, reset, write_back, write_data, push_segment,
}

-- The segments follow one another from `from` to `to`.
abbrev pub Chained : ℕ → List SendSegment → ℕ → Type 0
Chained from [] to = from ≡ to
Chained from (s ∷ ss) to = (s.seqnbr ≡ from) × Chained (from + s.data_length) ss to

abbrev pub segments_of : SendQueue → List SendSegment
segments_of q = contents segments_len q.segments

abbrev pub bytes_of : SendQueue → List ℕ
bytes_of q = contents data_len q.data_buffer

-- No sequence number has wrapped.
pub record IsValid (q : SendQueue) : Type 0 where
  pub buffer : Fifo.IsValid data_len q.data_buffer
  pub queue : Fifo.IsValid segments_len q.segments
  pub chained : Chained q.ack_pos (segments_of q) q.write_pos
  pub counted : length (bytes_of q) + q.ack_pos ≡ q.write_pos
  pub read_in : q.read_pos ≤ Queue.size q.segments
  pub no_wrap : q.write_pos < 2 ^ 32

Chained-append :
    (from mid : ℕ) (ss : List SendSegment) (s : SendSegment)
    → Chained from ss mid
    → s.seqnbr ≡ mid
    → Chained from (ss ++ (s ∷ [])) (mid + s.data_length)
Chained-append from mid [] s c e = (omega arith, omega arith)
Chained-append from mid (t ∷ ss) s c e = (c.0, Chained-append (from + t.data_length) mid ss s c.1 e)

pub reset-IsValid :
    (q : SendQueue) (seqnbr : ℕ)
    → seqnbr < 2 ^ 32
    → IsValid (reset q seqnbr)
      × (segments_of (reset q seqnbr) ≡ [])
      × (bytes_of (reset q seqnbr) ≡ [])
unfolding reset RingBuffer.clear
reset-IsValid q seqnbr h =
    let buf = clear-contents data_len q.data_buffer (omega arith) in
    let segs = clear-contents segments_len q.segments (omega arith) in
    (
      record {
        buffer = buf.1;
        queue = segs.1;
        chained = rw segs.0 refl;
        counted = omega (arith, ap length buf.0);
        read_in = omega arith;
        no_wrap = h;
      },
      segs.0,
      buf.0,
    )

-- A segment numbered by the write cursor, whose bytes fit, goes to the end of the queue.
pub write_back-IsValid :
    (q : SendQueue) (s : SendSegment) (bytes : List ℕ) (send_length : ℕ)
    → IsValid q
    → s.seqnbr ≡ q.write_pos
    → Queue.size q.data_buffer + length bytes ≤ data_len
    → Queue.size q.segments < segments_len
    → q.write_pos + length bytes < 2 ^ 32
    → (q' : SendQueue) × (write_back q s (some bytes) (length bytes) send_length ≡ some (true, q'))
      × IsValid q'
      × (bytes_of q' ≡ bytes_of q ++ bytes)
      × (segments_of q'
          ≡ segments_of q
            ++ (record s { data_length = length bytes; send_length = send_length } ∷ []))
      × (q'.ack_pos ≡ q.ack_pos)
      × (q'.read_pos ≡ q.read_pos)
      × (q'.write_pos ≡ q.write_pos + length bytes)
unfolding write_back write_data push_segment RingBuffer.capacity RingBuffer.size
write_back-IsValid q s bytes send_length v e fits room small = (
  q',
  rw
      (
        le→ltb_false (data_len - Queue.size q.data_buffer) (length bytes) (omega arith),
        (==_iff s.seqnbr q.write_pos).1 e,
        take-length bytes,
        stored.1,
      )
      (ap (λ b. some (b, q')) pushed.0),
  record {
    buffer = stored.3;
    queue = pushed.2;
    chained = rw pushed.1 (
        subst (Chained q.ack_pos (segments_of q ++ (s' ∷ []))) {x = q.write_pos + length bytes}
          (omega arith) (Chained-append q.ack_pos q.write_pos (segments_of q) s' v.chained e));
    counted = omega (arith, ap length stored.2, length-append (bytes_of q) bytes, v.counted);
    read_in = omega (arith, pushed.3, v.read_in);
    no_wrap = omega arith;
  },
  stored.2,
  pushed.1,
  refl,
  refl,
  omega arith,
)
  where
    s' : SendSegment
    s' = record s { data_length = length bytes; send_length = send_length }

    stored :
        (b : Queue ℕ) × (RingBuffer.write_back data_len q.data_buffer bytes ≡ some (true, b))
        × (contents data_len b ≡ bytes_of q ++ bytes)
        × Fifo.IsValid data_len b
    stored = write_back-contents data_len q.data_buffer bytes (omega arith) v.buffer fits

    pushed :
        ((Queue.push_back segments_len q.segments s').0 ≡ true)
        × (contents segments_len (Queue.push_back segments_len q.segments s').1
            ≡ segments_of q ++ (s' ∷ []))
        × Fifo.IsValid segments_len (Queue.push_back segments_len q.segments s').1
        × (Queue.size (Queue.push_back segments_len q.segments s').1 ≡ suc (Queue.size q.segments))
    pushed = push_back-contents segments_len q.segments s' v.queue room

    q' : SendQueue
    q' = record q {
      data_buffer = stored.0;
      write_pos = add32 q.write_pos (length bytes);
      segments = (Queue.push_back segments_len q.segments s').1;
    }

pub Chained-le : (from to : ℕ) (ss : List SendSegment) → Chained from ss to → from ≤ to
Chained-le from to [] c = omega arith
Chained-le from to (s ∷ ss) c = omega (arith, Chained-le (from + s.data_length) to ss c.1)

-- The chain of a list and its start leave one end.
Chained-end :
    (from to to' : ℕ) (ss : List SendSegment) → Chained from ss to → Chained from ss to' → to ≡ to'
Chained-end from to to' [] c d = omega arith
Chained-end from to to' (s ∷ ss) c d = Chained-end (from + s.data_length) to to' ss c.1 d.1

-- With all the slots for segments taken, a write is refused but not undone: the bytes are in the
-- buffer and the write cursor has moved past them, so the invariant is lost.
pub write_back-segments_full :
    (q : SendQueue) (s : SendSegment) (bytes : List ℕ) (send_length : ℕ)
    → IsValid q
    → s.seqnbr ≡ q.write_pos
    → Queue.size q.data_buffer + length bytes ≤ data_len
    → segments_len ≤ Queue.size q.segments
    → q.write_pos + length bytes < 2 ^ 32
    → 0 < length bytes
    → (q' : SendQueue) × (write_back q s (some bytes) (length bytes) send_length ≡ some (false, q'))
      × (bytes_of q' ≡ bytes_of q ++ bytes)
      × (segments_of q' ≡ segments_of q)
      × (q'.write_pos ≡ q.write_pos + length bytes)
      × ¬ IsValid q'
unfolding write_back write_data push_segment RingBuffer.capacity RingBuffer.size
write_back-segments_full q s bytes send_length v e fits room small more = (
  q',
  rw
      (
        le→ltb_false (data_len - Queue.size q.data_buffer) (length bytes) (omega arith),
        (==_iff s.seqnbr q.write_pos).1 e,
        take-length bytes,
        stored.1,
      )
      (rw kept),
  stored.2,
  refl,
  omega arith,
  λ w. omega (
    arith,
    Chained-end q.ack_pos q.write_pos (add32 q.write_pos (length bytes)) (segments_of q) v.chained
        w.chained,
  ),
)
  where
    s' : SendSegment
    s' = record s { data_length = length bytes; send_length = send_length }

    stored :
        (b : Queue ℕ) × (RingBuffer.write_back data_len q.data_buffer bytes ≡ some (true, b))
        × (contents data_len b ≡ bytes_of q ++ bytes)
        × Fifo.IsValid data_len b
    stored = write_back-contents data_len q.data_buffer bytes (omega arith) v.buffer fits

    kept : Queue.push_back segments_len q.segments s' ≡ (false, q.segments)
    kept = push_back-full segments_len q.segments s' room

    q' : SendQueue
    q' = record q { data_buffer = stored.0; write_pos = add32 q.write_pos (length bytes) }
