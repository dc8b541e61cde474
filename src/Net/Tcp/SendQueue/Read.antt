-- ===== src/Net/Tcp/SendQueue/Read.antt =====
-- `read_one_segment`: the next segment that was not yet sent, with its bytes.
use peos.Prelude.{
  ℕ, zero, suc, ◌+◌, ◌-◌, ◌^◌, ◌≤◌, ◌<◌, ◌≡◌, ap, subst, ◌∙◌, true, none, some, List, [], ◌∷◌,
  arith, length, take, drop, length-take, length-drop, get_elem?, ltb, lt→ltb, le→ltb_false, ==_iff,
  if◌then◌else◌, min, ne→==_false,
}
use peos.Prelude.Int.{add32, sub32, to_int, pos}
use peos.Support.Queue.{Queue}
use peos.Support.Queue
use peos.Support.Queue.Fifo.{length-contents, size-le, index-contents}
use peos.Support.RingBuffer.Reads.{peek-contents}
use peos.Net.Tcp.SendQueue.{
  SendQueue, SendSegment, data_len, segments_len, read_active, read_one_segment, has_readable,
}
use peos.Net.Tcp.SendQueue.Valid.{IsValid, Chained, Chained-le, segments_of, bytes_of}

-- A segment of a chain lies between its ends.
Chained-get :
    (from to : ℕ) (ss : List SendSegment) (i : ℕ) (s : SendSegment)
    → Chained from ss to
    → get_elem? ss i ≡ some s
    → (from ≤ s.seqnbr) × (s.seqnbr + s.data_length ≤ to)
Chained-get from to [] i s c e = cc
Chained-get from to (t ∷ ss) zero s c e =
    let le = Chained-le (from + t.data_length) to ss c.1 in
    let same : t ≡ s = cc in
    subst (λ u. (from ≤ u.seqnbr) × (u.seqnbr + u.data_length ≤ to)) same
      (omega arith, omega (arith, le))
Chained-get from to (t ∷ ss) (suc i) s c e =
    let h = Chained-get (from + t.data_length) to ss i s c.1 e in (omega (arith, h.0), h.1)

-- What `read_one_segment` does at the segment that it looks at.
read_at :
    (q : SendQueue) (s : SendSegment) (len : ℕ)
    → IsValid q
    → get_elem? (segments_of q) q.read_pos ≡ some s
    → q.read_pos < Queue.size q.segments
    → read_one_segment q len ≡ (
        if ltb (add32 q.ack_pos q.wndsz) (add32 s.seqnbr s.send_length)
        then some (0, none, q)
        else read_active q s len)
unfolding read_one_segment
read_at q s len v e h = rw (ne→==_false (Queue.size q.segments) 0 (omega arith), found)
  where
    found : Queue.index segments_len q.segments (Queue.begin q.segments + q.read_pos) ≡ s
    found = cc (index-contents segments_len q.segments q.read_pos h)

module _ (q : SendQueue) (s : SendSegment) (len : ℕ) (v : IsValid q)
    (e : get_elem? (segments_of q) q.read_pos ≡ some s)
    (h : q.read_pos < Queue.size q.segments) where
  -- Where the end of the window does not wrap around, a segment inside the window that fits the caller's
  -- buffer is handed over with exactly its bytes, the assertion on their number holds, and the next read
  -- takes the segment after it.
  pub read_one_segment-inside :
      s.seqnbr + s.send_length ≤ q.ack_pos + q.wndsz
      → q.ack_pos + q.wndsz < 2 ^ 32
      → s.data_length ≤ len
      → (read_one_segment q len
          ≡ some (
            s.data_length,
            some (s, take s.data_length (drop (s.seqnbr - q.ack_pos) (bytes_of q))),
            record q { read_pos = q.read_pos + 1 },
          ))
        × IsValid (record q { read_pos = q.read_pos + 1 })
        × (length (take s.data_length (drop (s.seqnbr - q.ack_pos) (bytes_of q))) ≡ s.data_length)
  unfolding read_active
  read_one_segment-inside w nw fits = (
    read_at q s len v e h
        ∙ rw (le→ltb_false (add32 q.ack_pos q.wndsz) (add32 s.seqnbr s.send_length) (omega arith))
            active,
    record {
      buffer = v.buffer;
      queue = v.queue;
      chained = v.chained;
      counted = v.counted;
      read_in = omega arith;
      no_wrap = v.no_wrap;
    },
    count,
  )
    where
      bytes : List ℕ
      bytes = take s.data_length (drop (s.seqnbr - q.ack_pos) (bytes_of q))

      place : (q.ack_pos ≤ s.seqnbr) × (s.seqnbr + s.data_length ≤ q.write_pos)
      place = Chained-get q.ack_pos q.write_pos (segments_of q) q.read_pos s v.chained e

      held : length (bytes_of q) ≤ data_len
      held =
          omega
            (arith, length-contents data_len q.data_buffer, size-le data_len q.data_buffer v.buffer)

      count : length bytes ≡ s.data_length
      count = omega (
        arith,
        length-take s.data_length (drop (s.seqnbr - q.ack_pos) (bytes_of q)),
        length-drop (s.seqnbr - q.ack_pos) (bytes_of q),
        place,
        v.counted,
      )

      start : to_int (sub32 s.seqnbr q.ack_pos) ≡ pos (s.seqnbr - q.ack_pos)
      start = ground (arith, place.0, place.1, v.counted, v.no_wrap, held)

      active :
          read_active q s len
          ≡ some (s.data_length, some (s, bytes), record q { read_pos = q.read_pos + 1 })
      active =
          let m : min s.data_length len ≡ s.data_length = omega arith in
          rw
            (
              start,
              m,
              peek-contents data_len q.data_buffer (s.seqnbr - q.ack_pos) s.data_length v.buffer,
              (==_iff (length bytes) s.data_length).1 count,
            )
            (ap (λ n. some (n, some (s, bytes), record q { read_pos = q.read_pos + 1 })) count)

  -- A segment outside the window is not: the call returns 0, and the queue stays as it was.
  pub read_one_segment-outside :
      add32 q.ack_pos q.wndsz < add32 s.seqnbr s.send_length
      → (read_one_segment q len ≡ some (0, none, q)) × (has_readable q ≡ true)
  unfolding has_readable
  read_one_segment-outside w = (
    read_at q s len v e h ∙ rw (lt→ltb (add32 q.ack_pos q.wndsz) (add32 s.seqnbr s.send_length) w),
    lt→ltb _ _ h,
  )
