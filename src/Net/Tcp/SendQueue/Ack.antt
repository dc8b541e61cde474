-- ===== src/Net/Tcp/SendQueue/Ack.antt =====
-- `ack`: the segments up to the acknowledged position leave the queue, with their bytes.
use peos.Prelude.{
  ℕ, zero, suc, ◌+◌, ◌-◌, ◌≤◌, ◌<◌, ◌≡◌, refl, ap, sym, ◌∙◌, subst, ◌⊎◌, inl, inr, none, some, List,
  [], ◌∷◌, ◌++◌, arith, length, drop, max, length-drop, drop-drop, ltb, lt→ltb, le→ltb_false,
  if◌then◌else◌, dec_lt,
}
use peos.Prelude.Int.{add32}
use peos.Support.Queue.{Queue}
use peos.Support.Queue
use peos.Support.Queue.Fifo
use peos.Support.Queue.Fifo.{contents, length-contents, pop_front-contents, front-pop_front}
use peos.Support.RingBuffer.Reads.{consume-contents}
use peos.Net.Tcp.SendQueue.{
  SendQueue, SendSegment, data_len, segments_len, drop_front, ack_loop, ack,
}
use peos.Net.Tcp.SendQueue.Valid.{IsValid, Chained, Chained-le, segments_of, bytes_of}

-- What `ack` has done when it stops: whole segments are gone from the front, and either the position is
-- reached or the first segment left ends behind it.
pub record Acked (q : SendQueue) (new_ack_pos : ℕ) (q' : SendQueue) : Type 0 where
  pub valid : IsValid q'
  pub done : List SendSegment
  pub split : segments_of q ≡ done ++ segments_of q'
  pub bytes : bytes_of q' ≡ drop (q'.ack_pos - q.ack_pos) (bytes_of q)
  pub forward : q.ack_pos ≤ q'.ack_pos
  pub within : q'.ack_pos ≤ max q.ack_pos new_ack_pos
  pub cursor : q'.write_pos ≡ q.write_pos
  pub stops :
      (new_ack_pos ≤ q'.ack_pos)
      ⊎ ((s : SendSegment) × (rest : List SendSegment) × (segments_of q' ≡ s ∷ rest)
          × (new_ack_pos < q'.ack_pos + s.data_length))

-- What is known of the front segment.
record Front (q : SendQueue) : Type 0 where
  split :
      segments_of q
      ≡ Queue.front segments_len q.segments
        ∷ contents segments_len (Queue.pop_front segments_len q.segments).1
  numbered : (Queue.front segments_len q.segments).seqnbr ≡ q.ack_pos
  rest :
      Chained
        (q.ack_pos + (Queue.front segments_len q.segments).data_length)
        (contents segments_len (Queue.pop_front segments_len q.segments).1)
        q.write_pos
  popped : Fifo.IsValid segments_len (Queue.pop_front segments_len q.segments).1
  shorter : suc (Queue.size (Queue.pop_front segments_len q.segments).1) ≡ Queue.size q.segments

Front-known : (q : SendQueue) → IsValid q → 0 < Queue.size q.segments → Front q
Front-known q v h = record {
  split = split;
  numbered = chained.0;
  rest = chained.1;
  popped = popped.1;
  shorter = popped.2;
}
  where
    popped :
        (segments_of q
          ≡ (Queue.pop_front segments_len q.segments).0
            ∷ contents segments_len (Queue.pop_front segments_len q.segments).1)
        × Fifo.IsValid segments_len (Queue.pop_front segments_len q.segments).1
        × (suc (Queue.size (Queue.pop_front segments_len q.segments).1) ≡ Queue.size q.segments)
    popped = pop_front-contents segments_len q.segments v.queue h

    split :
        segments_of q
        ≡ Queue.front segments_len q.segments
          ∷ contents segments_len (Queue.pop_front segments_len q.segments).1
    split =
        popped.0
        ∙ ap (λ s. s ∷ contents segments_len (Queue.pop_front segments_len q.segments).1)
            (front-pop_front segments_len q.segments)

    chained :
        Chained q.ack_pos
          (Queue.front segments_len q.segments
            ∷ contents segments_len (Queue.pop_front segments_len q.segments).1)
          q.write_pos
    chained = subst (λ ss. Chained q.ack_pos ss q.write_pos) split v.chained

stepped : (r n m : ℕ) → r ≤ m → suc n ≡ m → (if ltb 0 r then r - 1 else r) ≤ n
stepped r n m h e = ground arith

module _ (q : SendQueue) (v : IsValid q) (h : 0 < Queue.size q.segments) where
  abbrev front_of : SendSegment
  front_of = Queue.front segments_len q.segments

  abbrev dropped : SendQueue
  dropped = drop_front q front_of

  -- The front segment ends before the write cursor, so its end does not wrap.
  front_end : (front_of.seqnbr ≡ q.ack_pos) × (q.ack_pos + front_of.data_length ≤ q.write_pos)
  front_end =
      let f = Front-known q v h in
      (
        f.numbered,
        Chained-le (q.ack_pos + front_of.data_length) q.write_pos
            (contents segments_len (Queue.pop_front segments_len q.segments).1) f.rest,
      )

  dropped_bytes :
      (bytes_of dropped ≡ drop front_of.data_length (bytes_of q))
      × Fifo.IsValid data_len dropped.data_buffer
  unfolding drop_front
  dropped_bytes =
      let used = consume-contents data_len q.data_buffer front_of.data_length v.buffer in
      (
        used.0 ∙ ap (λ t. drop t (bytes_of q)) (omega (arith, used.1, front_end.1, v.counted)),
        used.2,
      )

  dropped_ack : dropped.ack_pos ≡ q.ack_pos + front_of.data_length
  unfolding drop_front
  dropped_ack = omega (arith, front_end.0, front_end.1, v.no_wrap)

  dropped_segments :
      contents segments_len (Queue.pop_front segments_len q.segments).1 ≡ segments_of dropped
  unfolding drop_front
  dropped_segments = refl

  dropped_write : dropped.write_pos ≡ q.write_pos
  unfolding drop_front
  dropped_write = refl

  dropped-IsValid : IsValid dropped
  unfolding drop_front
  dropped-IsValid =
      let f = Front-known q v h in
      record {
        buffer = dropped_bytes.1;
        queue = f.popped;
        chained =
            subst
              (λ a.
                Chained a (contents segments_len (Queue.pop_front segments_len q.segments).1)
                  q.write_pos)
              (sym dropped_ack) f.rest;
        counted = omega (
          arith,
          ap length dropped_bytes.0,
          length-drop front_of.data_length (bytes_of q),
          dropped_ack,
          v.counted,
          front_end.1,
        );
        read_in = stepped q.read_pos _ _ v.read_in f.shorter;
        no_wrap = v.no_wrap;
      }

-- The loop stops before its first round.
ack_loop-stays :
    (fuel : ℕ) (q : SendQueue) (new : ℕ)
    → IsValid q
    → new ≤ q.ack_pos
    → (ack_loop (suc fuel) q new ≡ some q) × Acked q new q
unfolding ack_loop
ack_loop-stays fuel q new v h = (
  rw (le→ltb_false q.ack_pos new h),
  record {
    valid = v;
    done = [];
    split = refl;
    bytes = ap (λ t. drop t (bytes_of q)) {x = 0} (omega arith);
    forward = omega arith;
    within = omega arith;
    cursor = refl;
    stops = inl h;
  },
)

-- The front segment is not wholly acknowledged.
ack_loop-breaks :
    (fuel : ℕ) (q : SendQueue) (new : ℕ) (v : IsValid q) (h : 0 < Queue.size q.segments)
    → q.ack_pos < new
    → new < q.ack_pos + (Queue.front segments_len q.segments).data_length
    → (ack_loop (suc fuel) q new ≡ some q) × Acked q new q
unfolding ack_loop
ack_loop-breaks fuel q new v h ahead short =
    let f = Front-known q v h in
    let e = front_end q v h in
    (
      rw (
        lt→ltb q.ack_pos new ahead,
        lt→ltb 0 (Queue.size q.segments) h,
        lt→ltb new
            (add32 (Queue.front segments_len q.segments).seqnbr
              (Queue.front segments_len q.segments).data_length)
            (omega (arith, e.0, e.1, v.no_wrap)),
      ),
      record {
        valid = v;
        done = [];
        split = refl;
        bytes = ap (λ t. drop t (bytes_of q)) {x = 0} (omega arith);
        forward = omega arith;
        within = omega arith;
        cursor = refl;
        stops = inr (_, _, f.split, short);
      },
    )

ack_loop-drops :
    (fuel : ℕ) (q : SendQueue) (new : ℕ) (v : IsValid q) (h : 0 < Queue.size q.segments)
    → q.ack_pos < new
    → q.ack_pos + (Queue.front segments_len q.segments).data_length ≤ new
    → ack_loop (suc fuel) q new ≡ ack_loop fuel (dropped q v h) new
unfolding ack_loop
ack_loop-drops fuel q new v h ahead whole =
    let e = front_end q v h in
    rw (
      lt→ltb q.ack_pos new ahead,
      lt→ltb 0 (Queue.size q.segments) h,
      le→ltb_false new
          (add32 (Queue.front segments_len q.segments).seqnbr
            (Queue.front segments_len q.segments).data_length)
          (omega (arith, e.0, e.1, v.no_wrap)),
    )

Acked-step :
    (q : SendQueue) (new : ℕ) (v : IsValid q) (h : 0 < Queue.size q.segments) (q' : SendQueue)
    → q.ack_pos + (Queue.front segments_len q.segments).data_length ≤ new
    → Acked (dropped q v h) new q'
    → Acked q new q'
Acked-step q new v h q' whole a =
    let f = Front-known q v h in
    let e = dropped_ack q v h in
    record {
      valid = a.valid;
      done = Queue.front segments_len q.segments ∷ a.done;
      split =
          f.split
          ∙ ap (◌∷◌ (Queue.front segments_len q.segments)) (dropped_segments q v h ∙ a.split);
      bytes =
          a.bytes
          ∙ ap (drop (q'.ack_pos - (dropped q v h).ack_pos)) (dropped_bytes q v h).0
          ∙ drop-drop (q'.ack_pos - (dropped q v h).ack_pos) (front_of q v h).data_length
              (bytes_of q)
          ∙ ap (λ t. drop t (bytes_of q)) (omega (arith, e, a.forward));
      forward = omega (arith, e, a.forward);
      within = omega (arith, e, a.within);
      cursor = a.cursor ∙ dropped_write q v h;
      stops = a.stops;
    }

ack_loop-fails :
    (fuel : ℕ) (q : SendQueue) (new : ℕ)
    → q.ack_pos < new
    → Queue.size q.segments ≤ 0
    → ack_loop (suc fuel) q new ≡ none
unfolding ack_loop
ack_loop-fails fuel q new ahead e =
    rw (lt→ltb q.ack_pos new ahead, le→ltb_false 0 (Queue.size q.segments) e)

segments_pos : (q : SendQueue) → IsValid q → q.ack_pos < q.write_pos → 0 < Queue.size q.segments
segments_pos q v h =
    omega (arith, nonempty (segments_of q) v.chained, length-contents segments_len q.segments)
  where
    nonempty : (ss : List SendSegment) → Chained q.ack_pos ss q.write_pos → 0 < length ss
    nonempty [] c = absurd (omega arith)
    nonempty (s ∷ ss) c = omega arith

dropped-size :
    (q : SendQueue) (v : IsValid q) (h : 0 < Queue.size q.segments)
    → suc (Queue.size (dropped q v h).segments) ≡ Queue.size q.segments
unfolding drop_front
dropped-size q v h = (Front-known q v h).shorter

ack_loop-Acked :
    (fuel : ℕ) (q : SendQueue) (new : ℕ)
    → IsValid q
    → new ≤ q.write_pos
    → Queue.size q.segments < fuel
    → (q' : SendQueue) × (ack_loop fuel q new ≡ some q') × Acked q new q'
ack_loop-Acked zero q new v h f = elim f [ ]
ack_loop-Acked (suc fuel) q new v h f = elim (dec_lt q.ack_pos new) [
  | no stay ↦ let s = ack_loop-stays fuel q new v (omega arith) in (q, s.0, s.1)
  | yes ahead ↦
      let some_left = segments_pos q v (omega arith) in
      elim (dec_lt new (q.ack_pos + (Queue.front segments_len q.segments).data_length)) [
        | yes short ↦ let s = ack_loop-breaks fuel q new v some_left ahead short in (q, s.0, s.1)
        | no whole ↦
            let rest =
              ack_loop-Acked fuel (dropped q v some_left) new (dropped-IsValid q v some_left)
                (omega (arith, dropped_write q v some_left))
                (omega (arith, dropped-size q v some_left)) in
            (
              rest.0,
              ack_loop-drops fuel q new v some_left ahead (omega arith) ∙ rest.1,
              Acked-step q new v some_left rest.0 (omega arith) rest.2,
            )
      ]
]

-- An acknowledgement of what has been written, or of less, is carried out: whole segments leave the
-- front with their bytes, the position never moves back nor, when it moves, past the one given, and it
-- has come to the one given, or was there before, or else the first segment left ends behind that.
pub ack-Acked :
    (q : SendQueue) (new_ack_pos : ℕ)
    → IsValid q
    → new_ack_pos ≤ q.write_pos
    → (q' : SendQueue) × (ack q new_ack_pos ≡ some q') × Acked q new_ack_pos q'
unfolding ack
ack-Acked q new v h = ack_loop-Acked (suc (Queue.size q.segments)) q new v h (omega arith)

ack_loop-beyond :
    (fuel : ℕ) (q : SendQueue) (new : ℕ)
    → IsValid q
    → q.write_pos < new
    → ack_loop fuel q new ≡ none
ack_loop-beyond zero q new v h = unfold ack_loop in refl
ack_loop-beyond (suc fuel) q new v h =
    let le = Chained-le q.ack_pos q.write_pos (segments_of q) v.chained in
    elim (dec_lt 0 (Queue.size q.segments)) [
      | no nothing ↦ ack_loop-fails fuel q new (omega (arith, le)) (omega arith)
      | yes left ↦
          let e = front_end q v left in
          ack_loop-drops fuel q new v left (omega (arith, le)) (omega (arith, e.1))
          ∙ ack_loop-beyond fuel (dropped q v left) new (dropped-IsValid q v left)
              (omega (arith, dropped_write q v left))
    ]

-- An acknowledgement of a byte that was never written fails the assertion that there are segments.
pub ack-beyond :
    (q : SendQueue) (new_ack_pos : ℕ)
    → IsValid q
    → q.write_pos < new_ack_pos
    → ack q new_ack_pos ≡ none
unfolding ack
ack-beyond q new v h = ack_loop-beyond (suc (Queue.size q.segments)) q new v h
