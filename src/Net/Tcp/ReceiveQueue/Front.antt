-- ===== src/Net/Tcp/ReceiveQueue/Front.antt =====
-- The search for the segment with the lowest number, and the reads that go through it.
use peos.Prelude.{
  ℕ, ◌-◌, ◌^◌, ◌≤◌, ◌<◌, ◌≡◌, refl, ap, sym, ◌∙◌, true, false, Option, none, some, List, [], ◌∷◌,
  arith, length, ltb, ◌==◌, lt→ltb, le→ltb_false, inl, inr, ◌⊎◌, Bool-cases, ==_iff, take, drop,
  min, length-take,
}
use peos.Prelude.Int.{add32}
use peos.Support.Queue.Fifo.{contents}
use peos.Support.RingBuffer
use peos.Support.RingBuffer.Reads.{read_front-contents}
use peos.Support.Pool.{Pool}
use peos.Support.Pool
use peos.Support.Pool.FreeList.{elem}
use peos.Support.Pool.Indices.{indices_iff}
use peos.Support.Pool.Erase.{Emptied, erase-Emptied}
use peos.Net.Tcp.ReceiveQueue.{
  ReceiveQueue, RecvSegment, data_len, segments_len, find_lowest, find_front_segment,
  read_one_segment,
}
use peos.Net.Tcp.ReceiveQueue.Insert.{IsValid}

-- Every slot of the list holds a segment; that of `i` is `seg`, and the others have higher numbers.
abbrev Lowest : Pool RecvSegment → ℕ → RecvSegment → List ℕ → Type 0
Lowest p i seg is =
    (j : ℕ)
    → elem j is ≡ true
    → (s : RecvSegment) × (Pool.at p j ≡ some s)
      × (((j ≡ i) × (s ≡ seg)) ⊎ (((i == j) ≡ false) × (seg.seqnbr < s.seqnbr)))

tail_Lowest :
    (p : Pool RecvSegment) (i x : ℕ) (seg : RecvSegment) (xs : List ℕ)
    → Lowest p i seg (x ∷ xs)
    → Lowest p i seg xs
tail_Lowest p i x seg xs h j e = h j (ground arith)

head_in : (x : ℕ) (xs : List ℕ) → elem x (x ∷ xs) ≡ true
head_in x xs = ground arith

tail_in : (i x : ℕ) (xs : List ℕ) → (i == x) ≡ false → elem i (x ∷ xs) ≡ true → elem i xs ≡ true
tail_in i x xs apart e = ground arith

-- Once the lowest is found it is kept.
Lowest-kept :
    (p : Pool RecvSegment) (i : ℕ) (seg : RecvSegment) (is : List ℕ)
    → Lowest p i seg is
    → find_lowest p is seg.seqnbr (some i) ≡ some (some i)
unfolding find_lowest
Lowest-kept p i seg [] h = refl
Lowest-kept p i seg (x ∷ xs) h =
    let (s, e, r) = h x (head_in x xs) in
    let not_lower : ltb s.seqnbr seg.seqnbr ≡ false = le→ltb_false s.seqnbr seg.seqnbr (elim r [
      | inl (_, same) ↦ omega (arith, ap (λ t. t.seqnbr) same)
      | inr (_, more) ↦ omega (arith, more)
    ]) in
    rw (e, not_lower) (Lowest-kept p i seg xs (tail_Lowest p i x seg xs h))

Lowest-found :
    (p : Pool RecvSegment) (i : ℕ) (seg : RecvSegment) (is : List ℕ) (best : ℕ) (it : Option ℕ)
    → Lowest p i seg is
    → elem i is ≡ true
    → seg.seqnbr < best
    → find_lowest p is best it ≡ some (some i)
unfolding find_lowest
Lowest-found p i seg [] best it h e lt = cc e
Lowest-found p i seg (x ∷ xs) best it h e lt =
    let (s, es, r) = h x (head_in x xs) in
    elim r [
      | inl (here, same) ↦
          rw (es, same, lt→ltb seg.seqnbr best lt, here)
            (Lowest-kept p i seg xs (tail_Lowest p i x seg xs h))
      | inr (apart, more) ↦ elim (Bool-cases (ltb s.seqnbr best)) [
        | inl l ↦
            rw (es, l)
              (Lowest-found p i seg xs s.seqnbr (some x) (tail_Lowest p i x seg xs h)
                (tail_in i x xs apart e) more)
        | inr l ↦
            rw (es, l)
              (Lowest-found p i seg xs best it (tail_Lowest p i x seg xs h) (tail_in i x xs apart e)
                lt)
      ]
    ]

-- `i` is the slot of the segment `seg`; every other segment has a higher number.
pub record IsFront (q : ReceiveQueue) (i : ℕ) (seg : RecvSegment) : Type 0 where
  pub holds : Pool.at q.segments i ≡ some seg
  pub is_valid : Pool.valid q.segments i ≡ true
  pub others :
      (j : ℕ)
      → Pool.valid q.segments j ≡ true
      → (i == j) ≡ false
      → (s : RecvSegment) × (Pool.at q.segments j ≡ some s) × (seg.seqnbr < s.seqnbr)

front_Lowest :
    (q : ReceiveQueue) (i : ℕ) (seg : RecvSegment)
    → IsFront q i seg
    → Lowest q.segments i seg (Pool.indices q.segments)
front_Lowest q i seg f j e = elim (Bool-cases (i == j)) [
  | inl s ↦
      let same = (==_iff i j).0 s in
      (seg, ap (Pool.at q.segments) (sym same) ∙ f.holds, inl (sym same, refl))
  | inr s ↦ let (t, et, lt) = f.others j ((indices_iff q.segments j).0 e) s in (t, et, inr (s, lt))
]

-- The search finds the slot of the lowest number, unless that is the greatest number that there is.
pub find_front_segment-IsFront :
    (q : ReceiveQueue) (i : ℕ) (seg : RecvSegment)
    → IsFront q i seg
    → seg.seqnbr < 2 ^ 32 - 1
    → find_front_segment q ≡ some i
unfolding find_front_segment
find_front_segment-IsFront q i seg f lt =
    rw
      (Lowest-found q.segments i seg (Pool.indices q.segments) (2 ^ 32 - 1) none
        (front_Lowest q i seg f) ((indices_iff q.segments i).1 f.is_valid) lt)
      refl

none_lower :
    (p : Pool RecvSegment) (is : List ℕ) (best : ℕ) (it : Option ℕ)
    → ((j : ℕ) → elem j is ≡ true → (s : RecvSegment) × (Pool.at p j ≡ some s) × (best ≤ s.seqnbr))
    → find_lowest p is best it ≡ some it
unfolding find_lowest
none_lower p [] best it h = refl
none_lower p (x ∷ xs) best it h =
    let (s, e, le) = h x (head_in x xs) in
    rw (e, le→ltb_false s.seqnbr best le) (none_lower p xs best it (λ j k. h j (in_tail j x xs k)))
  where
    in_tail : (j x : ℕ) (xs : List ℕ) → elem j xs ≡ true → elem j (x ∷ xs) ≡ true
    in_tail j x xs k = ground arith

-- Where every segment that is held has the greatest number that there is, none is found, and the assertion
-- on that fails.
find_front_segment-greatest :
    (q : ReceiveQueue)
    → ((j : ℕ)
        → Pool.valid q.segments j ≡ true
        → (s : RecvSegment) × (Pool.at q.segments j ≡ some s) × (s.seqnbr ≡ 2 ^ 32 - 1))
    → find_front_segment q ≡ none
unfolding find_front_segment
find_front_segment-greatest q h =
    rw
      (none_lower q.segments (Pool.indices q.segments) (2 ^ 32 - 1) none
        (λ j k. let (s, e, g) = h j ((indices_iff q.segments j).0 k) in (s, e, omega (arith, g))))
      refl

-- In a valid queue, a segment whose number is lower than those of all others is read when it starts
-- at the read cursor, which is below the greatest number that there is, its bytes have come, and it
-- fits the caller's buffer. It is handed over with exactly its bytes, which leave the buffer; its
-- slot is emptied and every other is as it was; the cursor moves past it.
pub read_one_segment-IsFront :
    (q : ReceiveQueue) (free : List ℕ) (i : ℕ) (seg : RecvSegment) (len : ℕ)
    → IsValid q free
    → IsFront q i seg
    → seg.seqnbr ≡ q.read_cursor
    → q.read_cursor < 2 ^ 32 - 1
    → seg.len ≤ len
    → seg.len ≤ length (contents data_len q.data_buffer)
    → (q' : ReceiveQueue) × (free' : List ℕ) × (read_one_segment q len
        ≡ some (seg, take seg.len (contents data_len q.data_buffer), q'))
      × IsValid q' free'
      × (contents data_len q'.data_buffer ≡ drop seg.len (contents data_len q.data_buffer))
      × Emptied q.segments i q'.segments
      × (q'.read_cursor ≡ add32 q.read_cursor seg.len)
unfolding read_one_segment
read_one_segment-IsFront q free i seg len v f e lt fits here =
    let (eb, cb, vb) = read_front-contents data_len q.data_buffer seg.len v.buffer in
    let (p, free', ep, vp, fp, _) =
      erase-Emptied segments_len q.segments free v.pool i f.is_valid in
    let xs = contents data_len q.data_buffer in
    (
      record {
        segments = p;
        data_buffer = (RingBuffer.read_front data_len q.data_buffer seg.len).1;
        read_cursor = add32 q.read_cursor seg.len;
      },
      free',
      rw
          (
            find_front_segment-IsFront q i seg f (omega arith),
            f.holds,
            (==_iff seg.seqnbr q.read_cursor).1 e,
            clamped len seg.len fits,
            eb,
            (==_iff (length (take seg.len xs)) seg.len).1
                (length-take seg.len xs ∙ omega (arith, here)),
            ep,
          )
          refl,
      record { buffer = vb; pool = vp; cursor = omega arith },
      cb,
      fp,
      refl,
    )
  where
    clamped : (a b : ℕ) → b ≤ a → min a b ≡ b
    clamped a b h = omega arith
