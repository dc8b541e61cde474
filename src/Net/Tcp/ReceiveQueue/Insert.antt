-- ===== src/Net/Tcp/ReceiveQueue/Insert.antt =====
-- `insert`: a segment inside the window is taken, with its bytes at its distance from the read cursor.
use peos.Prelude.{
  ℕ, suc, ◌+◌, ◌-◌, ◌^◌, ◌≤◌, ◌<◌, ◌≡◌, refl, ap, ◌∙◌, true, false, some, List, arith, length, ltb,
  leb, ◌==◌, if◌then◌else◌, ◌⊎◌, inl, inr, Bool-cases, ==_iff,
}
use peos.Prelude.Int.{add32, sub32, pos, to_int}
use peos.Support.Queue.Fifo
use peos.Support.Queue.Fifo.{contents}
use peos.Support.RingBuffer.Bytes.{overlay, write-contents}
use peos.Support.Pool.{Pool}
use peos.Support.Pool
use peos.Support.Pool.Inv.{Inv, room_left}
use peos.Support.Pool.Inv
use peos.Support.Pool.Emplace.{Filled, emplace_anywhere-Filled}
use peos.Support.Pool.Store.{store_at-Filled}
use peos.Net.Tcp.ReceiveQueue.{
  ReceiveQueue, RecvSegment, data_len, segments_len, out_of_window, add_segment, insert,
}

-- `free` is the free list of the pool of segments.
pub record IsValid (q : ReceiveQueue) (free : List ℕ) : Type 0 where
  pub buffer : Fifo.IsValid data_len q.data_buffer
  pub pool : Inv segments_len q.segments free
  pub cursor : q.read_cursor < 2 ^ 32

-- The check at the head of `insert`. Where the window reaches round to 0, it refuses exactly the numbers
-- that are not within the capacity of the read cursor; elsewhere it refuses the numbers below the
-- cursor, and leaves the upper end of the window to the buffer.
pub out_of_window-distance :
    (q : ReceiveQueue) (seqnbr : ℕ)
    → q.read_cursor < 2 ^ 32
    → seqnbr < 2 ^ 32
    → out_of_window q seqnbr ≡ (
        if ltb (2 ^ 32 - 1 - q.read_cursor) data_len
        then leb data_len (sub32 seqnbr q.read_cursor)
        else ltb seqnbr q.read_cursor)
unfolding out_of_window
out_of_window-distance q seqnbr h k = ground arith

inside :
    (q : ReceiveQueue) (o : ℕ)
    → q.read_cursor < 2 ^ 32
    → o < data_len
    → out_of_window q (add32 q.read_cursor o) ≡ false
unfolding out_of_window
inside q o h k = ground arith

distance : (c o : ℕ) → c < 2 ^ 32 → o < data_len → to_int (sub32 (add32 c o) c) ≡ pos o
distance c o h k = ground arith

Filled-again :
    {A : Type 0} (p p₁ p₂ : Pool A) (idx : ℕ) (a b : A)
    → Filled p idx a p₁
    → Filled p₁ idx b p₂
    → Filled p idx b p₂
Filled-again p p₁ p₂ idx a b f g j = elim (Bool-cases (idx == j)) [
  | inl s ↦ rw (g j, s)
  | inr s ↦ rw (g j, f j, s)
]

-- The bookkeeping: a slot that was empty holds the segment and its length.
add_segment-Filled :
    (q : ReceiveQueue) (free : List ℕ) (s : RecvSegment) (len : ℕ)
    → IsValid q free
    → Pool.size q.segments < segments_len
    → (idx : ℕ) × (p : Pool RecvSegment) × (free' : List ℕ) × (add_segment q s len
        ≡ some (true, record q { segments = p }))
      × Inv segments_len p free'
      × Filled q.segments idx (record s { len = len }) p
      × (Pool.size p ≡ suc (Pool.size q.segments))
unfolding add_segment
add_segment-Filled q free s len v room =
    let (idx, p₁, free', e₁, v₁, _, f₁, s₁) =
      emplace_anywhere-Filled segments_len q.segments s free v.pool room in
    let s' : RecvSegment = record s { len = len } in
    let (p₂, e₂, v₂, f₂, s₂) =
      store_at-Filled segments_len p₁ idx s' free' v₁ (taken p₁ free' idx v₁ (f₁ idx)) in
    (idx, p₂, free', rw (e₁, e₂) refl, v₂, Filled-again q.segments p₁ p₂ idx s s' f₁ f₂, s₂ ∙ s₁)
  where
    taken :
        (p₁ : Pool RecvSegment) (free' : List ℕ) (idx : ℕ)
        → Inv segments_len p₁ free'
        → Pool.at p₁ idx ≡ (if idx == idx then some s else Pool.at q.segments idx)
        → Pool.valid p₁ idx ≡ true
    taken p₁ free' idx v₁ e = elim (Bool-cases (Pool.valid p₁ idx)) [
      | inl t ↦ t
      | inr f ↦ cc (Inv.at-none segments_len p₁ free' v₁ idx f, e, (==_iff idx idx).1 refl)
    ]

-- In a valid queue, a segment at distance `o` from the read cursor, whose bytes end within the
-- capacity, is taken while there is a slot for it, also when a segment of the same number is held:
-- its bytes lie over the buffer's contents from `o` on, it stands in one slot with its length, every
-- other slot is as it was, and the read cursor stays.
pub insert-inside :
    (q : ReceiveQueue) (free : List ℕ) (s : RecvSegment) (bytes : List ℕ) (o : ℕ)
    → IsValid q free
    → Pool.size q.segments < segments_len
    → o < data_len
    → o + length bytes ≤ data_len
    → s.seqnbr ≡ add32 q.read_cursor o
    → (q' : ReceiveQueue) × (free' : List ℕ) × (idx : ℕ) × (insert q s bytes ≡ some (true, q'))
      × IsValid q' free'
      × (contents data_len q'.data_buffer ≡ overlay (contents data_len q.data_buffer) o bytes)
      × Filled q.segments idx (record s { len = length bytes }) q'.segments
      × (Pool.size q'.segments ≡ suc (Pool.size q.segments))
      × (q'.read_cursor ≡ q.read_cursor)
unfolding insert
insert-inside q free s bytes o v room near fits e =
    let (b, eb, cb, vb) =
      write-contents data_len (omega arith) q.data_buffer o bytes v.buffer fits in
    let q₁ : ReceiveQueue = record q { data_buffer = b } in
    let (idx, p, free', ep, vp, fp, sp) =
      add_segment-Filled q₁ free s (length bytes)
        (record { buffer = vb; pool = v.pool; cursor = v.cursor }) room in
    (
      record q₁ { segments = p },
      free',
      idx,
      rw
          (
            room_left segments_len q.segments room,
            ap (out_of_window q) e ∙ inside q o v.cursor near,
            ap (λ t. to_int (sub32 t q.read_cursor)) e ∙ distance q.read_cursor o v.cursor near,
            eb,
          )
          ep,
      record { buffer = vb; pool = vp; cursor = v.cursor },
      cb,
      fp,
      sp,
      refl,
    )

-- A segment that the window check refuses, or for which there is no slot, leaves the queue as it was.
pub insert-refused :
    (q : ReceiveQueue) (s : RecvSegment) (bytes : List ℕ)
    → (Pool.full segments_len q.segments ≡ true) ⊎ (out_of_window q s.seqnbr ≡ true)
    → insert q s bytes ≡ some (false, q)
unfolding insert
insert-refused q s bytes (inl full) = rw full
insert-refused q s bytes (inr out) = elim (Bool-cases (Pool.full segments_len q.segments)) [
  | inl e ↦ rw e
  | inr e ↦ rw (e, out)
]
