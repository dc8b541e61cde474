-- ===== src/Support/FlipBuffer/Handles.antt =====
-- The life of a handle: it points to its own space until its buffer is used anew.
use peos.Prelude.{
  ℕ, ◌+◌, ◌-◌, ◌^◌, ◌≤◌, ◌<◌, ◌≡◌, refl, ◌∙◌, subst, ◌⊎◌, inl, inr, Bool, true, false, not, none,
  some, arith, if◌then◌else◌, le→ltb_false, lt→ltb, lt→leb_false, ==_iff, dec_lt,
}
use peos.Support.FlipBuffer.{
  Buffer, FlipBuffer, alloc, data_, take_space, in_buffer, current, set_current, flip, reset,
  create_ptr, ptr_buffer, ptr_generation, ptr_offset,
}

pub record IsSound (max_len : ℕ) (buf : Buffer) : Type 0 where
  pub fits : buf.used ≤ max_len
  pub short : buf.generation < 2 ^ 16

pub record IsValid (max_len : ℕ) (b : FlipBuffer) : Type 0 where
  pub sound1 : IsSound max_len b.buffer1
  pub sound2 : IsSound max_len b.buffer2

-- The parts of a handle are read back as they were put in.
parts :
    (n g o : ℕ)
    → g < 2 ^ 16
    → o < 2 ^ 32
    → (ptr_buffer (create_ptr n g o) ≡ n)
      × (ptr_generation (create_ptr n g o) ≡ g)
      × (ptr_offset (create_ptr n g o) ≡ o)
parts n g o h k = (omega arith, omega arith, omega arith)

in_buffer-taken :
    (buf : Buffer) (second : Bool) (n len : ℕ)
    → buf.generation < 2 ^ 16
    → buf.used < 2 ^ 32
    → 0 < len
    → in_buffer (record buf { used = buf.used + len }) second (create_ptr n buf.generation buf.used)
      ≡ some (second, buf.used)
unfolding in_buffer
in_buffer-taken buf second n len h k p =
    let r = parts n buf.generation buf.used h k in
    rw (
      r.1,
      r.2,
      (==_iff buf.generation buf.generation).1 refl,
      lt→leb_false (buf.used + len) buf.used (omega arith),
    )

-- What is known of a handle that has just been given out: it is read back, and its space inside the
-- buffer starts where the space that was in use ends.
abbrev pub Given : ℕ → ℕ → ℕ → ℕ × FlipBuffer → Type 0
Given max_len len o r =
    (data_ r.1 r.0 ≡ some (r.1.second, o))
    × (o + len ≤ max_len)
    × ((current r.1).used ≡ o + len)
    × IsValid max_len r.1

-- The space of a request: behind what is in use of the current buffer, or all of the other buffer where
-- the current one has no room.
abbrev pub Fresh : ℕ → FlipBuffer → ℕ → ℕ × FlipBuffer → Type 0
Fresh max_len b len r =
    ((r.1.second ≡ b.second) × Given max_len len (current b).used r)
    ⊎ ((r.1.second ≡ not b.second) × (max_len < (current b).used + len) × Given max_len len 0 r)

take_space-Given :
    (max_len : ℕ) (b : FlipBuffer) (len : ℕ)
    → max_len < 2 ^ 32
    → IsValid max_len b
    → 0 < len
    → (current b).used + len ≤ max_len
    → Given max_len len (current b).used (take_space b len)
      × ((take_space b len).1.second ≡ b.second)
unfolding take_space data_
take_space-Given max_len b len small v p room =
    by_half b.second b.buffer1 b.buffer2 v.sound1 v.sound2 room
  where
    by_half :
        (second : Bool) (b1 b2 : Buffer)
        → IsSound max_len b1
        → IsSound max_len b2
        → (if second then b2 else b1).used + len ≤ max_len
        → Given max_len len
            (if second then b2 else b1).used
            (take_space (record { buffer1 = b1; buffer2 = b2; second = second }) len)
          × ((take_space (record { buffer1 = b1; buffer2 = b2; second = second }) len).1.second
              ≡ second)
    by_half true b1 b2 s1 s2 room = (
      (
        rw ((parts 2 b2.generation b2.used s2.short (omega arith)).0)
            (in_buffer-taken b2 true 2 len s2.short (omega arith) p),
        room,
        refl,
        record { sound1 = s1; sound2 = record { fits = room; short = s2.short } },
      ),
      refl,
    )
    by_half false b1 b2 s1 s2 room = (
      (
        rw ((parts 1 b1.generation b1.used s1.short (omega arith)).0)
            (in_buffer-taken b1 false 1 len s1.short (omega arith) p),
        room,
        refl,
        record { sound1 = record { fits = room; short = s1.short }; sound2 = s2 },
      ),
      refl,
    )

-- The other buffer, used anew.
abbrev turned : FlipBuffer → FlipBuffer
turned b = set_current (flip b) (reset (current (flip b)))

turned-IsValid :
    (max_len : ℕ) (b : FlipBuffer)
    → IsValid max_len b
    → IsValid max_len (turned b)
      × ((current (turned b)).used ≡ 0)
      × ((turned b).second ≡ not b.second)
turned-IsValid max_len b v = by_half b.second b.buffer1 b.buffer2 v.sound1 v.sound2
  where
    by_half :
        (second : Bool) (b1 b2 : Buffer)
        → IsSound max_len b1
        → IsSound max_len b2
        → (let b : FlipBuffer = record { buffer1 = b1; buffer2 = b2; second = second } in
            IsValid max_len (turned b)
            × ((current (turned b)).used ≡ 0)
            × ((turned b).second ≡ not second))
    by_half true b1 b2 s1 s2 = (
      record { sound1 = record { fits = omega arith; short = omega arith }; sound2 = s2 },
      refl,
      refl,
    )
    by_half false b1 b2 s1 s2 = (
      record { sound1 = s1; sound2 = record { fits = omega arith; short = omega arith } },
      refl,
      refl,
    )

-- A request for some bytes, and no more than a buffer holds, gets a handle to that many bytes inside a
-- buffer: they start where the space in use of the current buffer ends, or, where they do not fit there,
-- at the start of the other buffer, which becomes the current one. The space in use then ends where they
-- end, and the generations and sizes stay in their bounds.
pub alloc-Fresh :
    (max_len : ℕ) (b : FlipBuffer) (len : ℕ)
    → max_len < 2 ^ 32
    → IsValid max_len b
    → 0 < len
    → len ≤ max_len
    → Fresh max_len b len (alloc max_len b len)
unfolding alloc
alloc-Fresh max_len b len small v p fits = elim (dec_lt (max_len - (current b).used) len) [
  | yes more ↦
      let t = turned-IsValid max_len b v in
      rw (le→ltb_false max_len len fits, lt→ltb (max_len - (current b).used) len more)
        (let g = take_space-Given max_len (turned b) len small t.0 p (omega (arith, t.1)) in
          inr (
            g.1 ∙ t.2,
            omega (arith, more, fits),
            subst (λ o. Given max_len len o (take_space (turned b) len)) t.1 g.0,
          ))
  | no room ↦
      rw
        (
          le→ltb_false max_len len fits,
          le→ltb_false (max_len - (current b).used) len (omega (arith, room)),
        )
        (let g = take_space-Given max_len b len small v p (omega (arith, room, p)) in
          inl (g.1, g.0))
]

-- Every handle into the current buffer that points somewhere points to the same place after one more
-- request, also one that turns to the other buffer.
pub alloc-keeps :
    (max_len : ℕ) (b : FlipBuffer) (len handle o : ℕ)
    → data_ b handle ≡ some (b.second, o)
    → data_ (alloc max_len b len).1 handle ≡ some (b.second, o)
unfolding alloc take_space data_ in_buffer
alloc-keeps max_len b len handle o h = by_half b.second b.buffer1 b.buffer2 h
  where
    by_half :
        (second : Bool) (b1 b2 : Buffer)
        → (let b : FlipBuffer = record { buffer1 = b1; buffer2 = b2; second = second } in
            data_ b handle ≡ some (second, o)
            → data_ (alloc max_len b len).1 handle ≡ some (second, o))
    by_half true b1 b2 h = ground arith
    by_half false b1 b2 h = ground arith

-- A request that the current buffer has no room for, though an empty one would, ends every handle into
-- the other buffer, which is used anew.
pub alloc-invalidates :
    (max_len : ℕ) (b : FlipBuffer) (len handle o : ℕ)
    → IsValid max_len b
    → max_len < (current b).used + len
    → len ≤ max_len
    → data_ b handle ≡ some (not b.second, o)
    → data_ (alloc max_len b len).1 handle ≡ none
unfolding alloc take_space data_ in_buffer
alloc-invalidates max_len b len handle o v over fits h =
    by_half b.second b.buffer1 b.buffer2 v.sound1.fits v.sound1.short v.sound2.fits v.sound2.short
      over h
  where
    by_half :
        (second : Bool) (b1 b2 : Buffer)
        → b1.used ≤ max_len
        → b1.generation < 2 ^ 16
        → b2.used ≤ max_len
        → b2.generation < 2 ^ 16
        → max_len < (if second then b2 else b1).used + len
        → (let b : FlipBuffer = record { buffer1 = b1; buffer2 = b2; second = second } in
            data_ b handle ≡ some (not second, o) → data_ (alloc max_len b len).1 handle ≡ none)
    by_half true b1 b2 f1 s1 f2 s2 over h = ground arith
    by_half false b1 b2 f1 s1 f2 s2 over h = ground arith
