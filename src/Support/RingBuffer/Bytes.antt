-- ===== src/Support/RingBuffer/Bytes.antt =====
-- `write` lays its bytes over the contents.
use peos.Prelude.{
  ℕ, suc, ◌+◌, ◌%◌, ◌^◌, ◌≤◌, ◌<◌, ◌≡◌, refl, ap, sym, ◌∙◌, true, false, some, List, [], ◌∷◌, ◌++◌,
  arith, length, lt→ltb, le→ltb_false,
}
use peos.Prelude.Int.{pos, to_int, to_uint32}
use peos.Support.Queue.{Queue}
use peos.Support.Queue
use peos.Support.Queue.Fifo.{IsValid, contents, length-contents}
use peos.Support.Queue.Pad.{set_grow, replace-contents}
use peos.Support.RingBuffer.{write_from, write, write_back, capacity, position, size}

-- The bytes `data` laid over `xs` from index `o` on, with zeros where `xs` ends before `o`.
abbrev pub overlay : List ℕ → ℕ → List ℕ → List ℕ
overlay xs o [] = xs
overlay xs o (c ∷ cs) = overlay (set_grow 0 xs o c) (suc o) cs

module _ (max_len : ℕ) (small : max_len ≤ 0xFFFF) where
  -- An offset and a count within the capacity survive the conversions.
  at_offset : (i o : ℕ) → i + o ≤ 0xFFFF → to_int ((i + to_uint32 (pos o)) % 2 ^ 32) ≡ pos (i + o)
  at_offset i o h = ground arith

  write_from-contents :
      (b : Queue ℕ) (o i : ℕ) (cs : List ℕ)
      → IsValid max_len b
      → i + o + length cs ≤ max_len
      → (b' : Queue ℕ) × (write_from max_len b (pos o) i cs ≡ some b')
        × (contents max_len b' ≡ overlay (contents max_len b) (i + o) cs)
        × IsValid max_len b'
  unfolding write_from
  write_from-contents b o i [] v h = (b, refl, refl, v)
  write_from-contents b o i (c ∷ cs) v h =
      let stored = replace-contents max_len 0 b (i + o) c v (omega arith) in
      let rest = write_from-contents stored.0 o (suc i) cs stored.3 (omega arith) in
      (
        rest.0,
        rw (at_offset i o (omega arith), stored.1) rest.1,
        rest.2
            ∙ ap (λ xs. overlay xs (suc i + o) cs) stored.2
            ∙ ap (λ t. overlay (set_grow 0 (contents max_len b) (i + o) c) t cs) (omega arith),
        rest.3,
      )

  -- A write that fits stores its bytes at the offset.
  pub write-contents :
      (b : Queue ℕ) (o : ℕ) (cs : List ℕ)
      → IsValid max_len b
      → o + length cs ≤ max_len
      → (b' : Queue ℕ) × (write max_len b cs (pos o) ≡ some (true, b'))
        × (contents max_len b' ≡ overlay (contents max_len b) o cs)
        × IsValid max_len b'
  unfolding write position capacity
  write-contents b o cs v h =
      let stored = write_from-contents b o 0 cs v (omega arith) in
      (
        stored.0,
        rw (le→ltb_false max_len ((o % 2 ^ 32 + length cs) % 2 ^ 32) (omega arith), stored.1),
        stored.2 ∙ ap (λ t. overlay (contents max_len b) t cs) (omega arith),
        stored.3,
      )

  -- A write that does not fit is refused, and changes nothing.
  pub write-refused :
      (b : Queue ℕ) (o : ℕ) (cs : List ℕ)
      → max_len < o + length cs
      → o + length cs < 2 ^ 32
      → write max_len b cs (pos o) ≡ some (false, b)
  unfolding write position capacity
  write-refused b o cs h k = rw (lt→ltb max_len ((o % 2 ^ 32 + length cs) % 2 ^ 32) (omega arith))

  -- With the default offset `write` is `write` at the end.
  pub write_back-write :
      (b : Queue ℕ) (cs : List ℕ)
      → write_back max_len b cs ≡ write max_len b cs (pos (size max_len b))
  unfolding write_back write position
  write_back-write b cs = refl

overlay-cons :
    (x : ℕ) (xs : List ℕ) (o : ℕ) (cs : List ℕ) → overlay (x ∷ xs) (suc o) cs ≡ x ∷ overlay xs o cs
overlay-cons x xs o [] = refl
overlay-cons x xs o (c ∷ cs) = overlay-cons x (set_grow 0 xs o c) (suc o) cs

-- At the end of the contents, to lay bytes over is to append them.
pub overlay-append : (xs cs : List ℕ) → overlay xs (length xs) cs ≡ xs ++ cs
overlay-append [] [] = refl
overlay-append [] (c ∷ cs) = overlay-cons c [] 0 cs ∙ ap (◌∷◌ c) (overlay-append [] cs)
overlay-append (x ∷ xs) cs = overlay-cons x xs (length xs) cs ∙ ap (◌∷◌ x) (overlay-append xs cs)

-- With the default offset a write that fits appends its bytes.
pub write_back-contents :
    (max_len : ℕ) (b : Queue ℕ) (cs : List ℕ)
    → max_len ≤ 0xFFFF
    → IsValid max_len b
    → Queue.size b + length cs ≤ max_len
    → (b' : Queue ℕ) × (write_back max_len b cs ≡ some (true, b'))
      × (contents max_len b' ≡ contents max_len b ++ cs)
      × IsValid max_len b'
unfolding size
write_back-contents max_len b cs small v h =
    let stored = write-contents max_len small b (size max_len b) cs v h in
    (
      stored.0,
      write_back-write max_len small b cs ∙ stored.1,
      stored.2
          ∙ ap (λ t. overlay (contents max_len b) t cs) (sym (length-contents max_len b))
          ∙ overlay-append (contents max_len b) cs,
      stored.3,
    )
