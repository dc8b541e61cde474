-- ===== src/Support/RingBuffer.antt =====
-- libraries/support/ring_buffer.h: `p2::ring_buffer`, a byte buffer over `p2::queue`.
-- `size_t` has 32 bits on the target. The pair `data`, `length` is the list of the bytes. `none` is
-- the `assert` on the write, or an access outside the array.
pub mod Bytes
pub mod Reads
mod Tests
use peos.Prelude.{
  ℕ, zero, suc, ◌+◌, ◌-◌, ◌%◌, ◌^◌, min, Bool, true, false, Option, none, some, List, [], ◌∷◌,
  length, ltb, if◌then◌else◌,
}
use peos.Prelude.Int.{ℤ, pos, negsuc, ◌+ℤ◌, ◌-ℤ◌, ltb_ℤ, pos_part, to_int, to_uint32}
use peos.Prelude.Fault.{◌>>=◌, ◌>>◌, assert}
use peos.Support.Queue.{Queue, replace, pop_front, slot}
use peos.Support.Queue

module _ (max_len : ℕ) where
  unfoldable pub size : Queue ℕ → ℕ
  size b = Queue.size b

  unfoldable pub capacity : ℕ
  capacity = max_len

  unfoldable pub remaining : Queue ℕ → ℕ
  unfolding size capacity
  remaining b = capacity - size b

  unfoldable pub clear : Queue ℕ → Queue ℕ
  clear b = Queue.clear b

  -- The loop of `write`, at byte `i`. The sum `i + offset` is a `size_t` that `replace` takes as an
  -- `int`.
  write_from : Queue ℕ → ℤ → ℕ → List ℕ → Option (Queue ℕ)
  write_from b offset i [] = some b
  write_from b offset i (c ∷ data_left) = do
    (push_ok, b') ← replace max_len 0 b (to_int ((i + to_uint32 offset) % 2 ^ 32)) c
    assert push_ok
    write_from b' offset (suc i) data_left

  -- The place that `offset` names: -1 appends.
  position : Queue ℕ → ℤ → ℤ
  position b (pos n) = pos n
  position b (negsuc zero) = pos (size b)
  position b (negsuc (suc n)) = negsuc (suc n)

  pub write : Queue ℕ → List ℕ → ℤ → Option (Bool × Queue ℕ)
  write b bytes offset =
      if ltb capacity ((to_uint32 (position b offset) + length bytes) % 2 ^ 32)
      then some (false, b)
      else (do b' ← write_from b (position b offset) 0 bytes; some (true, b'))

  -- `write` with its default argument.
  pub write_back : Queue ℕ → List ℕ → Option (Bool × Queue ℕ)
  write_back b bytes = write b bytes (negsuc 0)

  read_loop : ℕ → Queue ℕ → List ℕ × Queue ℕ
  read_loop zero b = ([], b)
  read_loop (suc n) b =
      let (c, b') = pop_front max_len b in let (rest, b'') = read_loop n b' in (c ∷ rest, b'')

  pub read_front : Queue ℕ → ℕ → List ℕ × Queue ℕ
  read_front b max_length = read_loop (min max_length (size b)) b

  peek_loop : ℕ → ℤ → Queue ℕ → Option (List ℕ)
  peek_loop zero at b = some []
  peek_loop (suc n) at b = do
    i ← slot max_len at
    rest ← peek_loop n (at +ℤ pos 1) b
    some (b.items i ∷ rest)

  -- How many bytes there are from `start` on, `length_` at most.
  peek_length : Queue ℕ → ℤ → ℕ → ℕ
  peek_length b start length_ =
      let stop = start +ℤ pos length_ in
      pos_part ((if ltb_ℤ (pos (size b)) stop then pos (size b) else stop) -ℤ start)

  pub peek : Queue ℕ → ℤ → ℕ → Option (List ℕ)
  peek b start length_ = peek_loop (peek_length b start length_) (pos (Queue.begin b) +ℤ start) b

  consume_loop : ℕ → Queue ℕ → Queue ℕ
  consume_loop zero b = b
  consume_loop (suc n) b = consume_loop n (pop_front max_len b).1

  pub consume : Queue ℕ → ℕ → ℕ × Queue ℕ
  consume b max_length = (min max_length (size b), consume_loop (min max_length (size b)) b)
