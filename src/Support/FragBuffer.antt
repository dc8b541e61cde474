-- ===== src/Support/FragBuffer.antt =====
-- libraries/support/frag_buffer.h: a datagram put together from fragments, with the holes between them.
-- Positions are `int`s that are not negative: the callers pass offsets and sizes of datagrams.
use peos.Prelude.{
  ℕ, zero, suc, ◌+◌, ◌-◌, ◌/◌, ◌^◌, min, Bool, true, false, not, ◌&&◌, Option, none, some, List, [],
  ◌∷◌, length, ltb, leb, ◌==◌, if◌then◌else◌,
}
use peos.Prelude.Array.{update}
use peos.Prelude.Fault.{◌>>=◌, ◌>>◌, assert}
use peos.Support.Pool.{Pool}
use peos.Support.Pool

pub record Hole : Type 0 where
  pub start : ℕ
  pub end : ℕ

pub overlaps : Hole → Hole → Bool
overlaps h other = ltb other.start h.end && ltb h.start other.end

pub record FragBuffer : Type 0 where
  pub bytes : ℕ → ℕ
  pub holes : Pool Hole

-- The greatest `int`.
abbrev pub int_max : ℕ
int_max = 2 ^ 31 - 1

-- `memcpy` to the array at `pos`.
pub copy_to : (ℕ → ℕ) → ℕ → List ℕ → ℕ → ℕ
copy_to bytes pos [] = bytes
copy_to bytes pos (c ∷ cs) = copy_to (update bytes pos c) (suc pos) cs

module _ (max_len : ℕ) where
  abbrev pub holes_len : ℕ
  holes_len = max_len / 40

  pub reset : FragBuffer → Option FragBuffer
  reset b = do
    (_, holes) ←
        Pool.emplace_anywhere holes_len (Pool.clear b.holes) (record { start = 0; end = int_max })
    some (record b { holes = holes })

  add_hole : Bool → Pool Hole → Hole → Option (Pool Hole)
  add_hole false holes h = some holes
  add_hole true holes h = do (_, holes') ← Pool.emplace_anywhere holes_len holes h; some holes'

  -- What a hole that is overlapped leaves on the left and on the right.
  split_hole : Hole → Pool Hole → ℕ → Hole → Option (Pool Hole)
  split_hole addition holes i hole = do
    let leftover_left = addition.start - hole.start
    let leftover_right = hole.end - addition.end
    holes ← Pool.erase holes i
    holes ←
        add_hole (ltb 0 leftover_left) holes
          (record { start = hole.start; end = hole.start + leftover_left })
    add_hole (ltb 0 leftover_right) holes
        (record { start = hole.end - leftover_right; end = hole.end })

  -- One round of the loop of `insert`: the holes, and whether one was removed.
  insert_round : Hole → Pool Hole → ℕ → Option (Bool × Pool Hole)
  insert_round addition holes i = if not (Pool.valid holes i) then some (false, holes) else (do
    hole ← Pool.at holes i
    let split = split_hole addition holes i hole
    if overlaps addition hole
        then (do holes' ← split; some (true, holes'))
        else some (false, holes))

  -- The watermark is read anew in each round; it stays within the capacity.
  insert_loop : ℕ → Hole → Pool Hole → ℕ → Bool → Option (Bool × Pool Hole)
  insert_loop zero addition holes i removed = none
  insert_loop (suc fuel) addition holes i removed =
      if not (ltb i holes.watermark) then some (removed, holes) else (do
        (again, holes') ← insert_round addition holes i
        insert_loop fuel addition holes' (suc i) (if again then true else removed))

  -- `memcpy` is not bounded by the end of the array; past it there is no behaviour.
  pub insert : FragBuffer → ℕ → List ℕ → Option FragBuffer
  insert b start_pos data_ = do
    let end_pos = min (start_pos + length data_) max_len
    (removed, holes) ←
        insert_loop (suc holes_len) (record { start = start_pos; end = end_pos }) b.holes 0 false
    if removed
        then (do
          assert (leb (start_pos + length data_) max_len)
          some (record { bytes = copy_to b.bytes start_pos data_; holes = holes }))
        else some (record b { holes = holes })

-- The first hole that an iteration visits, if there is exactly one.
pub continuous_size : FragBuffer → Option ℕ
continuous_size b =
    if not (Pool.size b.holes == 1)
    then some 0
    else (do hole ← Pool.at b.holes (Pool.first b.holes); some hole.start)
