-- ===== src/Support/Queue.antt =====
-- libraries/support/queue.h: `p2::queue`, a FIFO in a circular array.
-- `_items` is a function of the slot's index; indices are reduced modulo `_MaxLen` at each access,
-- as in the source. `T()` is the parameter `default`. An `int` that the class keeps non-negative is
-- a number; the offset of `replace` is an integer, since callers pass negative ones.
pub mod Window
pub mod Fifo
pub mod Pad
mod Tests
use peos.Prelude.{
  ℕ, zero, suc, ◌+◌, ◌-◌, ◌*◌, ◌/◌, ◌%◌, Bool, true, false, not, Option, none, some, ltb, leb, ◌==◌,
  if◌then◌else◌,
}
use peos.Prelude.Int.{ℤ, pos, negsuc, ◌+ℤ◌, ltb_ℤ}
use peos.Prelude.Array.{update}
use peos.Prelude.Fault.{◌>>=◌}

pub record Queue {ℓ} (A : Type ℓ) : Type ℓ where
  pub items : ℕ → A
  pub read_idx : ℕ
  pub write_idx : ℕ

-- The slot of an integer index: `%` truncates towards zero, so a negative index is outside the
-- array unless `_MaxLen` divides it.
unfoldable pub slot : ℕ → ℤ → Option ℕ
slot max_len (pos n) = some (n % max_len)
slot max_len (negsuc n) = if suc n % max_len == 0 then some 0 else none

module _ {ℓ} {A : Type ℓ} where
  unfoldable pub size : Queue A → ℕ
  size q = q.write_idx - q.read_idx

  unfoldable pub begin : Queue A → ℕ
  begin q = q.read_idx

  unfoldable pub end : Queue A → ℕ
  end q = q.write_idx

  unfoldable pub clear : Queue A → Queue A
  clear q = record q { read_idx = 0; write_idx = 0 }

  module _ (max_len : ℕ) where
    unfoldable pub full : Queue A → Bool
    unfolding size
    full q = size q == max_len

    pub normalize : Queue A → Queue A
    normalize q =
        let smallest = q.read_idx / max_len in
        record q {
          read_idx = q.read_idx - smallest * max_len;
          write_idx = q.write_idx - smallest * max_len;
        }

    -- The Boolean says whether the value was stored.
    pub push_back : Queue A → A → Bool × Queue A
    push_back q val = if leb max_len (q.write_idx - q.read_idx) then (false, q) else (
      true,
      normalize (record q {
        items = update q.items (q.write_idx % max_len) val;
        write_idx = q.write_idx + 1;
      }),
    )

    pub pop_front : Queue A → A × Queue A
    pop_front q = (q.items (q.read_idx % max_len), record q { read_idx = q.read_idx + 1 })

    unfoldable pub front : Queue A → A
    front q = q.items (q.read_idx % max_len)

    unfoldable pub index : Queue A → ℕ → A
    index q idx = q.items (idx % max_len)

    module _ (default : A) where
      reaches_end : Queue A → ℤ → Bool
      unfolding ◌+ℤ◌
      reaches_end q offset = not (ltb_ℤ (pos q.read_idx +ℤ offset) (pos q.write_idx))

      -- `while (_read_idx + offset >= _write_idx && push_back(T()));`
      fill : ℕ → Queue A → ℤ → Queue A
      fill zero q offset = q
      fill (suc fuel) q offset =
          let rest = fill fuel (push_back q default).1 offset in
          if reaches_end q offset
          then (if (push_back q default).0 then rest else (push_back q default).1)
          else q

      store : Queue A → ℤ → A → Option (Bool × Queue A)
      unfolding slot ◌+ℤ◌
      store q offset val =
          if ltb_ℤ (pos q.write_idx) (pos q.read_idx +ℤ offset) then some (false, q) else (do
            i ← slot max_len (pos q.read_idx +ℤ offset)
            some (true, record q { items = update q.items i val }))

      -- Each successful push makes the queue longer, so `_MaxLen + 1` rounds are enough.
      pub replace : Queue A → ℤ → A → Option (Bool × Queue A)
      replace q offset val = store (fill (suc max_len) q offset) offset val
