-- ===== src/Support/FlipBuffer.antt =====
-- libraries/support/flip_buffer.h: two buffers that take turns; a handle dies when its buffer is used anew.
-- A handle is a 64-bit word of the buffer's number, its generation (16 bits) and an offset (32 bits).
pub mod Handles
mod Tests
use peos.Prelude.{
  ℕ, ◌+◌, ◌-◌, ◌*◌, ◌/◌, ◌%◌, ◌^◌, Bool, true, false, not, Option, none, some, ltb, leb, ◌==◌,
  if◌then◌else◌,
}

pub record Buffer : Type 0 where
  pub used : ℕ
  pub generation : ℕ

-- `second` is whether `_cur_buf` is the second buffer. The bytes belong to whoever holds a handle.
pub record FlipBuffer : Type 0 where
  pub buffer1 : Buffer
  pub buffer2 : Buffer
  pub second : Bool

abbrev pub flip_buffer : FlipBuffer
flip_buffer = record {
  buffer1 = record { used = 0; generation = 1000 };
  buffer2 = record { used = 0; generation = 60000 };
  second = false;
}

abbrev pub ptr_buffer : ℕ → ℕ
ptr_buffer ptr = ptr / 2 ^ 62

abbrev pub ptr_generation : ℕ → ℕ
ptr_generation ptr = ptr / 2 ^ 32 % 2 ^ 16

abbrev pub ptr_offset : ℕ → ℕ
ptr_offset ptr = ptr % 2 ^ 32

-- The three parts do not overlap, so that `|` is a sum.
abbrev pub create_ptr : ℕ → ℕ → ℕ → ℕ
create_ptr buffer gen offset = buffer * 2 ^ 62 + gen * 2 ^ 32 + offset

abbrev pub current : FlipBuffer → Buffer
current b = if b.second then b.buffer2 else b.buffer1

abbrev pub set_current : FlipBuffer → Buffer → FlipBuffer
set_current b buf = if b.second then record b { buffer2 = buf } else record b { buffer1 = buf }

-- The generation is a `uint16_t`.
abbrev pub reset : Buffer → Buffer
reset buf = record { used = 0; generation = (buf.generation + 1) % 2 ^ 16 }

abbrev pub flip : FlipBuffer → FlipBuffer
flip b = record b { second = not b.second }

-- What `alloc` does once there is space.
pub take_space : FlipBuffer → ℕ → ℕ × FlipBuffer
take_space b len = (
  create_ptr (if b.second then 2 else 1) (current b).generation (current b).used,
  set_current b (record (current b) { used = (current b).used + len }),
)

pub alloc : ℕ → FlipBuffer → ℕ → ℕ × FlipBuffer
alloc max_len b len =
    if ltb max_len len
    then (0, b)
    else (if ltb (max_len - (current b).used) len
        then take_space (set_current (flip b) (reset (current (flip b)))) len
        else take_space b len)

in_buffer : Buffer → Bool → ℕ → Option (Bool × ℕ)
in_buffer buf second handle =
    if not (ptr_generation handle == buf.generation)
    then none
    else (if leb buf.used (ptr_offset handle) then none else some (second, ptr_offset handle))

-- Where the handle points: which buffer, and the offset in it.
pub data_ : FlipBuffer → ℕ → Option (Bool × ℕ)
data_ b handle =
    if ptr_buffer handle == 1
    then in_buffer b.buffer1 false handle
    else (if ptr_buffer handle == 2 then in_buffer b.buffer2 true handle else none)
