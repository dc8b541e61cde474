-- ===== src/Support/FlipBuffer/Tests.antt =====
-- Two buffers of 100 bytes.
use peos.Prelude.{◌≡◌, refl, true, false, none, some, arith}
use peos.Support.FlipBuffer.{FlipBuffer, alloc, data_, in_buffer, create_ptr}
use peos.Support.FlipBuffer.Handles.{IsValid, Fresh, alloc-Fresh, alloc-invalidates}

abbrev half_full : FlipBuffer
half_full = record {
  buffer1 = record { used = 60; generation = 1000 };
  buffer2 = record { used = 30; generation = 60000 };
  second = false;
}

half_full-IsValid : IsValid 100 half_full
half_full-IsValid = record {
  sound1 = record { fits = omega arith; short = omega arith };
  sound2 = record { fits = omega arith; short = omega arith };
}

alloc-Fresh_example : Fresh 100 half_full 50 (alloc 100 half_full 50)
alloc-Fresh_example =
    alloc-Fresh 100 half_full 50 (omega arith) half_full-IsValid (omega arith) (omega arith)

points_first : data_ half_full (create_ptr 1 1000 20) ≡ some (false, 20)
unfolding data_ in_buffer
points_first = refl

points_second : data_ half_full (create_ptr 2 60000 20) ≡ some (true, 20)
unfolding data_ in_buffer
points_second = refl

alloc-invalidates_example : data_ (alloc 100 half_full 50).1 (create_ptr 2 60000 20) ≡ none
alloc-invalidates_example =
    alloc-invalidates 100 half_full 50 (create_ptr 2 60000 20) 20 half_full-IsValid (omega arith)
      (omega arith) points_second
