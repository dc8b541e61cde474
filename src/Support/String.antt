-- ===== src/Support/String.antt =====
-- libraries/support/string.h and string.cc: `p2::string`, a terminated text in an array of fixed length.
-- A character is its code. A `const char *` argument is the list of the characters before its
-- terminator. `none` is the failed assertion of `append`.
pub mod Text
pub mod Number
pub mod Search
mod Tests
use peos.Prelude.{
  ℕ, zero, suc, ◌+◌, ◌-◌, ◌/◌, ◌%◌, min, Bool, true, false, ◌&&◌, not, Option, none, some, List, [],
  ◌∷◌, ltb, leb, ◌==◌, if◌then◌else◌,
}
use peos.Prelude.Int.{ℤ, pos, negsuc}
use peos.Prelude.Array.{update}
use peos.Prelude.Fault.{◌>>=◌, ◌>>◌, assert}

unfoldable pub digit_as_char : ℕ → ℕ → ℕ
digit_as_char digit radix =
    if radix == 10
    then 48 + digit
    else (if radix == 16 then (if ltb digit 10 then 48 + digit else 65 + digit - 10) else 63)

unfoldable pub isdigit : ℕ → Bool
isdigit c = leb 48 c && leb c 57

-- `_storage_ref` and `_position`.
pub record String : Type 0 where
  pub storage : ℕ → ℕ
  pub position : ℕ

unfoldable pub size : String → ℕ
size s = s.position

unfoldable pub clear : String → String
clear s = record { storage = update s.storage 0 0; position = 0 }

unfoldable pub backspace : String → String
backspace s =
    if ltb 0 s.position
    then record { storage = update s.storage (s.position - 1) 0; position = s.position - 1 }
    else s

-- A constructor finds some content in its array.
unfoldable pub string : (ℕ → ℕ) → String
string storage = record { storage = update storage 0 0; position = 0 }

-- How often `value_left` is divided until it is zero; each division lowers it.
unfoldable pub divisions : ℕ → ℕ → ℕ → ℕ
divisions zero radix value_left = 0
divisions (suc fuel) radix value_left =
    let more = divisions fuel radix (value_left / radix) in if value_left == 0 then 0 else suc more

-- The characters that a number takes; only -1 asks for as many as there are digits.
unfoldable pub number_width : ℕ → ℕ → ℤ → ℕ
number_width radix value (pos width) = width
number_width radix value (negsuc zero) = suc (divisions value radix (value / radix))
number_width radix value (negsuc (suc n)) = 0

-- The digits from the last of `n` places on, back to the place `start_pos`.
unfoldable pub write_digits : ℕ → ℕ → ℕ → ℕ → (ℕ → ℕ) → ℕ → ℕ
write_digits radix start_pos zero value storage = storage
write_digits radix start_pos (suc n) value storage =
    let written = update storage (start_pos + n) (digit_as_char (value % radix) radix) in
    let rest = write_digits radix start_pos n (value / radix) written in
    if value / radix == 0 then written else rest

module _ (max_len : ℕ) where
  unfoldable pub append : String → ℕ → Option String
  append s c = do
    assert (ltb (s.position + 1) max_len)
    some (record {
      storage = update (update s.storage s.position c) (s.position + 1) 0;
      position = s.position + 1;
    })

  unfoldable pub append_text : String → List ℕ → Option String
  append_text s [] = some s
  append_text s (c ∷ str) = do s' ← append s c; append_text s' str

  -- The loop over `other`, at character `count`.
  unfoldable pub append_some : ℕ → ℕ → String → List ℕ → Option String
  append_some max_length count s [] = some s
  append_some max_length count s (c ∷ other) =
      if leb max_length count
      then some s
      else (do s' ← append s c; append_some max_length (count + 1) s' other)

  unfoldable pub string_from : (ℕ → ℕ) → List ℕ → ℕ → Option String
  string_from storage other max_length =
      append_some (min max_length (max_len - 1)) 0 (record { storage = storage; position = 0 })
        other

  -- The loop of the copies: `n` characters of `other` from the one at `i` on.
  unfoldable pub copy_from : String → ℕ → ℕ → String → Option String
  copy_from other i zero s = some s
  copy_from other i (suc n) s = do s' ← append s (other.storage i); copy_from other (suc i) n s'

  unfoldable pub copy : (ℕ → ℕ) → String → Option String
  copy storage other = copy_from other 0 (size other) (record { storage = storage; position = 0 })

  unfoldable pub assign : String → String → Option String
  assign s other = copy_from other 0 (size other) (record s { position = 0 })

  unfoldable pub append_padding : ℕ → ℕ → String → Option String
  append_padding padding zero s = some s
  append_padding padding (suc n) s = do s' ← append s padding; append_padding padding n s'

  unfoldable pub append_number : String → ℕ → ℤ → ℕ → ℕ → Option String
  append_number s value width radix padding = do
    let n = number_width radix value width
    s' ← append_padding padding n s
    some (record s' { storage = write_digits radix s.position n value s'.storage })

-- Whether `n` characters from `i` on are the same.
unfoldable pub same_from : (ℕ → ℕ) → (ℕ → ℕ) → ℕ → ℕ → Bool
same_from s t i zero = true
same_from s t i (suc n) =
    let rest = same_from s t (suc i) n in if not (s i == t i) then false else rest

unfoldable pub equal : String → String → Bool
equal s rhs = if not (size rhs == size s) then false else same_from s.storage rhs.storage 0 (size s)

-- The loop of `find_last_of`, down from `i`; -1 is what it leaves when nothing is found.
unfoldable pub find_down : (ℕ → ℕ) → ℕ → ℕ → ℤ
find_down storage c zero = if storage 0 == c then pos 0 else negsuc 0
find_down storage c (suc i) =
    let rest = find_down storage c i in if storage (suc i) == c then pos (suc i) else rest

unfoldable pub find_last_of : String → ℕ → ℤ
find_last_of s c = find_down s.storage c s.position
