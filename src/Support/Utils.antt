-- ===== src/Support/Utils.antt =====
-- libraries/support/utils.cc: the functions on memory and on C strings.
-- A C string is the list of its characters before the terminator; a pointer into it is an offset. An
-- array that is read is the list of its bytes, one that is written a function. `none` is a read
-- behind the end of either.
pub mod Copies
pub mod Finds
mod Tests
use peos.Prelude.{
  ℕ, zero, suc, ◌+◌, ◌-◌, Bool, true, false, not, Option, none, some, List, [], ◌∷◌, ltb, ◌==◌,
  if◌then◌else◌,
}
use peos.Prelude.Int.{ℤ, pos, negsuc, ◌-ℤ◌}
use peos.Prelude.Array.{update}
use peos.Prelude.Fault.{◌>>=◌}

unfoldable pub memset : (ℕ → ℕ) → ℕ → ℕ → ℕ → ℕ → ℕ
memset memory ptr value zero = memory
memset memory ptr value (suc len) = memset (update memory ptr value) (suc ptr) value len

unfoldable pub memcpy : (ℕ → ℕ) → ℕ → List ℕ → ℕ → Option (ℕ → ℕ)
memcpy memory d s zero = some memory
memcpy memory d [] (suc length) = none
memcpy memory d (c ∷ s) (suc length) = memcpy (update memory d c) (suc d) s length

-- A `char` is signed.
abbrev pub char : ℕ → ℤ
char c = if ltb c 128 then pos c else negsuc (255 - c)

unfoldable pub memcmp : List ℕ → List ℕ → ℕ → Option ℤ
memcmp d1 d2 zero = some (pos 0)
memcmp [] d2 (suc length) = none
memcmp (x ∷ d1) [] (suc length) = none
memcmp (x ∷ d1) (y ∷ d2) (suc length) =
    let rest = memcmp d1 d2 length in if not (x == y) then some (char x -ℤ char y) else rest

-- The offset one further on.
abbrev further : Option ℕ → Option ℕ
further none = none
further (some i) = some (suc i)

-- `none` is the null pointer here.
unfoldable pub strchr : List ℕ → ℕ → Option ℕ
strchr [] c = if not (0 == c) then none else some 0
strchr (x ∷ str) c = let rest = strchr str c in if not (x == c) then further rest else some 0

-- Whether characters are left at the place decides at the end; `none` is the null pointer.
unfoldable pub strnchr : List ℕ → ℕ → ℕ → Option ℕ
strnchr [] c zero = none
strnchr [] c (suc len) = if not (0 == c) then none else some 0
strnchr (x ∷ str) c zero = none
strnchr (x ∷ str) c (suc len) =
    let rest = strnchr str c len in if not (x == c) then further rest else some 0

unfoldable pub strlen : List ℕ → ℕ
strlen [] = 0
strlen (c ∷ str) = suc (strlen str)

-- The character at the start of what is left, the terminator's included, and what follows it. There
-- is nothing behind the terminator.
abbrev next_char : Option (List ℕ) → Option (ℕ × Option (List ℕ))
next_char none = none
next_char (some []) = some (0, none)
next_char (some (c ∷ str)) = some (c, some str)

strncmp_from : Option (List ℕ) → Option (List ℕ) → ℕ → Option ℤ
strncmp_from s1 s2 zero = some (pos 0)
strncmp_from s1 s2 (suc len) = do
  (x, s1') ← next_char s1
  (y, s2') ← next_char s2
  let rest = strncmp_from s1' s2' len
  if not (x == y) then some (pos x -ℤ pos y) else rest

unfoldable pub strncmp : List ℕ → List ℕ → ℕ → Option ℤ
unfolding strncmp_from
strncmp s1 s2 len = strncmp_from (some s1) (some s2) len

-- The places behind the terminator are filled with zeros.
unfoldable pub strncpy : (ℕ → ℕ) → ℕ → List ℕ → ℕ → ℕ → ℕ
strncpy memory dest src zero = memory
strncpy memory dest [] (suc len) = memset (update memory dest 0) (suc dest) 0 len
strncpy memory dest (c ∷ src) (suc len) = strncpy (update memory dest c) (suc dest) src len
