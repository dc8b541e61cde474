-- ===== src/Support/Format.antt =====
-- libraries/support/format.h: `p2::format`, which fills the flags of a format with texts and numbers.
-- A format is the list of its characters before the terminator. `none` is a panic, a failed assertion,
-- a read behind the terminator, or a width that no `int` holds.
pub mod Texts
mod Tests
use peos.Prelude.{
  ℕ, zero, suc, ◌+◌, ◌-◌, ◌*◌, ◌^◌, Bool, true, false, not, Option, none, some, List, [], ◌∷◌, ltb,
  ◌==◌, if◌then◌else◌,
}
use peos.Prelude.Int.{ℤ, pos, negsuc}
use peos.Prelude.Fault.{◌>>=◌, ◌>>◌, assert}
use peos.Support.String.{String, append, append_text, append_number, isdigit}

-- `_storage_ref` and `_fmt_pos`.
pub record Format : Type 0 where
  pub storage : String
  pub fmt_pos : List ℕ

-- The arguments that `%` is there for.
pub data Arg : Type 0 where
  text_arg : List ℕ → Arg
  number_arg : ℕ → Arg

pub record NumberTraits : Type 0 where
  pub width : ℤ
  pub radix : ℕ
  pub fill : ℕ

-- One of the characters of `values`, or 0.
unfoldable pub fmt_peek_of : List ℕ → List ℕ → ℕ
fmt_peek_of fmt [] = 0
fmt_peek_of [] (v ∷ values) = 0
fmt_peek_of (c ∷ fmt) (v ∷ values) =
    let rest = fmt_peek_of (c ∷ fmt) values in if c == v then c else rest

-- The character of `values` that comes next, and what follows it.
unfoldable pub fmt_expect : List ℕ → List ℕ → Option (ℕ × List ℕ)
fmt_expect fmt [] = none
fmt_expect [] (v ∷ values) = none
fmt_expect (c ∷ fmt) (v ∷ values) =
    let rest = fmt_expect (c ∷ fmt) values in if c == v then some (c, fmt) else rest

unfoldable pub fmt_consume : List ℕ → Option (ℕ × List ℕ)
fmt_consume [] = none
fmt_consume (c ∷ fmt) = some (c, fmt)

-- The digits after the first one.
unfoldable pub more_digits : ℕ → List ℕ → Option (ℕ × List ℕ)
more_digits number [] = some (number, [])
more_digits number (c ∷ fmt) =
    let rest = more_digits (number * 10 + (c - 48)) fmt in
    if isdigit c
    then (do assert (ltb (number * 10 + (c - 48)) (2 ^ 31)); rest)
    else some (number, c ∷ fmt)

unfoldable pub fmt_expect_positive_number : List ℕ → Option (ℕ × List ℕ)
fmt_expect_positive_number [] = none
fmt_expect_positive_number (c ∷ fmt) = if isdigit c then more_digits (c - 48) fmt else none

-- The flags "lxdp".
abbrev number_flags : List ℕ
number_flags = 108 ∷ 120 ∷ 100 ∷ 112 ∷ []

abbrev with_flag : ℤ → ℕ → ℕ × List ℕ → Option (NumberTraits × List ℕ)
with_flag width fill (flag, fmt) =
    if flag == 112
    then some (record { width = pos 8; radix = 16; fill = 48 }, fmt)
    else (if flag == 108
        then (do
          (_, fmt') ← fmt_expect fmt (120 ∷ [])
          some (record { width = pos 16; radix = 16; fill = 48 }, fmt'))
        else (if flag == 120
            then some (
              record {
                width = elim width [
                  | pos n ↦ pos n
                  | negsuc n ↦ if n == 0 then pos 4 else negsuc n
                ];
                radix = 16;
                fill = fill;
              },
              fmt,
            )
            else some (record { width = width; radix = 10; fill = fill }, fmt)))

-- `expect_number` behind its `fmt_scan`.
unfoldable pub expect_traits : List ℕ → Option (NumberTraits × List ℕ)
expect_traits fmt =
    if fmt_peek_of fmt number_flags == 0
    then (do
      (fill, fmt') ← fmt_consume fmt
      (width, fmt'') ← fmt_expect_positive_number fmt'
      flag ← fmt_expect fmt'' number_flags
      with_flag (pos width) fill flag)
    else (do flag ← fmt_expect fmt number_flags; with_flag (negsuc 0) 32 flag)

module _ (max_len : ℕ) where
  -- Up to behind the `%` of the next flag; `%%` is a `%`.
  unfoldable pub fmt_scan : String → List ℕ → Option (String × List ℕ)
  fmt_scan out [] = some (out, [])
  fmt_scan out (c ∷ []) =
      if c == 37 then some (out, []) else (do out' ← append max_len out c; some (out', []))
  fmt_scan out (c ∷ d ∷ fmt) =
      if c == 37
      then (if d == 37
          then (do out' ← append max_len out d; fmt_scan out' fmt)
          else some (out, d ∷ fmt))
      else (do out' ← append max_len out c; fmt_scan out' (d ∷ fmt))

  unfoldable pub fill_flag : Format → Arg → Option Format
  fill_flag f (text_arg str) = do
    (out, fmt) ← fmt_scan f.storage f.fmt_pos
    (_, fmt') ← fmt_expect fmt (115 ∷ [])
    out' ← append_text max_len out str
    some (record { storage = out'; fmt_pos = fmt' })
  fill_flag f (number_arg val) = do
    (out, fmt) ← fmt_scan f.storage f.fmt_pos
    (traits, fmt') ← expect_traits fmt
    out' ← append_number max_len out val traits.width traits.radix traits.fill
    some (record { storage = out'; fmt_pos = fmt' })

  unfoldable pub fill_flags : Format → List Arg → Option Format
  fill_flags f [] = some f
  fill_flags f (head ∷ rest) = do f' ← fill_flag f head; fill_flags f' rest

  unfoldable pub str : Format → Option Format
  str f = do
    (out, fmt) ← fmt_scan f.storage f.fmt_pos
    some (record { storage = out; fmt_pos = fmt })

  -- The constructor over a text, which it appends to.
  unfoldable pub format : String → List ℕ → List Arg → Option Format
  format storage fmt args = do
    f ← fill_flags (record { storage = storage; fmt_pos = fmt }) args
    str f
