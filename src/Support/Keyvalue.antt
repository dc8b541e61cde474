-- ===== src/Support/Keyvalue.antt =====
-- libraries/support/keyvalue.h: `p2::keyvalue`, the attributes `key=value` of a line.
-- The parser ends keys and values in place and keeps pointers to their starts. No text that it points to
-- is written again, so that a pointer is the list of the characters up to the terminator, and the null
-- pointer is `none`. `_arena` is what `pos` has still to go through.
pub mod Roundtrip
mod Tests
use peos.Prelude.{
  ℕ, zero, suc, ◌+◌, ◌-◌, Bool, true, false, not, Option, none, some, List, [], ◌∷◌, ◌==◌, ltb,
  length, if◌then◌else◌,
}
use peos.Prelude.Fault.{◌>>=◌}
use peos.Support.Pool.{Pool, empty_pool}
use peos.Support.Pool
use peos.Support.String.{string_from}
use peos.Support.String.Text.{text}

pub record Attribute : Type 0 where
  pub name : List ℕ
  pub value : Option (List ℕ)

abbrev pub attribs_len : ℕ
attribs_len = 16

unfoldable pub str_equal : List ℕ → List ℕ → Bool
str_equal [] [] = true
str_equal [] (y ∷ s2) = false
str_equal (x ∷ s1) [] = false
str_equal (x ∷ s1) (y ∷ s2) = let rest = str_equal s1 s2 in if not (x == y) then false else rest

-- A character before what comes next, unless that is refused.
abbrev before : ℕ → Option (List ℕ) × List ℕ → Option (List ℕ) × List ℕ
before c (none, pos) = (none, pos)
before c (some s, pos) = (some (c ∷ s), pos)

unfoldable pub parse_key : List ℕ → Option (List ℕ) × List ℕ
parse_key [] = (none, [])
parse_key (c ∷ pos) =
    let rest = parse_key pos in
    if c == 61 then (some [], pos) else (if c == 32 then (none, pos) else before c rest)

unfoldable pub parse_value : List ℕ → Option (List ℕ) × List ℕ
parse_value [] = (some [], [])
parse_value (c ∷ pos) =
    let rest = parse_value pos in
    if c == 61 then (none, pos) else (if c == 32 then (some [], pos) else before c rest)

-- What is emplaced for a key, with the value that follows it, before the parser goes on; nothing for none.
abbrev with_key :
    (Pool Attribute → List ℕ → Option (Pool Attribute))
    → Pool Attribute
    → Option (List ℕ) × List ℕ
    → Option (Pool Attribute)
with_key go_on attribs (none, pos) = go_on attribs pos
with_key go_on attribs (some name, pos) = do
  let r = parse_value pos
  (_, attribs') ← Pool.emplace_anywhere attribs_len attribs (record { name = name; value = r.0 })
  go_on attribs' (r.1)

-- Each round passes a character.
unfoldable pub parse : ℕ → Pool Attribute → List ℕ → Option (Pool Attribute)
parse zero attribs pos = none
parse (suc fuel) attribs [] = some attribs
parse (suc fuel) attribs (c ∷ pos) = with_key (parse fuel) attribs (parse_key (c ∷ pos))

-- The constructor: a line of at most `n - 1` characters. A copy of nothing is not terminated, so
-- that what is read then was never written.
unfoldable pub keyvalue : ℕ → (ℕ → ℕ) → List ℕ → Option (Pool Attribute)
keyvalue n storage [] = none
keyvalue n storage (c ∷ line) = if ltb n 2 then none else (do
  arena ← string_from n storage (c ∷ line) (n - 1)
  parse (length (c ∷ line) + 1) empty_pool (text arena))

-- The loop of `operator []`, with the slots that are left.
unfoldable pub find_name : ℕ → ℕ → Pool Attribute → List ℕ → Option (List ℕ)
find_name zero i attribs key = none
find_name (suc n) i attribs key =
    let rest = find_name n (suc i) attribs key in
    elim (Pool.at attribs i) [
      | none ↦ rest
      | some a ↦ if str_equal a.name key then a.value else rest
    ]

unfoldable pub value_of : Pool Attribute → List ℕ → Option (List ℕ)
value_of attribs key = find_name attribs.watermark 0 attribs key
