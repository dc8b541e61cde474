-- ===== src/Support/Keyvalue/Tests.antt =====
-- Runs of the attributes' parser.
use peos.Prelude.{ℕ, ◌≡◌, refl, none, List, [], ◌∷◌, arith, false}
use peos.Support.Pool.{empty_pool}
use peos.Support.Keyvalue.{parse, parse_key, parse_value, str_equal}
use peos.Support.Keyvalue.Roundtrip.{line_of, emplace_all, parse-line_of}

-- "a=b c= ".
abbrev pairs : List (List ℕ × List ℕ)
pairs = (97 ∷ [], 98 ∷ []) ∷ (99 ∷ [], []) ∷ []

parse-line_of_example : parse 3 empty_pool (line_of pairs) ≡ emplace_all empty_pool pairs
parse-line_of_example = parse-line_of 3 empty_pool pairs (omega arith) (
  (omega arith, omega arith, tt),
  (omega arith, omega arith, tt),
  ((omega arith, omega arith, tt), tt, tt),
)

-- Text with no equals sign is no key.
no_key : parse_key (97 ∷ 32 ∷ 98 ∷ []) ≡ (none, 98 ∷ [])
unfolding parse_key
no_key = refl

-- A second equals sign makes the value null.
no_value : parse_value (98 ∷ 61 ∷ 99 ∷ []) ≡ (none, 99 ∷ [])
unfolding parse_value
no_value = refl

shorter : str_equal (97 ∷ []) (97 ∷ 98 ∷ []) ≡ false
unfolding str_equal
shorter = refl
