-- ===== src/Support/String/Tests.antt =====
-- Runs of the text operations.
use peos.Prelude.{ℕ, ◌+◌, ◌<◌, ◌≡◌, refl, inl, some, none, [], ◌∷◌, arith, ◌==◌, if◌then◌else◌}
use mathlib.Core.Option
use peos.Prelude.Int.{pos, negsuc}
use peos.Support.String.{
  String, string, append_number, append, assign, copy_from, size, backspace, number_width,
  divisions, append_padding, write_digits, digit_as_char,
}
use peos.Support.String.Text.{text}
use peos.Support.String.Number.{append_number-reads, digits, read_number}

-- "ab" in an array of junk.
abbrev ab : String
ab = record {
  storage = λ i. if i == 0 then 97 else (if i == 1 then 98 else (if i == 2 then 0 else 7));
  position = 2;
}

append_number-reads_example :
    (s : String) × (append_number 8 ab 488 (negsuc 0) 10 32 ≡ some s)
    × (s.position ≡ 2 + digits 10 488)
    × (read_number 10 s.storage 2 (digits 10 488) ≡ 488)
    × ((i : ℕ) → i < 2 → s.storage i ≡ ab.storage i)
unfolding number_width divisions
append_number-reads_example = append_number-reads 8 ab 488 10 32 (inl refl) (omega arith)

-- 48879 in four hexadecimal places is BEEF.
beef :
    Option.map (λ s. text s) (append_number 5 (string (λ i. 7)) 48879 (pos 4) 16 48)
    ≡ some (66 ∷ 69 ∷ 69 ∷ 70 ∷ [])
unfolding append_number number_width append_padding append write_digits digit_as_char string
beef = refl

-- Nothing more fits.
full : append 3 ab 99 ≡ none
unfolding append
full = refl

-- Assigning an empty text leaves the array as it was: no terminator is written.
stale : Option.map (λ s. s.storage 0) (assign 3 ab (string (λ i. 7))) ≡ some 97
unfolding assign copy_from size string
stale = refl

erased : text (backspace ab) ≡ 97 ∷ []
unfolding backspace
erased = refl
