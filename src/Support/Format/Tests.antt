-- ===== src/Support/Format/Tests.antt =====
-- Runs of the formatter.
use peos.Prelude.{ℕ, ◌≡◌, refl, some, none, List, [], ◌∷◌, map, arith}
use mathlib.Core.Option
use peos.Support.String.{
  String, append, append_number, number_width, divisions, append_padding, write_digits,
  digit_as_char, isdigit,
}
use peos.Support.String.Text.{text, Appended}
use peos.Support.Format.{
  text_arg, number_arg, format, fill_flags, fill_flag, fmt_scan, fmt_expect, fmt_peek_of, str,
  expect_traits, fmt_consume, fmt_expect_positive_number, more_digits,
}
use peos.Support.Format.Texts.{format_of, filled, format-filled}

abbrev empty : String
empty = record { storage = λ i. 0; position = 0 }

-- "50% " and a text and "!".
abbrev parts : List (List ℕ × List ℕ)
parts = (53 ∷ 48 ∷ 37 ∷ [], 97 ∷ 98 ∷ []) ∷ []

format-filled_example :
    (s : String) × Appended 16 empty (filled parts (33 ∷ [])) s
    × (format 16 empty (format_of parts (33 ∷ [])) (map (λ p. text_arg (p.1)) parts)
        ≡ some (record { storage = s; fmt_pos = [] }))
format-filled_example = format-filled 16 empty parts (33 ∷ []) (omega arith)

-- "d%d" with 12.
twelve :
    Option.map (λ f. text f.storage) (format 4 empty (100 ∷ 37 ∷ 100 ∷ []) (number_arg 12 ∷ []))
    ≡ some (100 ∷ 49 ∷ 50 ∷ [])
unfolding format fill_flags fill_flag fmt_scan append expect_traits fmt_peek_of fmt_expect
    append_number number_width divisions append_padding write_digits digit_as_char str
twelve = refl

-- "%04x" with 48879.
beef_hex :
    Option.map
      (λ f. text f.storage)
      (format 5 empty (37 ∷ 48 ∷ 52 ∷ 120 ∷ []) (number_arg 48879 ∷ []))
    ≡ some (66 ∷ 69 ∷ 69 ∷ 70 ∷ [])
unfolding format fill_flags fill_flag fmt_scan append expect_traits fmt_peek_of fmt_expect
    append_number number_width divisions append_padding write_digits digit_as_char str fmt_consume
    fmt_expect_positive_number more_digits isdigit
beef_hex = refl

-- A number with no flag left reads behind the format's end.
behind_end : format 4 empty (97 ∷ []) (number_arg 1 ∷ []) ≡ none
unfolding format fill_flags fill_flag fmt_scan append expect_traits fmt_peek_of fmt_consume
behind_end = refl
