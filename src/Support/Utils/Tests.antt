-- ===== src/Support/Utils/Tests.antt =====
-- Runs of the functions on memory and C strings.
use peos.Prelude.{◌+◌, ◌≡◌, refl, some, none, [], ◌∷◌, ltb, length, if◌then◌else◌, List, ℕ}
use peos.Prelude.Int.{pos, negsuc, ◌-ℤ◌}
use peos.Support.Utils.{strncmp, memcmp, strnchr, strncpy, memset}
use peos.Support.Utils.Finds.{strncmp_self}

abbrev ab : List ℕ
ab = 97 ∷ 98 ∷ []

strncmp_self_example : strncmp ab ab 100 ≡ (if ltb (length ab + 1) 100 then none else some (pos 0))
strncmp_self_example = strncmp_self ab 100

-- A `char` of memcmp is signed.
signed_chars : memcmp (200 ∷ []) (10 ∷ []) 1 ≡ some (negsuc 65)
unfolding memcmp ◌-ℤ◌
signed_chars = refl

outside : memcmp ab (97 ∷ []) 2 ≡ none
unfolding memcmp
outside = refl

not_within : strnchr ab 98 1 ≡ none
unfolding strnchr
not_within = refl

padded : strncpy (λ i. 7) 0 ab 4 3 ≡ 0
unfolding strncpy memset
padded = refl
