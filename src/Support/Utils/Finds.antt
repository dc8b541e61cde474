-- ===== src/Support/Utils/Finds.antt =====
-- Finding a character in a C string, and comparing memory.
use peos.Prelude.{
  ℕ, zero, suc, ◌+◌, ◌≡◌, refl, ap, sym, ◌∙◌, Option, none, some, List, [], ◌∷◌, arith, length,
  ==_iff, ne→==_false, if◌then◌else◌, ℕ_discrete, ltb, lt→ltb, le→ltb_false,
}
use peos.Prelude.Int.{pos}
use peos.Support.Utils.{strchr, strnchr, further, strncmp, strncmp_from}

-- Cuts a found place off at `len`.
abbrev pub within : ℕ → Option ℕ → Option ℕ
within len none = none
within len (some i) = if ltb i len then some i else none

within-zero : (o : Option ℕ) → within 0 o ≡ none
within-zero none = refl
within-zero (some i) = ground arith

within-further : (len : ℕ) (o : Option ℕ) → within (suc len) (further o) ≡ further (within len o)
within-further len none = refl
within-further len (some i) = ground arith

-- `strnchr` is `strchr` among the first `len` characters, the terminator's included.
pub strnchr-strchr : (s : List ℕ) (c len : ℕ) → strnchr s c len ≡ within len (strchr s c)
unfolding strnchr strchr
strnchr-strchr [] c zero = ground arith
strnchr-strchr [] c (suc len) = ground arith
strnchr-strchr (x ∷ s) c zero = sym (within-zero (strchr (x ∷ s) c))
strnchr-strchr (x ∷ s) c (suc len) = elim (ℕ_discrete x c) [
  | yes e ↦
      rw ((==_iff x c).1 e)
        (ap (λ b. if b then some 0 else none) (sym (lt→ltb 0 (suc len) (omega arith))))
  | no p ↦
      rw (ne→==_false x c p, within-further len (strchr s c)) (ap further (strnchr-strchr s c len))
]

strncmp_from_self :
    (s : List ℕ) (len : ℕ)
    → strncmp_from (some s) (some s) len ≡ (if ltb (length s + 1) len then none else some (pos 0))
unfolding strncmp_from
strncmp_from_self s zero = rw (le→ltb_false (length s + 1) 0 (omega arith)) refl
strncmp_from_self [] (suc zero) = refl
strncmp_from_self [] (suc (suc len)) = rw (lt→ltb 1 (suc (suc len)) (omega arith)) refl
strncmp_from_self (x ∷ s) (suc len) =
    rw ((==_iff x x).1 refl)
      (strncmp_from_self s len ∙ ap (λ b. if b then none else some (pos 0)) (ground arith))

-- A text compared with itself is equal up to the terminator; with a length beyond it, `strncmp` reads
-- on behind the terminator.
pub strncmp_self :
    (s : List ℕ) (len : ℕ)
    → strncmp s s len ≡ (if ltb (length s + 1) len then none else some (pos 0))
unfolding strncmp
strncmp_self s len = strncmp_from_self s len
