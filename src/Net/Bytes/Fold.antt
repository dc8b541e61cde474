-- ===== src/Net/Bytes/Fold.antt =====
-- The fold of a sum into 16 bits, in one's complement arithmetic, by which checksums are made and verified.
use peos.Prelude.{
  ℕ, zero, suc, ◌+◌, ◌-◌, ◌/◌, ◌%◌, ◌^◌, ◌≤◌, ◌<◌, ◌≡◌, refl, ap, ◌∙◌, arith, lt→ltb, le→ltb_false,
  dec_lt,
}
use peos.Net.Bytes.{fold_words, ones_complement}

-- One round keeps the remainder by 0xFFFF.
round_mod : (sum : ℕ) → (sum / 2 ^ 16 + sum % 2 ^ 16) % 0xFFFF ≡ sum % 0xFFFF
round_mod sum = omega arith

round_pos : (sum : ℕ) → 0 < sum → 0 < sum / 2 ^ 16 + sum % 2 ^ 16
round_pos sum h = omega arith

fold_words_stop : (fuel sum : ℕ) → sum ≤ 0xFFFF → fold_words fuel sum ≡ sum
unfolding fold_words
fold_words_stop zero sum h = refl
fold_words_stop (suc fuel) sum h = rw (le→ltb_false 0xFFFF sum h) refl

fold_words_more :
    (fuel sum : ℕ)
    → 0xFFFF < sum
    → fold_words (suc fuel) sum ≡ fold_words fuel (sum / 2 ^ 16 + sum % 2 ^ 16)
unfolding fold_words
fold_words_more fuel sum h = rw (lt→ltb 0xFFFF sum h) refl

fold_words_le_step :
    (fuel sum b : ℕ)
    → ((t : ℕ) → t ≤ b → fold_words fuel t ≤ 0xFFFF)
    → sum / 2 ^ 16 + sum % 2 ^ 16 ≤ b
    → fold_words (suc fuel) sum ≤ 0xFFFF
fold_words_le_step fuel sum b ih h = elim (dec_lt 0xFFFF sum) [
  | yes more ↦ omega (arith, fold_words_more fuel sum more, ih (sum / 2 ^ 16 + sum % 2 ^ 16) h)
  | no le ↦ omega (arith, fold_words_stop (suc fuel) sum (omega (arith, le)))
]

fold1 : (sum : ℕ) → sum ≤ 0x1FFFE → fold_words 1 sum ≤ 0xFFFF
fold1 sum h =
    fold_words_le_step 0 sum 0xFFFF (λ t l. omega (arith, fold_words_stop 0 t l)) (omega arith)

fold2 : (sum : ℕ) → sum ≤ 0xFFFFFFFF → fold_words 2 sum ≤ 0xFFFF
fold2 sum h = fold_words_le_step 1 sum 0x1FFFE fold1 (omega arith)

fold3 : (sum : ℕ) → sum ≤ 2 ^ 47 → fold_words 3 sum ≤ 0xFFFF
fold3 sum h = fold_words_le_step 2 sum 0xFFFFFFFF fold2 (omega arith)

fold4 : (sum : ℕ) → sum ≤ 2 ^ 62 → fold_words 4 sum ≤ 0xFFFF
fold4 sum h = fold_words_le_step 3 sum (2 ^ 47) fold3 (omega arith)

-- Five rounds fold any 64-bit sum.
pub fold_words_le : (sum : ℕ) → sum < 2 ^ 64 → fold_words 5 sum ≤ 0xFFFF
fold_words_le sum h = fold_words_le_step 4 sum (2 ^ 62) fold4 (omega arith)

-- The fold keeps the remainder by 0xFFFF, and a sum that is not 0 is not folded to 0.
pub fold_words_mod : (fuel sum : ℕ) → fold_words fuel sum % 0xFFFF ≡ sum % 0xFFFF
unfolding fold_words
fold_words_mod zero sum = refl
fold_words_mod (suc fuel) sum = elim (dec_lt 0xFFFF sum) [
  | yes more ↦
      ap (λ t. t % 0xFFFF) (fold_words_more fuel sum more)
      ∙ (fold_words_mod fuel (sum / 2 ^ 16 + sum % 2 ^ 16) ∙ round_mod sum)
  | no le ↦ ap (λ t. t % 0xFFFF) (fold_words_stop (suc fuel) sum (omega (arith, le)))
]

pub fold_words_pos : (fuel sum : ℕ) → 0 < sum → 0 < fold_words fuel sum
unfolding fold_words
fold_words_pos zero sum h = h
fold_words_pos (suc fuel) sum h = elim (dec_lt 0xFFFF sum) [
  | yes more ↦ omega (
    arith,
    fold_words_more fuel sum more,
    fold_words_pos fuel (sum / 2 ^ 16 + sum % 2 ^ 16) (round_pos sum h),
  )
  | no le ↦ omega (arith, fold_words_stop (suc fuel) sum (omega (arith, le)))
]

-- For a sum below 2^64 - 2^16, the checksum is a 16-bit word, and the sum with the checksum added to
-- it folds to 0xFFFF, so that its own checksum is 0: a receiver that sums the checksum along finds
-- nothing wrong.
pub ones_complement-verifies :
    (sum : ℕ)
    → sum < 2 ^ 64 - 2 ^ 16
    → (ones_complement sum < 2 ^ 16)
      × (fold_words 5 (sum + ones_complement sum) ≡ 0xFFFF)
      × (ones_complement (sum + ones_complement sum) ≡ 0)
unfolding ones_complement
ones_complement-verifies sum h =
    let le = fold_words_le sum (omega arith) in
    let s' = sum + (0xFFFF - fold_words 5 sum % 2 ^ 16) in
    let full =
      full_fold s' (fold_words_le s' (omega arith)) (fold_words_mod 5 s')
        (sums sum le (fold_words_mod 5 sum)) (fold_words_pos 5 s' (positive sum le)) in
    (omega arith, full, omega (arith, full))
  where
    full_fold :
        (t : ℕ)
        → fold_words 5 t ≤ 0xFFFF
        → fold_words 5 t % 0xFFFF ≡ t % 0xFFFF
        → t % 0xFFFF ≡ 0
        → 0 < fold_words 5 t
        → fold_words 5 t ≡ 0xFFFF
    full_fold t l m z p = omega arith

    sums :
        (sum : ℕ)
        → fold_words 5 sum ≤ 0xFFFF
        → fold_words 5 sum % 0xFFFF ≡ sum % 0xFFFF
        → (sum + (0xFFFF - fold_words 5 sum % 2 ^ 16)) % 0xFFFF ≡ 0
    sums sum l m = omega arith

    positive :
        (sum : ℕ) → fold_words 5 sum ≤ 0xFFFF → 0 < sum + (0xFFFF - fold_words 5 sum % 2 ^ 16)
    positive sum l = elim (dec_lt 0 sum) [
      | yes p ↦ omega (arith, p)
      | no z ↦ omega (arith, z, fold_words_stop 5 sum (omega (arith, z)))
    ]
