-- ===== src/Support/String/Search.antt =====
-- Comparing texts and finding a character in one.
use peos.Prelude.{
  ℕ, zero, suc, ◌≤◌, ◌<◌, ◌≡◌, refl, ap, ap₂, subst, sym, ◌∙◌, ◌≢◌, ◌↔◌, true, ◌∷◌, arith, length,
  ==_iff, ne→==_false, ℕ_discrete,
}
use peos.Prelude.Int.{ℤ, pos, negsuc}
use peos.Support.String.{String, equal, same_from, find_last_of, find_down, size}
use peos.Support.String.Text.{text, chars, length-chars}

same_from→chars : (f g : ℕ → ℕ) (i n : ℕ) → same_from f g i n ≡ true → chars f i n ≡ chars g i n
unfolding same_from
same_from→chars f g i zero h = refl
same_from→chars f g i (suc n) h = elim (ℕ_discrete (f i) (g i)) [
  | yes e ↦ ap₂ ◌∷◌ e (same_from→chars f g (suc i) n (rw ((==_iff (f i) (g i)).1 e) at h))
  | no p ↦ cc (rw (ne→==_false (f i) (g i) p) at h)
]

chars→same_from : (f g : ℕ → ℕ) (i n : ℕ) → chars f i n ≡ chars g i n → same_from f g i n ≡ true
unfolding same_from
chars→same_from f g i zero h = refl
chars→same_from f g i (suc n) h = rw ((==_iff (f i) (g i)).1 cc) (chars→same_from f g (suc i) n cc)

-- Two texts are equal just when they have the same characters.
pub equal_iff : (s t : String) → (equal s t ≡ true) ↔ (text s ≡ text t)
unfolding equal size
equal_iff s t = elim (ℕ_discrete t.position s.position) [
  | yes e ↦ (
    λ h.
        same_from→chars s.storage t.storage 0 s.position
          (rw ((==_iff t.position s.position).1 e) at h)
        ∙ ap (chars t.storage 0) (sym e),
    λ h.
        rw ((==_iff t.position s.position).1 e)
          (chars→same_from s.storage t.storage 0 s.position (h ∙ ap (chars t.storage 0) e)),
  )
  | no p ↦ (
    λ h. cc (rw (ne→==_false t.position s.position p) at h),
    λ h. absurd (
        p (
          sym (length-chars t.storage 0 t.position)
          ∙ ap length (sym h)
          ∙ length-chars s.storage 0 s.position)),
  )
]

-- The last place of `c` among the characters up to `n`; -1 for none.
abbrev pub LastOf : (ℕ → ℕ) → ℕ → ℕ → ℤ → Type 0
LastOf f c n (pos i) = (i ≤ n) × (f i ≡ c) × ((j : ℕ) → i < j → j ≤ n → f j ≢ c)
LastOf f c n (negsuc k) = (k ≡ 0) × ((j : ℕ) → j ≤ n → f j ≢ c)

LastOf-suc : (f : ℕ → ℕ) (c n : ℕ) (r : ℤ) → f (suc n) ≢ c → LastOf f c n r → LastOf f c (suc n) r
LastOf-suc f c n (pos i) p (h, e, k) = (
  omega arith,
  e,
  λ j a b. elim (ℕ_discrete j (suc n)) [
    | yes q ↦ subst (λ t. f t ≢ c) (sym q) p
    | no q ↦ k j a (omega arith)
  ],
)
LastOf-suc f c n (negsuc i) p (h, k) = (
  h,
  λ j b. elim (ℕ_discrete j (suc n)) [
    | yes q ↦ subst (λ t. f t ≢ c) (sym q) p
    | no q ↦ k j (omega arith)
  ],
)

find_down-LastOf : (f : ℕ → ℕ) (c n : ℕ) → LastOf f c n (find_down f c n)
unfolding find_down
find_down-LastOf f c zero = elim (ℕ_discrete (f 0) c) [
  | yes e ↦ rw ((==_iff (f 0) c).1 e) (omega arith, e, λ j a b. absurd (omega arith))
  | no p ↦ rw (ne→==_false (f 0) c p) (refl, λ j b. subst (λ t. f t ≢ c) {x = 0} (omega arith) p)
]
find_down-LastOf f c (suc n) = elim (ℕ_discrete (f (suc n)) c) [
  | yes e ↦ rw ((==_iff (f (suc n)) c).1 e) (omega arith, e, λ j a b. absurd (omega arith))
  | no p ↦
      rw (ne→==_false (f (suc n)) c p)
        (LastOf-suc f c n (find_down f c n) p (find_down-LastOf f c n))
]

-- `find_last_of` gives the last place of the character, the terminator's included, or -1 for none.
pub find_last_of-LastOf : (s : String) (c : ℕ) → LastOf s.storage c s.position (find_last_of s c)
unfolding find_last_of
find_last_of-LastOf s c = find_down-LastOf s.storage c s.position
