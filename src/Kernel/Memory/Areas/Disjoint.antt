-- ===== src/Kernel/Memory/Areas/Disjoint.antt =====
-- The areas of a space do not overlap, and an address is found in the one that covers it.
use mathlib.Core.Option
use peos.Prelude.{
  ℕ, zero, suc, ◌+◌, ◌≤◌, ◌<◌, ◌≡◌, ◌≢◌, ◌↔◌, refl, ap, ◌∙◌, subst, Bool, true, false, ◌||◌, some,
  List, [], ◌∷◌, arith, Bool-cases, Option-cases, inl, inr, ◌==◌, ==_iff, ℕ_discrete,
}
use peos.Support.Pool.{Pool}
use peos.Support.Pool
use peos.Support.Pool.Inv.{Inv}
use peos.Support.Pool.Inv.{valid_iff, valid_at, at-some}
use peos.Support.Pool.FreeList.{elem}
use peos.Support.Pool.Indices.{indices_iff}
use peos.Kernel.Memory.State.{AreaInfo, SpaceInfo, areas_len}
use peos.Kernel.Memory.Areas.{
  overlaps, any_overlaps, overlaps_existing_area, covers, find_from, find_area,
}

pub record IsApart (s : SpaceInfo) (free : List ℕ) : Type 0 where
  pub inv : Inv areas_len s.areas free
  pub apart :
      (i j : ℕ) (a b : AreaInfo)
      → i ≢ j
      → Pool.at s.areas i ≡ some a
      → Pool.at s.areas j ≡ some b
      → overlaps a.start a.end b ≡ false

-- No area of the space overlaps the range.
abbrev pub Clear : SpaceInfo → ℕ → ℕ → Type 0
Clear s start end =
    (i : ℕ) (a : AreaInfo) → Pool.at s.areas i ≡ some a → overlaps start end a ≡ false

-- Two areas that cover an address overlap.
covers-overlap :
    (address : ℕ) (a b : AreaInfo)
    → covers address a ≡ true
    → covers address b ≡ true
    → overlaps a.start a.end b ≡ true
unfolding covers overlaps
covers-overlap address a b h k = ground arith

-- The first of the indices whose area covers the address.
find_from_lem :
    (n : ℕ) (areas : Pool AreaInfo) (i j address : ℕ) (a : AreaInfo)
    → i ≤ j
    → j < i + n
    → Pool.at areas j ≡ some a
    → covers address a ≡ true
    → ((k : ℕ) (b : AreaInfo) → k ≢ j → Pool.at areas k ≡ some b → covers address b ≡ false)
    → find_from n areas i address ≡ some j
unfolding find_from
find_from_lem zero areas i j address a lo hi e c only = absurd (omega arith)
find_from_lem (suc n) areas i j address a lo hi e c only = elim (ℕ_discrete i j) [
  | yes q ↦ rw (ap (Pool.at areas) q ∙ e, c) (ap some q)
  | no ne ↦
      let later = find_from_lem n areas (suc i) j address a (omega arith) (omega arith) e c only in
      elim (Option-cases (Pool.at areas i)) [
        | inl q ↦ rw q later
        | inr (b, q) ↦ rw (q, only i b ne q) later
      ]
]

-- What is found covers the address.
find_from-covers :
    (n : ℕ) (areas : Pool AreaInfo) (i j address : ℕ)
    → find_from n areas i address ≡ some j
    → (a : AreaInfo) × (Pool.at areas j ≡ some a) × (covers address a ≡ true)
unfolding find_from
find_from-covers zero areas i j address e = cc
find_from-covers (suc n) areas i j address e = elim (Option-cases (Pool.at areas i)) [
  | inl q ↦ find_from-covers n areas (suc i) j address (rw q at e)
  | inr (b, q) ↦ elim (Bool-cases (covers address b)) [
    | inl c ↦
        let here : i ≡ j = ap (λ o. Option.get_or {A = ℕ} o i) (rw (q, c) at e) in
        (b, subst (λ k. Pool.at areas k ≡ some b) here q, c)
    | inr c ↦ find_from-covers n areas (suc i) j address (rw (q, c) at e)
  ]
]

-- In a space whose areas do not overlap, the area found for an address is the one that covers it: it is
-- found if there is one, and what is found covers the address.
pub find_area_iff :
    (s : SpaceInfo) (free : List ℕ) (address j : ℕ)
    → IsApart s free
    → (find_area s address ≡ some j)
      ↔ ((a : AreaInfo) × (Pool.at s.areas j ≡ some a) × (covers address a ≡ true))
unfolding find_area
find_area_iff s free address j v = (
  find_from-covers s.areas.watermark s.areas 0 j address,
  λ (a, e, c).
      find_from_lem s.areas.watermark s.areas 0 j address a (omega arith)
        (omega (
          arith,
          ((valid_iff areas_len s.areas free v.inv j).0
              (valid_at areas_len s.areas free v.inv j a e)).0,
        ))
        e c
        (λ k b ne q. elim (Bool-cases (covers address b)) [
          | inr n ↦ n
          | inl t ↦ cc (covers-overlap address b a t c, v.apart k j b a ne q e)
        ]),
)

-- The loop of `overlaps_existing_area` over indices that are valid.
any_overlaps-all :
    (start end : ℕ) (areas : Pool AreaInfo) (is : List ℕ)
    → ((i : ℕ)
        → elem i is ≡ true
        → (a : AreaInfo) × (Pool.at areas i ≡ some a) × (overlaps start end a ≡ false))
    → any_overlaps start end areas is ≡ some false
unfolding any_overlaps
any_overlaps-all start end areas [] h = refl
any_overlaps-all start end areas (i ∷ is) h =
    let (a, e, c) = h i (rw ((==_iff i i).1 refl) refl) in
    rw (e, c) (any_overlaps-all start end areas is (λ j k. h j (rw k (either (j == i)))))
  where
    either : (b : Bool) → (b || true) ≡ true
    either true = refl
    either false = refl

any_overlaps-some :
    (start end : ℕ) (areas : Pool AreaInfo) (is : List ℕ) (i : ℕ) (a : AreaInfo)
    → elem i is ≡ true
    → Pool.at areas i ≡ some a
    → overlaps start end a ≡ true
    → (any_overlaps start end areas is ≡ some false → ⊥)
unfolding any_overlaps
any_overlaps-some start end areas [] i a m e c h = cc
any_overlaps-some start end areas (k ∷ is) i a m e c h = elim (Option-cases (Pool.at areas k)) [
  | inl q ↦ cc (rw q at h)
  | inr (b, q) ↦ elim (Bool-cases (overlaps start end b)) [
    | inl t ↦ cc (rw (q, t) at h)
    | inr n ↦ elim (Bool-cases (i == k)) [
      | inl same ↦ cc (q, e, n, c, ap (Pool.at areas) ((==_iff i k).0 same))
      | inr other ↦ any_overlaps-some start end areas is i a (rw other at m) e c (rw (q, n) at h)
    ]
  ]
]

-- The loop over the areas says whether the range is clear.
pub overlaps_existing_area-Clear :
    (s : SpaceInfo) (free : List ℕ) (start end : ℕ)
    → Inv areas_len s.areas free
    → (overlaps_existing_area s start end ≡ some false) ↔ Clear s start end
unfolding overlaps_existing_area
overlaps_existing_area-Clear s free start end inv = (
  λ h i a e. elim (Bool-cases (overlaps start end a)) [
    | inr n ↦ n
    | inl t ↦ absurd (
        any_overlaps-some start end s.areas (Pool.indices s.areas) i a
          ((indices_iff s.areas i).1 (valid_at areas_len s.areas free inv i a e)) e t h)
  ],
  λ c. any_overlaps-all start end s.areas (Pool.indices s.areas) (λ i m.
      let (a, e) = at-some areas_len s.areas free inv i ((indices_iff s.areas i).0 m) in
      (a, e, c i a e)),
)
