-- ===== src/Support/Pool/Indices.antt =====
-- A loop over a pool visits the valid indices, each of them once, in their order.
use peos.Prelude.{
  ℕ, zero, suc, ◌+◌, ◌≤◌, ◌<◌, ◌≡◌, ◌↔◌, refl, ap, ◌∙◌, true, false, List, ◌∷◌, ◌==◌, arith, inl,
  inr, Bool-cases, ==_iff, dec_lt,
}
use peos.Support.Pool.{Pool, valid, indices, indices_from}
use peos.Support.Pool.FreeList.{elem}
use peos.Support.Pool.Inv.{valid_above}

module _ {ℓ} {A : Type ℓ} (p : Pool A) where
  -- `j` is in `xs` just when it is valid and one of the `n` numbers from `i` on.
  abbrev Between : ℕ → ℕ → ℕ → List ℕ → Type 0
  Between n i j xs =
      ((elem j xs ≡ true) → (valid p j ≡ true) × (i ≤ j) × (j < i + n))
      × ((valid p j ≡ true) → i ≤ j → j < i + n → elem j xs ≡ true)

  skip :
      (n i j : ℕ) (xs : List ℕ)
      → valid p i ≡ false
      → Between n (suc i) j xs
      → Between (suc n) i j xs
  skip n i j xs e r = (
    λ h. ((r.0 h).0, omega (arith, (r.0 h).1), omega (arith, (r.0 h).2)),
    λ v l h. r.1 v (differs v l) (omega arith),
  )
    where
      differs : valid p j ≡ true → i ≤ j → suc i ≤ j
      differs v l = elim (dec_lt i j) [
        | yes h ↦ omega (arith, h)
        | no h ↦ cc (e, v, ap (valid p) {x = i} {y = j} (omega (arith, h)))
      ]

  keep :
      (n i j : ℕ) (xs : List ℕ)
      → valid p i ≡ true
      → Between n (suc i) j xs
      → Between (suc n) i j (i ∷ xs)
  keep n i j xs e r = elim (Bool-cases (j == i)) [
    | inl s ↦
        let same = (==_iff j i).0 s in
        rw s (λ _. (ap (valid p) same ∙ e, omega (arith, same), omega (arith, same)), λ _ _ _. refl)
    | inr s ↦ rw s (
      λ h. ((r.0 h).0, omega (arith, (r.0 h).1), omega (arith, (r.0 h).2)),
      λ v l h. r.1 v (ground arith) (omega arith),
    )
  ]

  indices_from-Between : (n i j : ℕ) → Between n i j (indices_from n p i)
  unfolding indices_from
  indices_from-Between zero i j = (λ h. cc h, λ v l h. absurd (omega arith))
  indices_from-Between (suc n) i j = elim (Bool-cases (valid p i)) [
    | inl e ↦ rw e (keep n i j (indices_from n p (suc i)) e (indices_from-Between n (suc i) j))
    | inr e ↦ rw e (skip n i j (indices_from n p (suc i)) e (indices_from-Between n (suc i) j))
  ]

  -- The loop visits exactly the valid indices.
  pub indices_iff : (j : ℕ) → (elem j (indices p) ≡ true) ↔ (valid p j ≡ true)
  unfolding indices
  indices_iff j = (
    λ h. ((indices_from-Between p.watermark 0 j).0 h).0,
    λ v. (elim (dec_lt j p.watermark) [
      | yes h ↦ (indices_from-Between p.watermark 0 j).1 v (omega arith) (omega (arith, h))
      | no h ↦ cc (v, valid_above p j (omega (arith, h)))
    ]),
  )
