-- ===== src/Support/Pool/Store.antt =====
-- An assignment to a slot that holds a value.
use peos.Prelude.{
  ℕ, ◌<◌, ◌≡◌, refl, ap, sym, ◌∙◌, true, false, List, some, ◌==◌, arith, inl, inr, Bool-cases,
  ==_iff, lt→ltb,
}
use peos.Prelude.Array.{update}
use peos.Support.Pool.{Pool, end_sentinel, valid, size, store_at}
use peos.Support.Pool.FreeList.{elem, Linked-update}
use peos.Support.Pool.Inv.{Inv, valid_iff, at_lem}
use peos.Support.Pool.Emplace.{Filled}

module _ {ℓ} {A : Type ℓ} (capacity : ℕ) (p : Pool A) (idx : ℕ) (a : A) where
  abbrev stored : Pool A
  stored = record p { nodes = update p.nodes idx (record (p.nodes idx) { value = some a }) }

  stored-Inv : (free : List ℕ) → Inv capacity p free → valid p idx ≡ true → Inv capacity stored free
  stored-Inv free v h = record {
    linked =
        Linked-update p.nodes end_sentinel p.free_list_head free idx
          (record (p.nodes idx) { value = some a }) ((valid_iff capacity p free v idx).0 h).1
          v.linked;
    tail_last = v.tail_last;
    distinct = v.distinct;
    below = v.below;
    bounded = v.bounded;
    indexed = v.indexed;
    counted = v.counted;
    taken = λ i lt e. still_taken i lt e;
  }
    where
      still_taken :
          (i : ℕ)
          → i < p.watermark
          → elem i free ≡ false
          → ((stored.nodes i).next_free ≡ end_sentinel)
            × ((stored.nodes i).prev_free ≡ end_sentinel)
            × ((b : A) × ((stored.nodes i).value ≡ some b))
      still_taken i lt e = elim (Bool-cases (idx == i)) [
        | inl s ↦
            let same = (==_iff idx i).0 s in
            let old = v.taken i lt e in
            rw s (
              ap (λ t. (p.nodes t).next_free) same ∙ old.0,
              ap (λ t. (p.nodes t).prev_free) same ∙ old.1,
              (a, refl),
            )
        | inr s ↦ rw s (v.taken i lt e)
      ]

  -- Storing at a valid index succeeds, changes that slot alone, and keeps the invariant with its free
  -- list and the size.
  pub store_at-Filled :
      (free : List ℕ)
      → Inv capacity p free
      → valid p idx ≡ true
      → (p' : Pool A) × (store_at p idx a ≡ some p')
        × Inv capacity p' free
        × Filled p idx a p'
        × (size p' ≡ size p)
  unfolding store_at size
  store_at-Filled free v h = (
    stored,
    rw h refl,
    stored-Inv free v h,
    λ j.
        (rw (at_lem capacity stored free (stored-Inv free v h) j, at_lem capacity p free v j)
          (elim (Bool-cases (idx == j)) [
            | inl s ↦
                let same = (==_iff idx j).0 s in
                let below = (valid_iff capacity p free v idx).0 h in
                rw (
                  s,
                  lt→ltb j p.watermark (omega (arith, below.0)),
                  ap (λ t. elem t free) (sym same) ∙ below.1,
                )
            | inr s ↦ rw s
          ])),
    refl,
  )
