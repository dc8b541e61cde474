-- ===== src/Support/UnorderedMap/Find.antt =====
-- A search finds an entry with the key if there is one.
use peos.Prelude.{
  ℕ, suc, ◌<◌, ◌≡◌, refl, ap, ◌∙◌, Bool, true, false, none, some, List, [], ◌∷◌, arith, ◌==◌, ◌⊎◌,
  inl, inr, Bool-cases, ==_iff, ne→==_false,
}
use peos.Support.Pool.{Pool}
use peos.Support.Pool
use peos.Support.Pool.FreeList.{elem}
use peos.Support.Pool.Inv.{Inv, at-some, valid_iff}
use peos.Support.Pool.Indices.{indices_iff}
use peos.Support.Pool.Emplace.{Filled, emplace_anywhere-Filled}
use peos.Support.UnorderedMap.{Entry, find_in, find, insert}

module _ {ℓ} {K V : Type ℓ} (same : K → K → Bool) (m : Pool (Entry K V)) (key : K) where
  -- The slot holds an entry with the key, or with another one.
  abbrev pub Holds : ℕ → Bool → Type ℓ
  Holds i answer = (e : Entry K V) × (Pool.at m i ≡ some e) × (same e.key key ≡ answer)

  head_elem : (i : ℕ) (is : List ℕ) → elem i (i ∷ is) ≡ true
  head_elem i is = ground arith

  tail_elem : (i j : ℕ) (is : List ℕ) → elem j is ≡ true → elem j (i ∷ is) ≡ true
  tail_elem i j is h = ground arith

  other_elem :
      (i j : ℕ) (is : List ℕ) → elem j (i ∷ is) ≡ true → (j == i) ≡ false → elem j is ≡ true
  other_elem i j is h n = ground arith

  find_in-Holds :
      (is : List ℕ)
      → ((j : ℕ) → elem j is ≡ true → (e : Entry K V) × (Pool.at m j ≡ some e))
      → (it : ℕ) × (find_in same m is key ≡ some it)
        × (((it ≡ m.watermark) × ((j : ℕ) → elem j is ≡ true → Holds j false))
            ⊎ ((elem it is ≡ true) × Holds it true))
  unfolding find_in
  find_in-Holds [] h = (m.watermark, refl, inl (refl, λ j e. cc e))
  find_in-Holds (i ∷ is) h =
      let (e, ee) = h i (head_elem i is) in
      let (it, r, found) = find_in-Holds is (λ j k. h j (tail_elem i j is k)) in
      elim (Bool-cases (same e.key key)) [
        | inl yes_ ↦ (i, rw (ee, yes_) refl, inr (head_elem i is, (e, ee, yes_)))
        | inr no_ ↦ (
          it,
          rw (ee, no_) r,
          (elim found [
            | inl (at_end, none_) ↦ inl (
              at_end,
              λ j k. (elim (Bool-cases (j == i)) [
                | inl s ↦ (e, ap (Pool.at m) ((==_iff j i).0 s) ∙ ee, no_)
                | inr s ↦ none_ j (other_elem i j is k s)
              ]),
            )
            | inr (there, holds) ↦ inr (tail_elem i it is there, holds)
          ]),
        )
      ]

  -- In a map under the invariant of its pool, the search gives the end only if no entry has the key, and
  -- otherwise an entry that has it.
  pub find-Holds :
      (capacity : ℕ) (free : List ℕ)
      → Inv capacity m free
      → (it : ℕ) × (find same m key ≡ some it)
        × (((it ≡ m.watermark) × ((j : ℕ) → Pool.valid m j ≡ true → Holds j false))
            ⊎ ((Pool.valid m it ≡ true) × Holds it true))
  unfolding find
  find-Holds capacity free v =
      let (it, r, found) =
        find_in-Holds (Pool.indices m)
          (λ j h. at-some capacity m free v j ((indices_iff m j).0 h)) in
      (
        it,
        r,
        (elim found [
          | inl (at_end, none_) ↦ inl (at_end, λ j h. none_ j ((indices_iff m j).1 h))
          | inr (there, holds) ↦ inr ((indices_iff m it).0 there, holds)
        ]),
      )

  -- In a map with room, a key that is there is refused and nothing changes; one that is not there gets a
  -- slot that was empty, with its value; every other slot is as it was, and there is one entry more.
  pub insert-Filled :
      (capacity : ℕ) (free : List ℕ) (value : V)
      → Inv capacity m free
      → Pool.size m < capacity
      → (((it : ℕ) × Holds it true) × (insert same capacity m key value ≡ some (false, m)))
        ⊎ (((j : ℕ) → Pool.valid m j ≡ true → Holds j false)
            × ((m' : Pool (Entry K V)) × (idx : ℕ) × (free' : List ℕ) × (insert same capacity m key
                    value
                  ≡ some (true, m'))
                × Inv capacity m' free'
                × (Pool.at m idx ≡ none)
                × Filled m idx (record { key = key; value = value }) m'
                × (Pool.size m' ≡ suc (Pool.size m))))
  unfolding insert
  insert-Filled capacity free value v room =
      let (it, r, found) = find-Holds capacity free v in
      elim found [
        | inl (at_end, none_) ↦
            let (idx, m', free', e, v', empty, f, grown) =
              emplace_anywhere-Filled capacity m (record { key = key; value = value }) free v
                room in
            inr (
              none_,
              (
                m',
                idx,
                free',
                rw (r, (==_iff it m.watermark).1 at_end, e) refl,
                v',
                empty,
                f,
                grown,
              ),
            )
        | inr (is_there, holds) ↦
            let below = ((valid_iff capacity m free v it).0 is_there).0 in
            inl ((it, holds), rw (r, ne→==_false it m.watermark (omega (arith, below))) refl)
      ]
