-- ===== src/Support/Pool/FreeList.antt =====
-- The free list: the indices that the links visit from the head.
use peos.Prelude.{
  ℕ, zero, suc, ◌≤◌, ◌<◌, ◌≡◌, ◌≢◌, refl, ap, subst, sym, ◌∙◌, Bool, true, false, List, [], ◌∷◌,
  arith, length, ◌==◌, if◌then◌else◌, ◌||◌,
}
use peos.Prelude.Array.{update, update_self, update_ne}
use peos.Support.Pool.{Node, end_sentinel}

abbrev pub elem : ℕ → List ℕ → Bool
elem i [] = false
elem i (x ∷ xs) = i == x || elem i xs

pub elem-cons : (i x : ℕ) (xs : List ℕ) → elem i (x ∷ xs) ≡ false → (i ≢ x) × (elem i xs ≡ false)
elem-cons i x xs e = ground arith

abbrev pub Distinct : List ℕ → Type 0
Distinct [] = Unit {0}
Distinct (x ∷ xs) = (elem x xs ≡ false) × Distinct xs

abbrev pub Below : ℕ → List ℕ → Type 0
Below n [] = Unit {0}
Below n (x ∷ xs) = (x < n) × Below n xs

-- The last index, or the sentinel.
abbrev pub last : List ℕ → ℕ
last [] = end_sentinel
last (x ∷ []) = x
last (x ∷ y ∷ ys) = last (y ∷ ys)

module _ {ℓ} {A : Type ℓ} where
  -- The links go through `xs` from `head` on, and back to `prev`.
  abbrev pub Linked : (ℕ → Node A) → ℕ → ℕ → List ℕ → Type 0
  Linked nodes prev head [] = head ≡ end_sentinel
  Linked nodes prev head (x ∷ xs) =
      (head ≡ x) × ((nodes x).prev_free ≡ prev) × Linked nodes x (nodes x).next_free xs

  -- A node that the list does not visit may change.
  pub Linked-update :
      (nodes : ℕ → Node A) (prev head : ℕ) (xs : List ℕ) (i : ℕ) (n : Node A)
      → elem i xs ≡ false
      → Linked nodes prev head xs
      → Linked (update nodes i n) prev head xs
  Linked-update nodes prev head [] i n e l = l
  Linked-update nodes prev head (x ∷ xs) i n e l =
      let apart = elem-cons i x xs e in
      let same = update_ne nodes i x n apart.0 in
      (
        l.0,
        ap (λ m. m.prev_free) same ∙ l.1,
        subst (λ t. Linked (update nodes i n) x t xs) (sym (ap (λ m. m.next_free) same))
            (Linked-update nodes x (nodes x).next_free xs i n apart.1 l.2),
      )

  -- The back link of the first node may be set.
  pub Linked-prev :
      (nodes : ℕ → Node A) (prev prev' head : ℕ) (x : ℕ) (xs : List ℕ)
      → elem x xs ≡ false
      → Linked nodes prev head (x ∷ xs)
      → Linked (update nodes x (record (nodes x) { prev_free = prev' })) prev' head (x ∷ xs)
  Linked-prev nodes prev prev' head x xs e l =
      let n = record (nodes x) { prev_free = prev' } in
      let same = update_self nodes x n in
      (
        l.0,
        ap (λ m. m.prev_free) same,
        subst (λ t. Linked (update nodes x n) x t xs) (sym (ap (λ m. m.next_free) same))
            (Linked-update nodes x (nodes x).next_free xs x n e l.2),
      )

-- What lies below a bound but is not its predecessor lies below the predecessor.
pub Below-pred : (n i : ℕ) (xs : List ℕ) → suc i ≡ n → Below n xs → elem i xs ≡ false → Below i xs
Below-pred n i [] e b h = tt
Below-pred n i (x ∷ xs) e b h = ground (arith, Below-pred n i xs e b.1)

pub Below-mono : (m n : ℕ) (xs : List ℕ) → m ≤ n → Below m xs → Below n xs
Below-mono m n [] h b = tt
Below-mono m n (x ∷ xs) h b = (omega arith, Below-mono m n xs h b.1)

pub elem-Below : (i n : ℕ) (xs : List ℕ) → Below n xs → elem i xs ≡ true → i < n
elem-Below i n [] b h = cc
elem-Below i n (x ∷ xs) b h = ground (arith, elem-Below i n xs b.1)

pub not-elem-Below : (i n : ℕ) (xs : List ℕ) → Below n xs → n ≤ i → elem i xs ≡ false
not-elem-Below i n [] b h = refl
not-elem-Below i n (x ∷ xs) b h = ground (arith, not-elem-Below i n xs b.1)

pub elem-last : (x : ℕ) (xs : List ℕ) → elem (last (x ∷ xs)) (x ∷ xs) ≡ true
elem-last x [] = ground arith
elem-last x (y ∷ ys) = ground (arith, elem-last y ys)

-- The list without the first occurrence of an index.
remove : ℕ → List ℕ → List ℕ
remove i [] = []
remove i (x ∷ xs) = if i == x then xs else x ∷ remove i xs

elem-remove : (j i : ℕ) (xs : List ℕ) → elem j xs ≡ false → elem j (remove i xs) ≡ false
unfolding remove
elem-remove j i [] h = refl
elem-remove j i (x ∷ xs) h = ground (arith, elem-remove j i xs)

remove-Distinct : (i : ℕ) (xs : List ℕ) → Distinct xs → Distinct (remove i xs)
unfolding remove
remove-Distinct i [] d = tt
remove-Distinct i (x ∷ xs) d = ground (arith, remove-Distinct i xs d.1, elem-remove x i xs d.0)

remove-Below : (n : ℕ) (xs : List ℕ) → Below (suc n) xs → Distinct xs → Below n (remove n xs)
unfolding remove
remove-Below n [] b d = tt
remove-Below n (x ∷ xs) b d =
    ground (arith, remove-Below n xs b.1 d.1, Below-pred (suc n) n xs refl b.1)

length-remove : (i : ℕ) (xs : List ℕ) → length xs ≤ suc (length (remove i xs))
unfolding remove
length-remove i [] = omega arith
length-remove i (x ∷ xs) = ground (arith, length-remove i xs)

-- Distinct indices below a bound are not more than the bound.
pub length-le : (n : ℕ) (xs : List ℕ) → Below n xs → Distinct xs → length xs ≤ n
length-le zero [] b d = omega arith
length-le zero (x ∷ xs) b d = absurd (omega (arith, b.0))
length-le (suc n) xs b d = omega (
  arith,
  length-remove n xs,
  length-le n (remove n xs) (remove-Below n xs b d) (remove-Distinct n xs d),
)
