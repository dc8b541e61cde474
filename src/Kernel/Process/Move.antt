-- ===== src/Kernel/Process/Move.antt =====
-- A node moved from the one list to the front of another that shares no node with it.
use peos.Prelude.{
  ℕ, ◌<◌, ◌≡◌, ◌≢◌, refl, ap, ◌∙◌, true, false, List, [], ◌∷◌, arith, inl, inr, ◌⊎◌, ◌==◌,
  if◌then◌else◌, Bool-cases, ==_iff,
}
use peos.Prelude.Array.{update, update_ne}
use peos.Support.Pool.{end_sentinel}
use peos.Support.Pool.FreeList.{elem, Distinct, Below, not-elem-Below, elem-Below}
use peos.Kernel.Process.Links.{
  Chain, without, relink, relink_ne, Chain-push, Chain-drop, Chain-next, Chain-prev, Chain-agree,
}

pub elem-without : (j i : ℕ) (xs : List ℕ) → elem j (without i xs) ≡ true → elem j xs ≡ true
elem-without j i [] h = h
elem-without j i (x ∷ xs) h = ground (arith, elem-without j i xs)

without-out : (j i : ℕ) (xs : List ℕ) → elem j xs ≡ false → elem j (without i xs) ≡ false
without-out j i [] h = refl
without-out j i (x ∷ xs) h = ground (arith, without-out j i xs)

pub without-Distinct :
    (i : ℕ) (xs : List ℕ) → Distinct xs → Distinct (without i xs) × (elem i (without i xs) ≡ false)
without-Distinct i [] d = (tt, refl)
without-Distinct i (x ∷ xs) d =
    ground (arith, without-Distinct i xs d.1, without-out x i xs d.0, ==_iff i x)

abbrev pub Apart : List ℕ → List ℕ → Type 0
Apart xs ys = (j : ℕ) → elem j xs ≡ true → elem j ys ≡ false

-- A node of the one list, or the sentinel, is none of the other.
not_in :
    (xs ys : List ℕ) (i j : ℕ)
    → Apart xs ys
    → Below end_sentinel ys
    → (i ≡ end_sentinel) ⊎ (elem i xs ≡ true)
    → elem j ys ≡ true
    → i ≢ j
not_in xs ys i j apart b (inl e) m q = omega (arith, elem-Below j end_sentinel ys b m, e, q)
not_in xs ys i j apart b (inr e) m q = cc (apart i e, ap (λ t. elem t ys) q, m)

pub moved-from :
    (next prev : ℕ → ℕ) (head head' i : ℕ) (xs ys : List ℕ)
    → Chain next prev end_sentinel head xs
    → Chain next prev end_sentinel head' ys
    → Distinct xs
    → Below end_sentinel xs
    → Below end_sentinel ys
    → Apart xs ys
    → elem i xs ≡ true
    → Chain
        (relink next (prev i) (next i))
        (relink prev (next i) (prev i))
        end_sentinel
        (if head == i then next i else head)
        (without i xs)
      × Chain (relink next (prev i) (next i)) (relink prev (next i) (prev i)) end_sentinel head' ys
moved-from next prev head head' i xs ys c c' d b b' apart m = (
  Chain-drop next prev end_sentinel head i xs c m
      (not-elem-Below end_sentinel end_sentinel xs b (omega arith)) d b,
  Chain-agree next (relink next (prev i) (next i)) prev (relink prev (next i) (prev i)) end_sentinel
      head' ys
      (λ j e. relink_ne next (prev i) (next i) j (not_in xs ys (prev i) j apart b' before e))
      (λ j e.
        relink_ne prev (next i) (prev i) j
          (not_in xs ys (next i) j apart b' (Chain-next next prev end_sentinel head i xs c m) e))
      c',
)
  where
    before : (prev i ≡ end_sentinel) ⊎ (elem (prev i) xs ≡ true)
    before = elim (Chain-prev next prev end_sentinel head i xs c m) [
      | inl (_, e) ↦ inl e
      | inr e ↦ inr e
    ]

pub head_in :
    (next prev : ℕ → ℕ) (head : ℕ) (xs : List ℕ)
    → Chain next prev end_sentinel head xs
    → (head ≡ end_sentinel) ⊎ (elem head xs ≡ true)
head_in next prev head [] c = inl c
head_in next prev head (x ∷ xs) c = inr (ground (arith, c.0))

pub moved-to :
    (next prev : ℕ → ℕ) (head head' i : ℕ) (xs ys : List ℕ)
    → Chain next prev end_sentinel head xs
    → Chain next prev end_sentinel head' ys
    → Distinct ys
    → Below end_sentinel xs
    → Below end_sentinel ys
    → Apart ys xs
    → elem i xs ≡ false
    → elem i ys ≡ false
    → i < end_sentinel
    → Chain
        (update next i head')
        (update (relink prev head' i) i end_sentinel)
        end_sentinel
        i
        (i ∷ ys)
      × Chain
          (update next i head')
          (update (relink prev head' i) i end_sentinel)
          end_sentinel
          head
          xs
moved-to next prev head head' i xs ys c c' d b b' apart out out' lt = (
  Chain-push next prev head' i ys c' out' d b' lt,
  Chain-agree next (update next i head') prev (update (relink prev head' i) i end_sentinel)
      end_sentinel head xs
      (λ j e. update_ne next i j head' (λ q. cc (ap (λ t. elem t xs) q, e, out)))
      (λ j e.
        update_ne (relink prev head' i) i j end_sentinel (λ q. cc (ap (λ t. elem t xs) q, e, out))
        ∙ relink_ne prev head' i j (not_in ys xs head' j apart b (head_in next prev head' ys c') e))
      c,
)

-- Nodes that leave one list for the other leave them apart.
pub moved-Apart :
    (i : ℕ) (xs ys : List ℕ) → Distinct xs → Apart xs ys → Apart (without i xs) (i ∷ ys)
moved-Apart i xs ys d apart j m =
    let inside = elem-without j i xs m in
    ground (
      arith,
      apart j inside,
      (without-Distinct i xs d).1,
      m,
      ap (λ t. elem t (without i xs)),
      ==_iff j i,
    )

pub Apart-sym : (xs ys : List ℕ) → Apart xs ys → Apart ys xs
Apart-sym xs ys apart j m = elim (Bool-cases (elem j xs)) [ inr n ↦ n | inl t ↦ cc (apart j t, m) ]
