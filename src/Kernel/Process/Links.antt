-- ===== src/Kernel/Process/Links.antt =====
-- Doubly linked lists, as the functions from a node to its neighbours.
use peos.Prelude.{
  ℕ, ◌<◌, ◌≡◌, ◌≢◌, ◌⊎◌, refl, ap, sym, ◌∙◌, subst, true, false, not, List, [], ◌∷◌, arith, inl,
  inr, ◌==◌, if◌then◌else◌, Bool-cases, ==_iff, ne→==_false,
}
use peos.Prelude.Array.{update, update_self, update_ne}
use peos.Support.Pool.{end_sentinel}
use peos.Support.Pool.FreeList.{elem, elem-cons, Distinct, Below}

-- From `head` on the links visit the nodes of the list, and lead back to `back`.
abbrev pub Chain : (ℕ → ℕ) → (ℕ → ℕ) → ℕ → ℕ → List ℕ → Type 0
Chain next prev back head [] = head ≡ end_sentinel
Chain next prev back head (x ∷ xs) = (head ≡ x) × (prev x ≡ back) × Chain next prev x (next x) xs

abbrev pub without : ℕ → List ℕ → List ℕ
without i [] = []
without i (x ∷ xs) = if i == x then xs else x ∷ without i xs

-- A node's link changed unless the node is the sentinel.
abbrev pub relink : (ℕ → ℕ) → ℕ → ℕ → ℕ → ℕ
relink f i v = if not (i == end_sentinel) then update f i v else f

pub relink_ne : (f : ℕ → ℕ) (i v j : ℕ) → i ≢ j → relink f i v j ≡ f j
relink_ne f i v j ne = ground arith

relink_self : (f : ℕ → ℕ) (i v : ℕ) → i ≢ end_sentinel → relink f i v i ≡ v
relink_self f i v ne = ground arith

-- Links that agree on the nodes of the list.
pub Chain-agree :
    (next next' prev prev' : ℕ → ℕ) (back head : ℕ) (xs : List ℕ)
    → ((j : ℕ) → elem j xs ≡ true → next' j ≡ next j)
    → ((j : ℕ) → elem j xs ≡ true → prev' j ≡ prev j)
    → Chain next prev back head xs
    → Chain next' prev' back head xs
Chain-agree next next' prev prev' back head [] hn hp c = c
Chain-agree next next' prev prev' back head (x ∷ xs) hn hp c = (
  c.0,
  hp x here ∙ c.1,
  subst (λ h. Chain next' prev' x h xs) (sym (hn x here))
      (Chain-agree next next' prev prev' x (next x) xs (λ j e. hn j (later j e))
        (λ j e. hp j (later j e)) c.2),
)
  where
    here : elem x (x ∷ xs) ≡ true
    here = ground arith

    later : (j : ℕ) → elem j xs ≡ true → elem j (x ∷ xs) ≡ true
    later j e = ground arith

-- The neighbours of a node of the list are in the list, or are its ends.
pub Chain-next :
    (next prev : ℕ → ℕ) (back head i : ℕ) (xs : List ℕ)
    → Chain next prev back head xs
    → elem i xs ≡ true
    → (next i ≡ end_sentinel) ⊎ (elem (next i) xs ≡ true)
Chain-next next prev back head i [] c e = cc
Chain-next next prev back head i (x ∷ []) c e = inl (ground arith)
Chain-next next prev back head i (x ∷ y ∷ ys) c e = elim (Bool-cases (i == x)) [
  | inl q ↦ inr (ground (arith, ap next ((==_iff i x).0 q), c.2.0))
  | inr n ↦ elim (Chain-next next prev x (next x) i (y ∷ ys) c.2 (rw n at e)) [
    | inl q ↦ inl q
    | inr q ↦ inr (ground arith)
  ]
]

pub Chain-prev :
    (next prev : ℕ → ℕ) (back head i : ℕ) (xs : List ℕ)
    → Chain next prev back head xs
    → elem i xs ≡ true
    → ((i ≡ head) × (prev i ≡ back)) ⊎ (elem (prev i) xs ≡ true)
Chain-prev next prev back head i [] c e = cc
Chain-prev next prev back head i (x ∷ xs) c e = elim (Bool-cases (i == x)) [
  | inl q ↦ inl ((==_iff i x).0 q ∙ sym c.0, ap prev ((==_iff i x).0 q) ∙ c.1)
  | inr n ↦ elim (Chain-prev next prev x (next x) i xs c.2 (rw n at e)) [
    | inl (_, q) ↦ inr (ground (arith, q))
    | inr q ↦ inr (ground arith)
  ]
]

-- A new first node.
pub Chain-push :
    (next prev : ℕ → ℕ) (head i : ℕ) (xs : List ℕ)
    → Chain next prev end_sentinel head xs
    → elem i xs ≡ false
    → Distinct xs
    → Below end_sentinel xs
    → i < end_sentinel
    → Chain
        (update next i head)
        (update (relink prev head i) i end_sentinel)
        end_sentinel
        i
        (i ∷ xs)
Chain-push next prev head i [] c out d b lt =
    (refl, update_self (relink prev head i) i end_sentinel, update_self next i head ∙ c)
Chain-push next prev head i (x ∷ xs) c out d b lt =
    let apart = elem-cons i x xs out in
    let at_head : x ≢ end_sentinel = omega (arith, b.0) in
    (
      refl,
      update_self (relink prev head i) i end_sentinel,
      (
        update_self next i head ∙ c.0,
        update_ne (relink prev head i) i x end_sentinel apart.0
            ∙ (ap (λ t. relink prev t i x) c.0 ∙ relink_self prev x i at_head),
        subst (λ t. Chain (update next i head) (update (relink prev head i) i end_sentinel) x t xs)
            (sym (update_ne next i x head apart.0))
            (Chain-agree next (update next i head) prev (update (relink prev head i) i end_sentinel)
              x (next x) xs
              (λ j e. update_ne next i j head (λ q. cc (ap (λ t. elem t xs) q, e, apart.1)))
              (λ j e.
                update_ne (relink prev head i) i j end_sentinel
                  (λ q. cc (ap (λ t. elem t xs) q, e, apart.1))
                ∙ relink_ne prev head i j
                    (λ q. cc (ap (λ t. elem t xs) q, ap (λ t. elem t xs) c.0, e, d.0)))
              c.2),
      ),
    )

-- The first node taken out.
drop_first :
    (next prev : ℕ → ℕ) (back x : ℕ) (xs : List ℕ)
    → Chain next prev x (next x) xs
    → elem back xs ≡ false
    → Distinct xs
    → Below end_sentinel xs
    → Chain (relink next back (next x)) (relink prev (next x) back) back (next x) xs
drop_first next prev back x [] c out d b = c
drop_first next prev back x (y ∷ ys) c out d b =
    let apart = elem-cons back y ys out in
    let same : relink next back (next x) y ≡ next y = relink_ne next back (next x) y apart.0 in
    (
      c.0,
      ap (λ t. relink prev t back y) c.0 ∙ relink_self prev y back (omega (arith, b.0)),
      subst (λ t. Chain (relink next back (next x)) (relink prev (next x) back) y t ys) (sym same)
          (Chain-agree next (relink next back (next x)) prev (relink prev (next x) back) y (next y)
            ys (λ j e. relink_ne next back (next x) j (λ q. cc (ap (λ t. elem t ys) q, e, apart.1)))
            (λ j e.
              relink_ne prev (next x) back j
                (λ q. cc (ap (λ t. elem t ys) q, ap (λ t. elem t ys) c.0, e, d.0)))
            c.2),
    )

drop_link :
    (next prev : ℕ → ℕ) (x i : ℕ) (xs : List ℕ)
    → Chain next prev x (next x) xs
    → elem i xs ≡ true
    → elem x xs ≡ false
    → x ≢ end_sentinel
    → relink next (prev i) (next i) x ≡ (if next x == i then next i else next x)
drop_link next prev x i [] c e out ne = cc
drop_link next prev x i (y ∷ ys) c e out ne = elim (Bool-cases (next x == i)) [
  | inl q ↦
      let i_y : i ≡ y = sym ((==_iff (next x) i).0 q) ∙ c.0 in
      rw (q, ap prev i_y ∙ c.1) (relink_self next x (next i) ne)
  | inr n ↦ rw n (
      relink_ne next (prev i) (next i) x (λ q.
        elim (Chain-prev next prev x (next x) i (y ∷ ys) c e) [
          | inl (z, _) ↦ cc (n, (==_iff (next x) i).1 (sym z))
          | inr z ↦ cc (ap (λ t. elem t (y ∷ ys)) q, z, out)
        ]))
]

-- A node taken out: its neighbours are linked to each other.
pub Chain-drop :
    (next prev : ℕ → ℕ) (back head i : ℕ) (xs : List ℕ)
    → Chain next prev back head xs
    → elem i xs ≡ true
    → elem back xs ≡ false
    → Distinct xs
    → Below end_sentinel xs
    → Chain
        (relink next (prev i) (next i))
        (relink prev (next i) (prev i))
        back
        (if head == i then next i else head)
        (without i xs)
Chain-drop next prev back head i [] c e out d b = cc
Chain-drop next prev back head i (x ∷ xs) c e out d b = elim (Bool-cases (i == x)) [
  | inl q ↦
      let same = (==_iff i x).0 q in
      rw (q, (==_iff head i).1 (c.0 ∙ sym same), ap prev same ∙ c.1, ap next same)
        (drop_first next prev back x xs c.2 (elem-cons back x xs out).1 d.1 b.1)
  | inr n ↦
      let inside : elem i xs ≡ true = rw n at e in
      let later = Chain-drop next prev x (next x) i xs c.2 inside d.0 d.1 b.1 in
      rw (n, ne→==_false head i (λ q. cc (n, (==_iff i x).1 (sym q ∙ c.0))))
        (
          c.0,
          relink_ne prev (next i) (prev i) x (λ q.
                elim (Chain-next next prev x (next x) i xs c.2 inside) [
                  | inl z ↦ omega (arith, z, q, b.0)
                  | inr z ↦ cc (ap (λ t. elem t xs) q, z, d.0)
                ])
              ∙ c.1,
          subst
              (λ t.
                Chain (relink next (prev i) (next i)) (relink prev (next i) (prev i)) x t
                  (without i xs))
              (sym (drop_link next prev x i xs c.2 inside d.0 (omega (arith, b.0)))) later,
        )
]

-- No node is its own neighbour.
pub Chain-no_loop :
    (next prev : ℕ → ℕ) (back head i : ℕ) (xs : List ℕ)
    → Chain next prev back head xs
    → elem i xs ≡ true
    → elem back xs ≡ false
    → Distinct xs
    → Below end_sentinel xs
    → (next i ≢ i) × (prev i ≢ i)
Chain-no_loop next prev back head i [] c e out d b = cc
Chain-no_loop next prev back head i (x ∷ xs) c e out d b = elim (Bool-cases (i == x)) [
  | inr n ↦ Chain-no_loop next prev x (next x) i xs c.2 (rw n at e) d.0 d.1 b.1
  | inl q ↦
      let same = (==_iff i x).0 q in
      (
        λ l. no_next xs c.2 d.0 (sym (ap next same) ∙ l ∙ same),
        λ l. (elem-cons back x xs out).0 (sym c.1 ∙ sym (ap prev same) ∙ l ∙ same),
      )
]
  where
    no_next : (ys : List ℕ) → Chain next prev x (next x) ys → elem x ys ≡ false → next x ≢ x
    no_next [] k o l = omega (arith, k, l, b.0)
    no_next (y ∷ ys) k o l = (elem-cons x y ys o).0 (sym l ∙ k.0)
