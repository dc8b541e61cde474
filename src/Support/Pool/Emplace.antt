-- ===== src/Support/Pool/Emplace.antt =====
-- `emplace_anywhere` fills one empty slot and leaves the others alone.
use peos.Prelude.{
  ℕ, suc, ◌+◌, ◌-◌, ◌≤◌, ◌<◌, ◌≡◌, ◌≢◌, refl, ap, sym, ◌∙◌, true, false, List, [], ◌∷◌, none, some,
  arith, lt→ltb, subst, ◌==◌, if◌then◌else◌, inl, inr, Bool-cases, ==_iff, ==_comm, ltb-suc,
  ne→==_false, le→ltb_false, leb→le,
}
use peos.Prelude.Array.{update}
use peos.Prelude.Fault.{◌>>=◌}
use peos.Support.Pool.{
  Pool, Node, end_sentinel, fresh, construct, place, increase_loop, increase_size, emplace,
  emplace_anywhere, valid, at, size, full,
}
use peos.Support.Pool.FreeList.{
  elem, elem-cons, Below-mono, not-elem-Below, elem-last, last, Linked, Linked-update,
}
use peos.Support.Pool.Inv.{Inv, valid_iff, valid_above, at_lem, not_true}
use peos.Support.Pool.Unlink.{
  unlinked, unlinked_other, unlinked_value, unlinked-Linked, unlink_head,
}

-- The slots after one has been filled.
abbrev pub Filled {ℓ} : {A : Type ℓ} → Pool A → ℕ → A → Pool A → Type ℓ
Filled p idx a p' = (j : ℕ) → at p' j ≡ (if idx == j then some a else at p j)

module _ {ℓ} {A : Type ℓ} (capacity : ℕ) (p : Pool A) (a : A) where
  abbrev grown : Pool A
  grown = record p {
    nodes = update p.nodes p.watermark (fresh (some a));
    watermark = p.watermark + 1;
    count = p.count + 1;
  }

  grown-Inv :
      (free : List ℕ) → Inv capacity p free → p.watermark < capacity → Inv capacity grown free
  grown-Inv free v room = record {
    linked =
        Linked-update p.nodes end_sentinel p.free_list_head free p.watermark (fresh (some a)) out
          v.linked;
    tail_last = v.tail_last;
    distinct = v.distinct;
    below = Below-mono p.watermark (p.watermark + 1) free (omega arith) v.below;
    bounded = omega arith;
    indexed = v.indexed;
    counted = omega (arith, v.counted);
    taken = λ i lt e. grown_taken i lt e;
  }
    where
      out : elem p.watermark free ≡ false
      out = not-elem-Below p.watermark p.watermark free v.below (omega arith)

      grown_taken :
          (i : ℕ)
          → i < p.watermark + 1
          → elem i free ≡ false
          → ((grown.nodes i).next_free ≡ end_sentinel)
            × ((grown.nodes i).prev_free ≡ end_sentinel)
            × ((b : A) × ((grown.nodes i).value ≡ some b))
      grown_taken i lt e = elim (Bool-cases (p.watermark == i)) [
        | inl s ↦ rw s (refl, refl, (a, refl))
        | inr s ↦ rw s (v.taken i (ground arith) e)
      ]

  grown-Filled :
      (free : List ℕ) (v : Inv capacity p free)
      → p.watermark < capacity
      → Filled p p.watermark a grown
  grown-Filled free v room j =
      rw (at_lem capacity grown free (grown-Inv free v room) j, at_lem capacity p free v j)
        (elim (Bool-cases (p.watermark == j)) [
          | inl s ↦
              let same = (==_iff p.watermark j).0 s in
              rw (
                s,
                lt→ltb j (p.watermark + 1) (omega arith),
                not-elem-Below j p.watermark free v.below (omega arith),
              )
          | inr s ↦ rw (s, ltb-suc j p.watermark s)
        ])

  abbrev reused : ℕ → Pool A
  reused x = record p {
    nodes = update (unlinked p.nodes (p.nodes x).next_free) x (fresh (some a));
    free_list_head = (p.nodes x).next_free;
    free_list_tail = if p.free_list_tail == x then end_sentinel else p.free_list_tail;
    count = p.count + 1;
  }

  -- The successor of the head is in the list, or is the sentinel.
  not_next :
      (x i : ℕ) (xs : List ℕ)
      → i < end_sentinel
      → elem i xs ≡ false
      → Linked p.nodes x (p.nodes x).next_free xs
      → i ≢ (p.nodes x).next_free
  not_next x i [] lt e l n = omega (arith, n, l)
  not_next x i (y ∷ ys) lt e l n = (elem-cons i y ys e).0 (n ∙ l.0)

  reused_tail :
      (x : ℕ) (xs : List ℕ)
      → p.free_list_tail ≡ last (x ∷ xs)
      → elem x xs ≡ false
      → (if p.free_list_tail == x then end_sentinel else p.free_list_tail) ≡ last xs
  reused_tail x [] t d = rw ((==_iff p.free_list_tail x).1 t)
  reused_tail x (y ∷ ys) t d = rw (ne→==_false p.free_list_tail x (λ n. cc (d, elem-last y ys))) t

  reused-Inv : (x : ℕ) (xs : List ℕ) → Inv capacity p (x ∷ xs) → Inv capacity (reused x) xs
  reused-Inv x xs v = record {
    linked =
        Linked-update (unlinked p.nodes (p.nodes x).next_free) end_sentinel (p.nodes x).next_free xs
          x (fresh (some a)) v.distinct.0
          (unlinked-Linked p.nodes x (p.nodes x).next_free p.watermark xs
            (omega (arith, v.bounded, v.indexed)) v.below.1 v.distinct.1 v.linked.2);
    tail_last = reused_tail x xs v.tail_last v.distinct.0;
    distinct = v.distinct.1;
    below = v.below.1;
    bounded = v.bounded;
    indexed = v.indexed;
    counted = omega (arith, v.counted);
    taken = λ i lt e. reused_taken i lt e;
  }
    where
      reused_taken :
          (i : ℕ)
          → i < p.watermark
          → elem i xs ≡ false
          → (((reused x).nodes i).next_free ≡ end_sentinel)
            × (((reused x).nodes i).prev_free ≡ end_sentinel)
            × ((b : A) × (((reused x).nodes i).value ≡ some b))
      reused_taken i lt e = elim (Bool-cases (x == i)) [
        | inl s ↦ rw s (refl, refl, (a, refl))
        | inr s ↦
            let old = v.taken i lt (not_true (elem i (x ∷ xs)) (λ h. cc (h, e, s, ==_comm i x))) in
            rw s (
              subst
                (λ (n : Node A).
                  (n.next_free ≡ end_sentinel)
                  × (n.prev_free ≡ end_sentinel)
                  × ((b : A) × (n.value ≡ some b)))
                (sym (
                  unlinked_other p.nodes (p.nodes x).next_free i
                    (not_next x i xs (omega (arith, lt, v.bounded, v.indexed)) e v.linked.2)))
                old)
      ]

  reused-Filled : (x : ℕ) (xs : List ℕ) → Inv capacity p (x ∷ xs) → Filled p x a (reused x)
  reused-Filled x xs v j =
      rw (at_lem capacity (reused x) xs (reused-Inv x xs v) j, at_lem capacity p (x ∷ xs) v j)
        (elim (Bool-cases (x == j)) [
          | inl s ↦
              let same = (==_iff x j).0 s in
              rw (
                s,
                lt→ltb j p.watermark (omega (arith, v.below.0)),
                ap (λ t. elem t xs) (sym same) ∙ v.distinct.0,
              )
          | inr s ↦ rw (==_comm j x, s, unlinked_value p.nodes (p.nodes x).next_free j)
        ])

  -- With its index at or below the watermark and no value there, `emplace` runs no round of
  -- `increase_size`.
  emplace_low :
      (idx : ℕ)
      → idx ≤ p.watermark
      → idx < capacity
      → emplace capacity p idx a ≡ some (place p idx a)
  unfolding emplace increase_size
  emplace_low idx h lt = rw (lt→ltb idx capacity lt, none_left) (unfold increase_loop in refl)
    where
      none_left : idx - p.watermark ≡ 0
      none_left = omega arith

  place-grown : place p p.watermark a ≡ grown
  unfolding place construct
  place-grown =
      rw (valid_above p p.watermark (omega arith), (==_iff p.watermark p.watermark).1 refl)

  place-reused : (x : ℕ) (xs : List ℕ) → Inv capacity p (x ∷ xs) → place p x a ≡ reused x
  unfolding place construct
  place-reused x xs v = rw (
    not_true (valid p x)
        (λ h. cc (((valid_iff capacity p (x ∷ xs) v x).0 h).1, (==_iff x x).1 refl)),
    ne→==_false x p.watermark (omega (arith, v.below.0)),
    unlink_head p x v.linked.0 v.linked.1,
  )

  -- In a pool with room `emplace_anywhere` picks a slot without a value, the head of the free list if
  -- there is one and the watermark if not. The value is stored there, every other slot is as it was,
  -- the invariant is kept, and the size grows by one.
  pub emplace_anywhere-Filled :
      (free : List ℕ)
      → Inv capacity p free
      → size p < capacity
      → (idx : ℕ) × (p' : Pool A) × (free' : List ℕ) × (emplace_anywhere capacity p a
          ≡ some (idx, p'))
        × Inv capacity p' free'
        × (at p idx ≡ none)
        × Filled p idx a p'
        × (size p' ≡ suc (size p))
  unfolding size emplace_anywhere
  emplace_anywhere-Filled [] v h = (
    p.watermark,
    grown,
    [],
    rw (
      (==_iff p.free_list_head end_sentinel).1 v.linked,
      emplace_low p.watermark (omega arith) room,
      place-grown,
    ),
    grown-Inv [] v room,
    at_lem capacity p [] v p.watermark ∙ rw (le→ltb_false p.watermark p.watermark (omega arith)),
    grown-Filled [] v room,
    omega arith,
  )
    where
      room : p.watermark < capacity
      room = omega (arith, v.counted)
  emplace_anywhere-Filled (x ∷ xs) v h = (
    x,
    reused x,
    xs,
    rw
        (ne→==_false p.free_list_head end_sentinel
          (omega (arith, v.linked.0, v.below.0, v.bounded, v.indexed)))
        (subst
          (λ i.
            ◌>>=◌ {B = ℕ × Pool A} (emplace capacity p i a) (λ p'. some (i, p'))
            ≡ some (x, reused x))
          (sym v.linked.0)
          (rw (
            emplace_low x (omega (arith, v.below.0)) (omega (arith, v.below.0, v.bounded)),
            place-reused x xs v,
          ))),
    reused-Inv x xs v,
    at_lem capacity p (x ∷ xs) v x ∙ rw (lt→ltb x p.watermark v.below.0, (==_iff x x).1 refl),
    reused-Filled x xs v,
    omega arith,
  )

  -- A full pool fails the assertion on the index.
  pub emplace_anywhere-full :
      (free : List ℕ)
      → Inv capacity p free
      → full capacity p ≡ true
      → emplace_anywhere capacity p a ≡ none
  unfolding full emplace_anywhere emplace increase_size
  emplace_anywhere-full [] v h = rw (
    (==_iff p.free_list_head end_sentinel).1 v.linked,
    le→ltb_false p.watermark capacity (omega (arith, leb→le capacity p.count h, v.counted)),
  )
  emplace_anywhere-full (x ∷ xs) v h =
      absurd (omega (arith, leb→le capacity p.count h, v.counted, v.bounded))
