-- ===== src/Support/Pool/Erase.antt =====
-- `erase` empties one slot and leaves the others alone.
use peos.Prelude.{
  ℕ, suc, ◌+◌, ◌-◌, ◌≤◌, ◌<◌, ◌≡◌, ◌≢◌, refl, ap, sym, Bool, true, false, not, ◌&&◌, ◌||◌,
  ℕ_discrete, List, ◌∷◌, Option, none, some, arith, length, ltb, subst, ◌==◌, if◌then◌else◌, ==_iff,
  ==_comm, ne→==_false,
}
use peos.Support.Pool.{
  Pool, Node, end_sentinel, prepend_to_free_list, release, erase, valid, at, size,
}
use peos.Support.Pool.FreeList.{elem, elem-cons, Below, length-le, Below-pred, last}
use peos.Support.Pool.Inv.{Inv, valid_iff, at_lem, Linked-head}
use peos.Support.Pool.Prepend.{prepend_other, prepend_value, prepend-Linked, prepend-tail}

below_pred : (j i w : ℕ) → suc i ≡ w → ltb j (w - 1) ≡ (not (i == j) && ltb j w)
below_pred j i w e = ground arith

module _ {ℓ} {A : Type ℓ} where
  -- The two ways in which a slot loses its value: the watermark falls, or the list grows.
  without_last :
      (a b c : Bool) (x : Option A)
      → (if not a && b then (if c then none else x) else none)
        ≡ (if a then none else (if b then (if c then none else x) else none))
  without_last true b c x = refl
  without_last false b c x = refl

  without_listed :
      (a b c : Bool) (x : Option A)
      → (if b then (if a || c then none else x) else none)
        ≡ (if a then none else (if b then (if c then none else x) else none))
  without_listed true true c x = refl
  without_listed true false c x = refl
  without_listed false b c x = refl

-- The slots after one has been emptied.
abbrev pub Emptied {ℓ} : {A : Type ℓ} → Pool A → ℕ → Pool A → Type ℓ
Emptied p idx p' = (j : ℕ) → at p' j ≡ (if idx == j then none else at p j)

module _ {ℓ} {A : Type ℓ} (capacity : ℕ) (p : Pool A) (free : List ℕ) (v : Inv capacity p free)
    (idx : ℕ) (h : valid p idx ≡ true) where
  -- The slot is below the watermark, and not free.
  used : (idx < p.watermark) × (elem idx free ≡ false)
  used = (valid_iff capacity p free v idx).0 h

  -- So the count is not 0.
  counted_pos : suc (length free) ≤ p.watermark
  counted_pos = length-le p.watermark (idx ∷ free) (used.0, v.below) (used.1, v.distinct)

  abbrev lowered : Pool A
  lowered = record p { watermark = p.watermark - 1; count = p.count - 1 }

  lowered-Inv : suc idx ≡ p.watermark → Inv capacity lowered free
  lowered-Inv e = record {
    linked = v.linked;
    tail_last = v.tail_last;
    distinct = v.distinct;
    below =
        subst (λ w. Below w free) {x = idx} (omega (arith, e))
          (Below-pred p.watermark idx free e v.below used.1);
    bounded = omega (arith, v.bounded);
    indexed = v.indexed;
    counted = omega (arith, v.counted, counted_pos);
    taken = λ i lt out. v.taken i (omega arith) out;
  }

  -- The nodes and the tail are those of `prepend_to_free_list`.
  abbrev listed : Pool A
  listed = record p {
    nodes = (prepend_to_free_list p idx).nodes;
    free_list_head = idx;
    free_list_tail = (prepend_to_free_list p idx).free_list_tail;
    count = p.count - 1;
  }

  small : p.watermark ≤ end_sentinel
  small = omega (arith, v.bounded, v.indexed)

  apart : (idx ≢ p.free_list_head) × (idx ≢ last free)
  apart =
      Linked-head p.nodes end_sentinel p.free_list_head idx free v.linked
        (omega (arith, used.0, small)) used.1

  listed_taken :
      (i : ℕ)
      → i < p.watermark
      → elem i (idx ∷ free) ≡ false
      → ((listed.nodes i).next_free ≡ end_sentinel)
        × ((listed.nodes i).prev_free ≡ end_sentinel)
        × ((a : A) × ((listed.nodes i).value ≡ some a))
  listed_taken i lt out =
      let o = elem-cons i idx free out in
      let away =
        Linked-head p.nodes end_sentinel p.free_list_head i free v.linked (omega (arith, lt, small))
          o.1 in
      subst
        (λ (n : Node A).
          (n.next_free ≡ end_sentinel)
          × (n.prev_free ≡ end_sentinel)
          × ((a : A) × (n.value ≡ some a)))
        (sym (prepend_other p idx i o.0 away.0)) (v.taken i lt o.1)

  listed-Inv : Inv capacity listed (idx ∷ free)
  listed-Inv = record {
    linked =
        prepend-Linked p idx p.watermark free small v.below v.distinct used.1 apart.0
          (v.taken idx used.0 used.1).1 v.linked;
    tail_last = prepend-tail p idx p.watermark free small v.below v.tail_last;
    distinct = (used.1, v.distinct);
    below = (used.0, v.below);
    bounded = v.bounded;
    indexed = v.indexed;
    counted = omega (arith, v.counted, counted_pos);
    taken = λ i lt out. listed_taken i lt out;
  }

  release_last : suc idx ≡ p.watermark → release p idx ≡ lowered
  unfolding release
  release_last e = rw ((==_iff (idx + 1) p.watermark).1 (omega (arith, e)))

  release_inner : suc idx ≢ p.watermark → release p idx ≡ listed
  unfolding release prepend_to_free_list
  release_inner n = rw (ne→==_false (idx + 1) p.watermark (λ e. n (omega (arith, e))))

  lowered-Emptied : suc idx ≡ p.watermark → Emptied p idx lowered
  lowered-Emptied e j =
      rw
        (
          at_lem capacity lowered free (lowered-Inv e) j,
          at_lem capacity p free v j,
          below_pred j idx p.watermark e,
        )
        (without_last (idx == j) (ltb j p.watermark) (elem j free) (p.nodes j).value)

  listed-Emptied : Emptied p idx listed
  listed-Emptied j =
      rw
        (
          at_lem capacity listed (idx ∷ free) listed-Inv j,
          at_lem capacity p free v j,
          prepend_value p idx j,
          ==_comm j idx,
        )
        (without_listed (idx == j) (ltb j p.watermark) (elem j free) (p.nodes j).value)

  -- Erasing a valid slot succeeds. It empties that slot, leaves every other as it was, and keeps the
  -- invariant; the size falls by one.
  pub erase-Emptied :
      (p' : Pool A) × (free' : List ℕ) × (erase p idx ≡ some p')
      × Inv capacity p' free'
      × Emptied p idx p'
      × (suc (size p') ≡ size p)
  unfolding erase size
  erase-Emptied = elim (ℕ_discrete (suc idx) p.watermark) [
    | yes e ↦ (
      lowered,
      free,
      rw h (ap some (release_last e)),
      lowered-Inv e,
      lowered-Emptied e,
      omega (arith, v.counted, counted_pos),
    )
    | no n ↦ (
      listed,
      idx ∷ free,
      rw h (ap some (release_inner n)),
      listed-Inv,
      listed-Emptied,
      omega (arith, v.counted, counted_pos),
    )
  ]

module _ {ℓ} {A : Type ℓ} where
  -- An index without a value is refused.
  pub erase_invalid : (p : Pool A) (idx : ℕ) → valid p idx ≡ false → erase p idx ≡ none
  unfolding erase
  erase_invalid p idx h = rw h
