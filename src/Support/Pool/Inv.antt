-- ===== src/Support/Pool/Inv.antt =====
-- The invariant of a pool, and what `valid` and `at` mean under it.
use peos.Prelude.{
  ℕ, ◌+◌, ◌≤◌, ◌<◌, ◌≡◌, ◌≢◌, ◌↔◌, refl, ap, sym, ◌∙◌, Bool, true, false, List, [], ◌∷◌, none, some,
  arith, length, ltb, ◌==◌, if◌then◌else◌, inl, inr, ◌⊎◌, Bool-cases, ==_iff, le→leb, lt→leb_false,
  ne→==_false, dec_lt, lt→ltb, le→ltb_false,
}
use peos.Support.Pool.{Pool, Node, end_sentinel, clear, valid, at, size, full}
use peos.Support.Pool.FreeList.{elem, elem-cons, Distinct, Below, last, Linked, elem-last}

module _ {ℓ} {A : Type ℓ} (capacity : ℕ) where
  -- The links visit `free`, which are the slots below the watermark without a value.
  pub record Inv (p : Pool A) (free : List ℕ) : Type ℓ where
    pub linked : Linked p.nodes end_sentinel p.free_list_head free
    pub tail_last : p.free_list_tail ≡ last free
    pub distinct : Distinct free
    pub below : Below p.watermark free
    pub bounded : p.watermark ≤ capacity
    pub indexed : capacity ≤ end_sentinel
    pub counted : p.count + length free ≡ p.watermark
    pub taken :
        (i : ℕ)
        → i < p.watermark
        → elem i free ≡ false
        → ((p.nodes i).next_free ≡ end_sentinel)
          × ((p.nodes i).prev_free ≡ end_sentinel)
          × ((a : A) × ((p.nodes i).value ≡ some a))

  pub clear-Inv : (p : Pool A) → capacity ≤ end_sentinel → Inv (clear p) []
  unfolding clear
  clear-Inv p h = record {
    linked = refl;
    tail_last = refl;
    distinct = tt;
    below = tt;
    bounded = omega arith;
    indexed = h;
    counted = omega arith;
    taken = λ i lt _. absurd (omega arith);
  }

pub not_true : (b : Bool) → ¬ (b ≡ true) → b ≡ false
not_true true h = absurd (h refl)
not_true false h = refl

module _ {ℓ} {A : Type ℓ} where
  pub valid_above : (p : Pool A) (i : ℕ) → p.watermark ≤ i → valid p i ≡ false
  unfolding valid
  valid_above p i h = rw (le→leb p.watermark i h)

  valid_taken :
      (p : Pool A) (i : ℕ)
      → i < p.watermark
      → (p.nodes i).next_free ≡ end_sentinel
      → i ≢ p.free_list_head
      → i ≢ p.free_list_tail
      → valid p i ≡ true
  unfolding valid
  valid_taken p i h e nh nt = rw (
    lt→leb_false p.watermark i h,
    (==_iff (p.nodes i).next_free end_sentinel).1 e,
    ne→==_false i p.free_list_head nh,
    ne→==_false i p.free_list_tail nt,
  )

  valid_free :
      (p : Pool A) (i : ℕ)
      → ((p.nodes i).next_free ≢ end_sentinel) ⊎ (i ≡ p.free_list_tail)
      → valid p i ≡ false
  unfolding valid
  valid_free p i h = ground arith

  -- A listed node has a successor in the list, or is the last one.
  Linked-next :
      (nodes : ℕ → Node A) (prev head w : ℕ) (i : ℕ) (xs : List ℕ)
      → w ≤ end_sentinel
      → Below w xs
      → Linked nodes prev head xs
      → elem i xs ≡ true
      → ((nodes i).next_free ≢ end_sentinel) ⊎ (i ≡ last xs)
  Linked-next nodes prev head w i [] hw b l e = cc
  Linked-next nodes prev head w i (x ∷ []) hw b l e = inr (ground arith)
  Linked-next nodes prev head w i (x ∷ y ∷ ys) hw b l e = elim (Bool-cases (i == x)) [
    | inl here ↦
        let same = (==_iff i x).0 here in
        inl (λ n. omega (arith, ap (λ t. (nodes t).next_free) same, l.2.0, b.1.0))
    | inr there ↦ Linked-next nodes x (nodes x).next_free w i (y ∷ ys) hw b.1 l.2 (rw there at e)
  ]

  pub Linked-head :
      (nodes : ℕ → Node A) (prev head : ℕ) (i : ℕ) (xs : List ℕ)
      → Linked nodes prev head xs
      → i < end_sentinel
      → elem i xs ≡ false
      → (i ≢ head) × (i ≢ last xs)
  Linked-head nodes prev head i [] l h e = (omega arith, omega arith)
  Linked-head nodes prev head i (x ∷ xs) l h e = (
    λ n. (elem-cons i x xs e).0 (n ∙ l.0),
    λ n. cc (e, ap (λ t. elem t (x ∷ xs)) n, elem-last x xs),
  )

pub room_left {ℓ} :
    {A : Type ℓ} (capacity : ℕ) (p : Pool A) → size p < capacity → full capacity p ≡ false
unfolding size full
room_left capacity p h = lt→leb_false capacity p.count h

module _ {ℓ} {A : Type ℓ} (capacity : ℕ) (p : Pool A) (free : List ℕ)
    (v : Inv capacity p free) where
  -- `valid` tells the slots below the watermark that are not in the free list.
  pub valid_iff : (i : ℕ) → (valid p i ≡ true) ↔ ((i < p.watermark) × (elem i free ≡ false))
  valid_iff i = (forth, λ h. valid_below i h.0 h.1)
    where
      valid_below : (j : ℕ) → j < p.watermark → elem j free ≡ false → valid p j ≡ true
      valid_below j h e =
          let apart =
            Linked-head p.nodes end_sentinel p.free_list_head j free v.linked
              (omega (arith, v.bounded, v.indexed)) e in
          valid_taken p j h (v.taken j h e).0 apart.0 (λ n. apart.1 (n ∙ v.tail_last))

      forth : valid p i ≡ true → (i < p.watermark) × (elem i free ≡ false)
      forth h = elim (dec_lt i p.watermark) [
        | no out ↦ cc (h, valid_above p i (omega arith))
        | yes below ↦ elim (Bool-cases (elem i free)) [
          | inr e ↦ (below, e)
          | inl e ↦
              let next =
                Linked-next p.nodes end_sentinel p.free_list_head p.watermark i free
                  (omega (arith, v.bounded, v.indexed)) v.below v.linked e in
              cc (
                h,
                valid_free p i (elim next [ inl n ↦ inl n | inr n ↦ inr (n ∙ sym v.tail_last) ]),
              )
        ]
      ]

  pub at-valid : (i : ℕ) → valid p i ≡ true → at p i ≡ (p.nodes i).value
  unfolding at
  at-valid i h = rw h

  -- A valid slot holds a value.
  pub at-some : (i : ℕ) → valid p i ≡ true → (a : A) × (at p i ≡ some a)
  at-some i h =
      let t = (v.taken i ((valid_iff i).0 h).0 ((valid_iff i).0 h).1).2 in (t.0, at-valid i h ∙ t.1)

  pub at-none : (i : ℕ) → valid p i ≡ false → at p i ≡ none
  unfolding at
  at-none i h = rw h

  -- Only a valid slot gives a value.
  pub valid_at : (i : ℕ) (a : A) → at p i ≡ some a → valid p i ≡ true
  valid_at i a e = elim (Bool-cases (valid p i)) [ inl t ↦ t | inr n ↦ cc (e, at-none i n) ]

  -- `at`, read off the free list.
  pub at_lem :
      (j : ℕ)
      → at p j
        ≡ (if ltb j p.watermark then (if elem j free then none else (p.nodes j).value) else none)
  at_lem j = elim (dec_lt j p.watermark) [
    | no out ↦
        at-none j (valid_above p j (omega arith)) ∙ rw (le→ltb_false j p.watermark (omega arith))
    | yes below ↦ elim (Bool-cases (elem j free)) [
      | inl e ↦
          at-none j (not_true (valid p j) (λ h. cc (e, ((valid_iff j).0 h).1)))
          ∙ rw (lt→ltb j p.watermark below, e)
      | inr e ↦ at-valid j ((valid_iff j).1 (below, e)) ∙ rw (lt→ltb j p.watermark below, e)
    ]
  ]
