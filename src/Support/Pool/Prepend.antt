-- ===== src/Support/Pool/Prepend.antt =====
-- `prepend_to_free_list`: one more index at the head of the free list.
use peos.Prelude.{
  ℕ, ◌≤◌, ◌≡◌, ◌≢◌, refl, ap, subst, sym, ◌∙◌, false, not, List, [], ◌∷◌, arith, ◌==◌,
  if◌then◌else◌, inl, inr, Bool-cases, ==_iff, ne→==_false,
}
use peos.Prelude.Array.{update, update_self, update_ne}
use peos.Support.Pool.{Pool, Node, end_sentinel, prepend_to_free_list}
use peos.Support.Pool.FreeList.{
  elem, Below, Distinct, last, Linked, Linked-update, Linked-prev, elem-Below, elem-last,
}

module _ {ℓ} {A : Type ℓ} where
  -- The nodes after the first of the two writes.
  marked : Pool A → ℕ → ℕ → Node A
  marked p idx =
      if not (p.free_list_head == end_sentinel)
      then update p.nodes p.free_list_head (record (p.nodes p.free_list_head) { prev_free = idx })
      else p.nodes

  marked-update :
      (p : Pool A) (idx : ℕ)
      → p.free_list_head ≢ end_sentinel
      → marked p idx
        ≡ update p.nodes p.free_list_head (record (p.nodes p.free_list_head) { prev_free = idx })
  unfolding marked
  marked-update p idx h = rw (ne→==_false p.free_list_head end_sentinel h)

  marked-Linked :
      (p : Pool A) (idx w : ℕ) (free : List ℕ)
      → w ≤ end_sentinel
      → Below w free
      → Distinct free
      → Linked p.nodes end_sentinel p.free_list_head free
      → Linked (marked p idx) idx p.free_list_head free
  marked-Linked p idx w [] hw b d l = l
  marked-Linked p idx w (x ∷ xs) hw b d l =
      subst (λ ns. Linked ns idx p.free_list_head (x ∷ xs))
        (sym (marked-update p idx (omega (arith, l.0))))
        (subst
          (λ h.
            Linked (update p.nodes h (record (p.nodes h) { prev_free = idx })) idx p.free_list_head
              (x ∷ xs))
          (sym l.0) (Linked-prev p.nodes end_sentinel idx p.free_list_head x xs d.0 l))

  marked_other : (p : Pool A) (idx i : ℕ) → i ≢ p.free_list_head → marked p idx i ≡ p.nodes i
  unfolding marked
  marked_other p idx i h = elim (Bool-cases (p.free_list_head == end_sentinel)) [
    | inl e ↦ rw e
    | inr e ↦ rw (e, ne→==_false p.free_list_head i (λ n. h (sym n)))
  ]

  marked_value : (p : Pool A) (idx i : ℕ) → (marked p idx i).value ≡ (p.nodes i).value
  unfolding marked
  marked_value p idx i = elim (Bool-cases (p.free_list_head == end_sentinel)) [
    | inl e ↦ rw e
    | inr e ↦ elim (Bool-cases (p.free_list_head == i)) [
      | inl s ↦ rw (e, s) (ap (λ j. (p.nodes j).value) ((==_iff p.free_list_head i).0 s))
      | inr s ↦ rw (e, s)
    ]
  ]

  prepend-nodes :
      (p : Pool A) (idx : ℕ)
      → (prepend_to_free_list p idx).nodes
        ≡ update (marked p idx) idx (record (marked p idx idx) { next_free = p.free_list_head })
  unfolding prepend_to_free_list marked
  prepend-nodes p idx = refl

  -- A node other than the two that are linked stays as it was.
  pub prepend_other :
      (p : Pool A) (idx i : ℕ)
      → i ≢ idx
      → i ≢ p.free_list_head
      → (prepend_to_free_list p idx).nodes i ≡ p.nodes i
  prepend_other p idx i ne nh =
      rw (prepend-nodes p idx)
        (update_ne (marked p idx) idx i _ (λ n. ne (sym n)) ∙ marked_other p idx i nh)

  pub prepend_value :
      (p : Pool A) (idx i : ℕ) → ((prepend_to_free_list p idx).nodes i).value ≡ (p.nodes i).value
  prepend_value p idx i = rw (prepend-nodes p idx) (elim (Bool-cases (idx == i)) [
    | inl e ↦ rw e (ap (λ j. (marked p idx j).value) ((==_iff idx i).0 e) ∙ marked_value p idx i)
    | inr e ↦ rw e (marked_value p idx i)
  ])

  pub prepend-Linked :
      (p : Pool A) (idx w : ℕ) (free : List ℕ)
      → w ≤ end_sentinel
      → Below w free
      → Distinct free
      → elem idx free ≡ false
      → idx ≢ p.free_list_head
      → (p.nodes idx).prev_free ≡ end_sentinel
      → Linked p.nodes end_sentinel p.free_list_head free
      → Linked (prepend_to_free_list p idx).nodes end_sentinel idx (idx ∷ free)
  prepend-Linked p idx w free hw b d e nh back l =
      subst (λ ns. Linked ns end_sentinel idx (idx ∷ free)) (sym (prepend-nodes p idx))
        (
          refl,
          ap (λ m. m.prev_free) same ∙ ap (λ m. m.prev_free) (marked_other p idx idx nh) ∙ back,
          subst (λ t. Linked (update (marked p idx) idx n) idx t free)
              (sym (ap (λ m. m.next_free) same))
              (Linked-update (marked p idx) idx p.free_list_head free idx n e
                (marked-Linked p idx w free hw b d l)),
        )
    where
      n : Node A
      n = record (marked p idx idx) { next_free = p.free_list_head }

      same : update (marked p idx) idx n idx ≡ n
      same = update_self (marked p idx) idx n

  pub prepend-tail :
      (p : Pool A) (idx w : ℕ) (free : List ℕ)
      → w ≤ end_sentinel
      → Below w free
      → p.free_list_tail ≡ last free
      → (prepend_to_free_list p idx).free_list_tail ≡ last (idx ∷ free)
  unfolding prepend_to_free_list
  prepend-tail p idx w [] hw b t = rw ((==_iff p.free_list_tail end_sentinel).1 t)
  prepend-tail p idx w (x ∷ xs) hw b t =
      rw
        (ne→==_false p.free_list_tail end_sentinel
          (λ n. omega (arith, n, t, elem-Below (last (x ∷ xs)) w (x ∷ xs) b (elem-last x xs))))
        t
