-- ===== src/Support/Pool/Unlink.antt =====
-- The head of the free list taken off, as `emplace` does it.
use peos.Prelude.{
  ℕ, ◌≤◌, ◌≡◌, ◌≢◌, ap, sym, not, List, [], ◌∷◌, arith, subst, ◌==◌, if◌then◌else◌, inl, inr,
  Bool-cases, ==_iff, ne→==_false,
}
use peos.Prelude.Array.{update}
use peos.Support.Pool.{Pool, Node, end_sentinel, unlink}
use peos.Support.Pool.FreeList.{Distinct, Below, Linked, Linked-prev}

module _ {ℓ} {A : Type ℓ} where
  -- The nodes after the first element has been unlinked.
  pub unlinked : (ℕ → Node A) → ℕ → ℕ → Node A
  unlinked nodes next =
      if not (next == end_sentinel)
      then update nodes next (record (nodes next) { prev_free = end_sentinel })
      else nodes

  unlinked-update :
      (nodes : ℕ → Node A) (next : ℕ)
      → next ≢ end_sentinel
      → unlinked nodes next ≡ update nodes next (record (nodes next) { prev_free = end_sentinel })
  unfolding unlinked
  unlinked-update nodes next h = rw (ne→==_false next end_sentinel h)

  pub unlinked_other :
      (nodes : ℕ → Node A) (next i : ℕ) → i ≢ next → unlinked nodes next i ≡ nodes i
  unfolding unlinked
  unlinked_other nodes next i h = elim (Bool-cases (next == end_sentinel)) [
    | inl e ↦ rw e
    | inr e ↦ rw (e, ne→==_false next i (λ n. h (sym n)))
  ]

  pub unlinked_value :
      (nodes : ℕ → Node A) (next i : ℕ) → (unlinked nodes next i).value ≡ (nodes i).value
  unfolding unlinked
  unlinked_value nodes next i = elim (Bool-cases (next == end_sentinel)) [
    | inl e ↦ rw e
    | inr e ↦ elim (Bool-cases (next == i)) [
      | inl s ↦ rw (e, s) (ap (λ j. (nodes j).value) ((==_iff next i).0 s))
      | inr s ↦ rw (e, s)
    ]
  ]

  pub unlinked-Linked :
      (nodes : ℕ → Node A) (x next w : ℕ) (xs : List ℕ)
      → w ≤ end_sentinel
      → Below w xs
      → Distinct xs
      → Linked nodes x next xs
      → Linked (unlinked nodes next) end_sentinel next xs
  unlinked-Linked nodes x next w [] hw b d l = l
  unlinked-Linked nodes x next w (y ∷ ys) hw b d l =
      subst (λ ns. Linked ns end_sentinel next (y ∷ ys))
        (sym (unlinked-update nodes next (omega (arith, l.0))))
        (subst
          (λ h.
            Linked (update nodes h (record (nodes h) { prev_free = end_sentinel })) end_sentinel
              next (y ∷ ys))
          (sym l.0) (Linked-prev nodes x end_sentinel next y ys d.0 l))

  pub unlink_head :
      (p : Pool A) (x : ℕ)
      → p.free_list_head ≡ x
      → (p.nodes x).prev_free ≡ end_sentinel
      → unlink p x ≡ record p {
        nodes = unlinked p.nodes (p.nodes x).next_free;
        free_list_head = (p.nodes x).next_free;
        free_list_tail = if p.free_list_tail == x then end_sentinel else p.free_list_tail;
      }
  unfolding unlink unlinked
  unlink_head p x h back = rw ((==_iff p.free_list_head x).1 h, back)
