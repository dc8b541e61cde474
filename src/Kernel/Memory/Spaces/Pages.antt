-- ===== src/Kernel/Memory/Spaces/Pages.antt =====
-- The loops over the pages of a range end, after as many rounds as there are pages.
use peos.Prelude.{
  ℕ, zero, suc, ◌+◌, ◌-◌, ◌/◌, ◌%◌, ◌^◌, ◌≤◌, ◌<◌, ◌≡◌, refl, ap, List, [], ◌∷◌, arith, lt→ltb,
  le→ltb_false,
}
use peos.Kernel.Memory.State.{M, ◌>>◌, pure, for_pages, max_pages}

-- How many pages a range has, and their addresses.
abbrev pub page_count : ℕ → ℕ → ℕ
page_count start end = (end - start + 0xFFF) / 0x1000

abbrev pub pages : ℕ → ℕ → List ℕ
pages zero start = []
pages (suc n) start = start ∷ pages n (start + 0x1000)

-- An action on each address, in order.
abbrev pub each : (ℕ → M (Unit {0})) → List ℕ → M (Unit {0})
each body [] = pure tt
each body (p ∷ ps) = body p >> each body ps

rounds :
    (fuel n : ℕ) (body : ℕ → M (Unit {0})) (start end : ℕ)
    → n ≡ page_count start end
    → n ≤ fuel
    → start ≤ 2 ^ 32
    → end + 0xFFF < 2 ^ 32
    → for_pages fuel body start end ≡ each body (pages n start)
unfolding for_pages
rounds zero zero body start end e le lo hi = rw (le→ltb_false start end (omega arith)) refl
rounds zero (suc n) body start end e le lo hi = absurd (omega arith)
rounds (suc fuel) zero body start end e le lo hi = rw (le→ltb_false start end (omega arith)) refl
rounds (suc fuel) (suc n) body start end e le lo hi =
    let small : (start + 0x1000) % 2 ^ 32 ≡ start + 0x1000 = omega arith in
    rw (lt→ltb start end (omega arith), small)
      (ap (λ k. body start >> k)
        (rounds fuel n body (start + 0x1000) end (omega arith) (omega arith) (omega arith) hi))

-- A loop over a range that ends a page below the end of the address space visits each page once, in
-- order, and then ends: its rounds never run out.
pub for_pages-each :
    (body : ℕ → M (Unit {0})) (start end : ℕ)
    → start < 2 ^ 32
    → end + 0xFFF < 2 ^ 32
    → for_pages max_pages body start end ≡ each body (pages (page_count start end) start)
for_pages-each body start end lo hi =
    rounds max_pages (page_count start end) body start end refl (omega arith) (omega arith) hi
