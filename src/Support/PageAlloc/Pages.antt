-- ===== src/Support/PageAlloc/Pages.antt =====
-- Pages are handed out once: what is allocated is inside the region, and is not free.
use peos.Prelude.{
  ℕ, suc, ◌+◌, ◌-◌, ◌%◌, ◌≤◌, ◌<◌, ◌≡◌, ◌≢◌, refl, ap, subst, sym, ◌∙◌, Bool, true, false, some,
  ltb, List, [], ◌∷◌, arith, length, lt→ltb, ==_iff, ne→==_false, ℕ_discrete,
}
use mathlib.Core.Option
use peos.Prelude.Fault.{◌>>◌, assert}
use peos.Support.Pool.FreeList.{elem, elem-cons, Distinct}
use peos.Support.PageAlloc.{
  PageAllocator, Region, page_size, stack_len, alloc_page, alloc_from, free_page, free_pages,
}

-- The pages of the stack are aligned, between the bounds.
abbrev pub Within : ℕ → ℕ → List ℕ → Type 0
Within lo hi [] = Unit {0}
Within lo hi (x ∷ xs) = (lo ≤ x) × (x + page_size ≤ hi) × (x % page_size ≡ 0) × Within lo hi xs

pub record IsValid (a : PageAllocator) : Type 0 where
  pub stack_in : Within a.phys_bookkeeping.end a.watermark a.free_stack
  pub distinct : Distinct a.free_stack
  pub aligned : a.watermark % page_size ≡ 0
  pub end_aligned : a.phys_region.end % page_size ≡ 0
  pub above : a.phys_bookkeeping.end ≤ a.watermark
  pub below : a.watermark ≤ a.phys_region.end

-- A page that is in use: aligned, handed out from the region, and not on the stack.
pub record Used (a : PageAllocator) (page : ℕ) : Type 0 where
  pub page_aligned : page % page_size ≡ 0
  pub from_start : a.phys_bookkeeping.end ≤ page
  pub to_watermark : page + page_size ≤ a.watermark
  pub not_free : elem page a.free_stack ≡ false

Within-mono : (lo hi hi' : ℕ) (xs : List ℕ) → hi ≤ hi' → Within lo hi xs → Within lo hi' xs
Within-mono lo hi hi' [] h w = tt
Within-mono lo hi hi' (x ∷ xs) h w = (w.0, omega (arith, w.1), w.2, Within-mono lo hi hi' xs h w.3)

above_all : (lo hi : ℕ) (xs : List ℕ) → Within lo hi xs → elem hi xs ≡ false
above_all lo hi [] w = refl
above_all lo hi (x ∷ xs) w = rw (ne→==_false hi x (omega (arith, w.1))) (above_all lo hi xs w.3)

-- Without the last page, the others end one page below.
Within-lower :
    (lo hi page : ℕ) (xs : List ℕ)
    → page + page_size ≡ hi
    → page % page_size ≡ 0
    → elem page xs ≡ false
    → Within lo hi xs
    → Within lo page xs
Within-lower lo hi page [] e al n w = tt
Within-lower lo hi page (x ∷ xs) e al n w =
    let apart = elem-cons page x xs n in
    (w.0, omega (arith, w.1, w.2, apart.0), w.2, Within-lower lo hi page xs e al apart.1 w.3)

-- What an allocation that succeeds has done.
abbrev pub Allocated : PageAllocator → ℕ → PageAllocator → Type 0
Allocated a page a' =
    IsValid a'
    × Used a' page
    × (¬ Used a page)
    × ((other : ℕ) → Used a other → Used a' other)
    × (suc (free_pages a') ≡ free_pages a)

popped :
    (r bk : Region) (w page : ℕ) (rest : List ℕ)
    → (let a : PageAllocator = record {
      phys_region = r;
      phys_bookkeeping = bk;
      watermark = w;
      free_stack = page ∷ rest;
    } in
        IsValid a → Allocated a page (record a { free_stack = rest }))
unfolding free_pages
popped r bk w page rest v = (
  record {
    stack_in = v.stack_in.3;
    distinct = v.distinct.1;
    aligned = v.aligned;
    end_aligned = v.end_aligned;
    above = v.above;
    below = v.below;
  },
  record {
    page_aligned = v.stack_in.2;
    from_start = v.stack_in.0;
    to_watermark = v.stack_in.1;
    not_free = v.distinct.0;
  },
  λ u. (elem-cons page page rest u.not_free).0 refl,
  λ other u. (record {
    page_aligned = u.page_aligned;
    from_start = u.from_start;
    to_watermark = u.to_watermark;
    not_free = (elem-cons other page rest u.not_free).1;
  }),
  omega arith,
)

raised :
    (a : PageAllocator)
    → IsValid a
    → a.free_stack ≡ []
    → a.watermark < a.phys_region.end
    → Allocated a a.watermark (record a { watermark = a.watermark + page_size })
unfolding free_pages
raised a v e h = (
  record {
    stack_in =
        Within-mono a.phys_bookkeeping.end a.watermark (a.watermark + page_size) a.free_stack
          (omega arith) v.stack_in;
    distinct = v.distinct;
    aligned = omega (arith, v.aligned);
    end_aligned = v.end_aligned;
    above = omega (arith, v.above);
    below = omega (arith, v.aligned, v.end_aligned);
  },
  record {
    page_aligned = v.aligned;
    from_start = v.above;
    to_watermark = omega arith;
    not_free = ap (elem a.watermark) e;
  },
  λ u. omega (arith, u.to_watermark),
  λ other u. (record {
    page_aligned = u.page_aligned;
    from_start = u.from_start;
    to_watermark = omega (arith, u.to_watermark);
    not_free = u.not_free;
  }),
  omega (arith, v.aligned, v.end_aligned),
)

-- While a page is left and the stack is not full, one is handed out: it was not in use, it is in use now,
-- every page that was in use still is, and one page less is free.
pub alloc_page-Allocated :
    (a : PageAllocator)
    → IsValid a
    → length a.free_stack < stack_len a
    → 0 < free_pages a
    → (page : ℕ) × (a' : PageAllocator) × (alloc_page a ≡ some (page, a')) × Allocated a page a'
unfolding alloc_page alloc_from free_pages
alloc_page-Allocated a v room left =
    by_stack a.phys_region a.phys_bookkeeping a.watermark a.free_stack v room left
  where
    by_stack :
        (r bk : Region) (w : ℕ) (stack : List ℕ)
        → (let a : PageAllocator = record {
          phys_region = r;
          phys_bookkeeping = bk;
          watermark = w;
          free_stack = stack;
        } in
            IsValid a
            → length stack < stack_len a
            → 0 < free_pages a
            → (page : ℕ) × (a' : PageAllocator) × (alloc_from stack a ≡ some (page, a'))
              × Allocated a page a')
    by_stack r bk w [] v room left =
        let a : PageAllocator = record {
          phys_region = r;
          phys_bookkeeping = bk;
          watermark = w;
          free_stack = [];
        } in
        (
          w,
          record a { watermark = w + page_size },
          rw (lt→ltb w r.end (omega (arith, v.below, left))) refl,
          raised a v refl (omega (arith, v.below, left)),
        )
    by_stack r bk w (page ∷ rest) v room left =
        let a : PageAllocator = record {
          phys_region = r;
          phys_bookkeeping = bk;
          watermark = w;
          free_stack = page ∷ rest;
        } in
        (
          page,
          record a { free_stack = rest },
          rw (lt→ltb (suc (length rest)) (stack_len a) room) refl,
          popped r bk w page rest v,
        )

-- A page in use is taken back while the stack is not full: it is in use no more, every other page in use
-- still is, and one page more is free.
pub free_page-Freed :
    (a : PageAllocator) (page : ℕ)
    → IsValid a
    → Used a page
    → length a.free_stack < stack_len a
    → (a' : PageAllocator) × (free_page a page ≡ some a')
      × IsValid a'
      × (¬ Used a' page)
      × ((other : ℕ) → other ≢ page → Used a other → Used a' other)
      × (free_pages a' ≡ suc (free_pages a))
unfolding free_page free_pages
free_page-Freed a page v u room = elim (ℕ_discrete (page + page_size) a.watermark) [
  | yes last ↦ (
    record a { watermark = a.watermark - page_size },
    rw
        (
          (==_iff (page % page_size) 0).1 u.page_aligned,
          (==_iff (page + page_size) a.watermark).1 last,
          lt→ltb a.phys_bookkeeping.end a.watermark (omega (arith, u.from_start)),
        )
        refl,
    record {
      stack_in =
          subst (λ t. Within a.phys_bookkeeping.end t a.free_stack) {x = page} (omega (arith, last))
            (Within-lower a.phys_bookkeeping.end a.watermark page a.free_stack last u.page_aligned
              u.not_free v.stack_in);
      distinct = v.distinct;
      aligned = omega (arith, v.aligned);
      end_aligned = v.end_aligned;
      above = omega (arith, u.from_start, last);
      below = omega (arith, v.below);
    },
    λ w. omega (arith, w.to_watermark, last),
    λ other ne w. (record {
      page_aligned = w.page_aligned;
      from_start = w.from_start;
      to_watermark = omega (arith, w.to_watermark, w.page_aligned, u.page_aligned, last, ne);
      not_free = w.not_free;
    }),
    omega (arith, v.aligned, v.end_aligned, v.below, last),
  )
  | no inner ↦ (
    record a { free_stack = page ∷ a.free_stack },
    rw
        (
          (==_iff (page % page_size) 0).1 u.page_aligned,
          ne→==_false (page + page_size) a.watermark inner,
          lt→ltb (length a.free_stack) (stack_len a) room,
        )
        refl,
    record {
      stack_in = (u.from_start, u.to_watermark, u.page_aligned, v.stack_in);
      distinct = (u.not_free, v.distinct);
      aligned = v.aligned;
      end_aligned = v.end_aligned;
      above = v.above;
      below = v.below;
    },
    λ w. (elem-cons page page a.free_stack w.not_free).0 refl,
    λ other ne w. (record {
      page_aligned = w.page_aligned;
      from_start = w.from_start;
      to_watermark = w.to_watermark;
      not_free = rw (ne→==_false other page ne) w.not_free;
    }),
    omega arith,
  )
]

-- The bounds of the region stay.
pub alloc_page-region :
    (a : PageAllocator) (page : ℕ) (a' : PageAllocator)
    → alloc_page a ≡ some (page, a')
    → (a'.phys_region ≡ a.phys_region) × (a'.phys_bookkeeping ≡ a.phys_bookkeeping)
unfolding alloc_page alloc_from
alloc_page-region a page a' e = by_stack a.free_stack e
  where
    by_room :
        (b : Bool) (x : ℕ) (left : PageAllocator)
        → left.phys_region ≡ a.phys_region
        → left.phys_bookkeeping ≡ a.phys_bookkeeping
        → ◌>>◌ {B = ℕ × PageAllocator} (assert b) (some (x, left)) ≡ some (page, a')
        → (a'.phys_region ≡ a.phys_region) × (a'.phys_bookkeeping ≡ a.phys_bookkeeping)
    by_room false x left r k e = cc
    by_room true x left r k e =
        let same : left ≡ a' = ap (λ o. (Option.get_or {A = ℕ × PageAllocator} o (x, left)).1) e in
        (ap (λ t. t.phys_region) (sym same) ∙ r, ap (λ t. t.phys_bookkeeping) (sym same) ∙ k)

    by_stack :
        (stack : List ℕ)
        → alloc_from stack a ≡ some (page, a')
        → (a'.phys_region ≡ a.phys_region) × (a'.phys_bookkeeping ≡ a.phys_bookkeeping)
    by_stack [] e =
        by_room (ltb a.watermark a.phys_region.end) a.watermark
          (record a { watermark = a.watermark + page_size }) refl refl e
    by_stack (x ∷ xs) e =
        by_room (ltb (length a.free_stack) (stack_len a)) x (record a { free_stack = xs }) refl refl
          e
