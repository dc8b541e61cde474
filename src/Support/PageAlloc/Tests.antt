-- ===== src/Support/PageAlloc/Tests.antt =====
-- A region of sixteen pages, one of them for the stack; two are out, one of those is back.
use peos.Prelude.{ℕ, suc, ◌≡◌, ◌≢◌, refl, some, [], ◌∷◌, arith}
use peos.Support.PageAlloc.{PageAllocator, alloc_page, free_page, free_pages}
use peos.Support.PageAlloc.Pages.{IsValid, Used, Allocated, alloc_page-Allocated, free_page-Freed}

abbrev two_out : PageAllocator
two_out = record {
  phys_region = record { start = 0x10000; end = 0x20000 };
  phys_bookkeeping = record { start = 0x10000; end = 0x11000 };
  watermark = 0x13000;
  free_stack = 0x11000 ∷ [];
}

two_out-IsValid : IsValid two_out
two_out-IsValid = record {
  stack_in = (omega arith, omega arith, refl, tt);
  distinct = (refl, tt);
  aligned = refl;
  end_aligned = refl;
  above = omega arith;
  below = omega arith;
}

second-Used : Used two_out 0x12000
second-Used = record {
  page_aligned = refl;
  from_start = omega arith;
  to_watermark = omega arith;
  not_free = refl;
}

alloc_page-Allocated_example :
    (page : ℕ) × (a' : PageAllocator) × (alloc_page two_out ≡ some (page, a'))
    × Allocated two_out page a'
unfolding free_pages
alloc_page-Allocated_example =
    alloc_page-Allocated two_out two_out-IsValid (omega arith) (omega arith)

free_page-Freed_example :
    (a' : PageAllocator) × (free_page two_out 0x12000 ≡ some a')
    × IsValid a'
    × (¬ Used a' 0x12000)
    × ((other : ℕ) → other ≢ 0x12000 → Used two_out other → Used a' other)
    × (free_pages a' ≡ suc (free_pages two_out))
free_page-Freed_example = free_page-Freed two_out 0x12000 two_out-IsValid second-Used (omega arith)
