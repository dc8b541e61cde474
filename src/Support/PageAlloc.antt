-- ===== src/Support/PageAlloc.antt =====
-- libraries/support/page_alloc.h: pages from a watermark, and a stack of freed ones.
-- The stack lies at the start of the region; here it is the list of its entries, the top first.
pub mod Pages
mod Tests
use peos.Prelude.{
  ℕ, ◌+◌, ◌-◌, ◌*◌, ◌/◌, ◌%◌, Bool, Option, none, some, List, [], ◌∷◌, length, ltb, ◌==◌,
  if◌then◌else◌,
}
use peos.Prelude.Fault.{◌>>=◌, ◌>>◌, assert}

pub record Region : Type 0 where
  pub start : ℕ
  pub end : ℕ

abbrev pub page_size : ℕ
page_size = 0x1000

pub record PageAllocator : Type 0 where
  pub phys_region : Region
  pub phys_bookkeeping : Region
  pub watermark : ℕ
  pub free_stack : List ℕ

-- How many entries the stack has room for: pointers of four bytes in the bookkeeping area.
abbrev pub stack_len : PageAllocator → ℕ
stack_len a = (a.phys_bookkeeping.end - a.phys_bookkeeping.start) / 4

abbrev pub bookkeeping_pages : Region → ℕ
bookkeeping_pages r = ((r.end - r.start) / page_size * 4 + 0x0FFF) / page_size

pub page_allocator : Region → Option PageAllocator
page_allocator r = do
  assert (r.start % page_size == 0)
  assert (r.end % page_size == 0)
  let bookkeeping_end = r.start + bookkeeping_pages r * page_size
  assert (ltb bookkeeping_end r.end)
  some (record {
    phys_region = r;
    phys_bookkeeping = record { start = r.start; end = bookkeeping_end };
    watermark = bookkeeping_end;
    free_stack = [];
  })

-- The assertions on the stack come before the pop: a stack that is full is refused.
alloc_from : List ℕ → PageAllocator → Option (ℕ × PageAllocator)
alloc_from (page ∷ rest) a = do
  assert (ltb (length a.free_stack) (stack_len a))
  some (page, record a { free_stack = rest })
alloc_from [] a = do
  assert (ltb a.watermark a.phys_region.end)
  some (a.watermark, record a { watermark = a.watermark + page_size })

pub alloc_page : PageAllocator → Option (ℕ × PageAllocator)
alloc_page a = alloc_from a.free_stack a

-- The address before the watermark wraps below 0 only if the watermark is 0, which is no allocator's.
pub free_page : PageAllocator → ℕ → Option PageAllocator
free_page a page = do
  assert (page % page_size == 0)
  if page + page_size == a.watermark
      then (do
        assert (ltb a.phys_bookkeeping.end a.watermark)
        some (record a { watermark = a.watermark - page_size }))
      else (do
        assert (ltb (length a.free_stack) (stack_len a))
        some (record a { free_stack = page ∷ a.free_stack }))

unfoldable pub free_pages : PageAllocator → ℕ
free_pages a = (a.phys_region.end - a.watermark) / page_size + length a.free_stack
