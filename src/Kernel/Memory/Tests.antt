-- ===== src/Kernel/Memory/Tests.antt =====
-- A space with one allocated area of four pages, and no page mapped.
use peos.Prelude.{
  ◌⊎◌, ℕ, ◌+◌, ◌<◌, ◌≡◌, ◌≢◌, ◌↔◌, refl, sym, ◌∙◌, Bool, true, false, none, some, [], ◌∷◌, arith,
  if◌then◌else◌, ◌==◌, Bool-cases, inl, inr, ==_iff,
}
use peos.Prelude.Bits.{has}
use peos.Support.Pool.{Pool, end_sentinel, fresh, empty_pool}
use peos.Support.Pool
use peos.Support.Pool.Inv.{Inv}
use peos.Support.PageAlloc.{PageAllocator, free_pages}
use peos.Support.PageAlloc.Pages.{IsValid, Used}
use peos.Kernel.Memory.{Entry, zero_entry, present, Paging, map_in}
use peos.Kernel.Memory.Translate.{translate, IsSound, Remapped, entry_of}
use peos.Kernel.Memory.MapPage.{HasRoom, map_in-Remapped}
use peos.Kernel.Memory.State.{
  AreaInfo, alloc, file, SpaceInfo, FileMapInfo, spaces_len, areas_len, maps_len, Mem, for_pages,
  max_pages, map_page,
}
use peos.Kernel.Memory.Areas.{
  overlaps, covers, find_area, mem_map_alloc, mem_map_linear, mem_map_linear_eager, mem_map_fd,
}
use peos.Kernel.Memory.Areas.Disjoint.{IsApart, Clear, find_area_iff}
use peos.Kernel.Memory.Areas.Mapped.{
  HasSpace, Added, mem_map_alloc-Added, mem_map_fd-Added, mapping-refused,
}
use peos.Kernel.Memory.PageFault.{int_page_fault, page_fault_alloc, killed, resumed}
use peos.Kernel.Memory.PageFault.Mapped
use peos.Kernel.Memory.PageFault.Mapped.{page_fault_alloc-Filled}
use peos.Kernel.Memory.PageFault.Dispatch.{int_page_fault-killed, int_page_fault-Filled}
use peos.Kernel.Memory.Spaces.{unmap_page}
use peos.Kernel.Memory.Spaces.Pages.{for_pages-each, each}
use peos.Kernel.Memory.Spaces.Unmap.{unmap_page-Unmapped, Unmapped}

abbrev allocator : ℕ → PageAllocator
allocator start = record {
  phys_region = record { start = start; end = start + 0x10000 };
  phys_bookkeeping = record { start = start; end = start + 0x1000 };
  watermark = start + 0x2000;
  free_stack = [];
}

allocator-IsValid : IsValid (allocator 0xC0200000)
allocator-IsValid = record {
  stack_in = tt;
  distinct = tt;
  aligned = refl;
  end_aligned = refl;
  above = omega arith;
  below = omega arith;
}

user-IsValid : IsValid (allocator 0x200000)
user-IsValid = record {
  stack_in = tt;
  distinct = tt;
  aligned = refl;
  end_aligned = refl;
  above = omega arith;
  below = omega arith;
}

abbrev the_dir : ℕ
the_dir = 0xC0100000

abbrev Live : ℕ → Type 0
Live d = d ≡ the_dir

abbrev no_pages : Paging
no_pages = record {
  dirs = λ _ _. zero_entry;
  tables = λ _ _. zero_entry;
  page_table_allocator = allocator 0xC0200000;
}

no_pages-IsSound : IsSound Live no_pages
no_pages-IsSound = record {
  alloc_valid = allocator-IsValid;
  low = omega arith;
  high = omega arith;
  used = λ d i l p. cc p;
  apart = λ d i d' i' l l' p p' e. cc p;
}

abbrev one {ℓ} : {A : Type ℓ} → A → Pool A
one a = record {
  nodes = λ _. fresh (some a);
  watermark = 1;
  free_list_head = end_sentinel;
  free_list_tail = end_sentinel;
  count = 1;
}

one-Inv {ℓ} :
    {A : Type ℓ} (capacity : ℕ) (a : A)
    → 1 < capacity
    → capacity < end_sentinel
    → Inv capacity (one a) []
one-Inv capacity a lo hi = record {
  linked = refl;
  tail_last = refl;
  distinct = tt;
  below = tt;
  bounded = omega arith;
  indexed = omega arith;
  counted = refl;
  taken = λ i lt _. (refl, refl, (a, refl));
}

abbrev heap : AreaInfo
heap = record { start = 0x1000; end = 0x5000; type = alloc; flags = 5; info_handle = 0 }

abbrev the_space : SpaceInfo
the_space = record {
  page_dir = the_dir;
  areas = one heap;
  linear_maps = empty_pool;
  file_maps = empty_pool;
}

at-one {ℓ} : {A : Type ℓ} (a b : A) (i : ℕ) → Pool.at (one a) i ≡ some b → i < 1
unfolding Pool.at Pool.valid
at-one a b i e = ground arith

the_space-IsApart : IsApart the_space []
the_space-IsApart = record {
  inv = one-Inv areas_len heap (omega arith) (omega arith);
  apart = λ i j a b ne e e'. absurd (ne (omega (arith, at-one heap a i e, at-one heap b j e')));
}

abbrev memory : Mem
memory = record {
  paging = no_pages;
  page_dir_allocator = allocator 0xC0400000;
  user_space_allocator = some (allocator 0x200000);
  spaces = one the_space;
  current_space = 0;
  writes = [];
}

the_space-found : Pool.at (one the_space) 0 ≡ some the_space
unfolding Pool.at Pool.valid
the_space-found = refl

memory-HasSpace : HasSpace memory 0 [] the_space
memory-HasSpace = record {
  inv = one-Inv spaces_len the_space (omega arith) (omega arith);
  found = the_space-found;
}

heap-found : Pool.at (one heap) 0 ≡ some heap
unfolding Pool.at Pool.valid
heap-found = refl

tables-HasRoom : HasRoom (allocator 0xC0200000)
unfolding free_pages
tables-HasRoom = (omega arith, omega arith)

user-HasRoom : HasRoom (allocator 0x200000)
unfolding free_pages
user-HasRoom = (omega arith, omega arith)

map_in-Remapped_example :
    (pg' : Paging) × (map_in no_pages the_dir 0x2000 0x300000 7 ≡ some pg')
    × IsSound Live pg'
    × Remapped Live no_pages the_dir 0x2000 (entry_of 0x300000 7) pg'
map_in-Remapped_example =
    map_in-Remapped Live no_pages the_dir 0x2000 0x300000 7 no_pages-IsSound refl refl refl
      (λ _ _. tables-HasRoom)

find_area_iff_example :
    (find_area the_space 0x2345 ≡ some 0)
    ↔ ((a : AreaInfo) × (Pool.at (one heap) 0 ≡ some a) × (covers 0x2345 a ≡ true))
find_area_iff_example = find_area_iff the_space [] 0x2345 0 the_space-IsApart

above-Clear : Clear the_space 0x8000 0x9000
unfolding overlaps Pool.at Pool.valid
above-Clear i a e = ground arith

mem_map_alloc-Added_example :
    Added 0 the_space
      (record { start = 0x8000; end = 0x9000; type = alloc; flags = 5; info_handle = 0 })
      []
      (mem_map_alloc 0 0x8000 0x9000 5)
      memory
unfolding Pool.size
mem_map_alloc-Added_example =
    mem_map_alloc-Added memory 0 [] [] the_space 0x8000 0x9000 5 memory-HasSpace the_space-IsApart
      above-Clear (omega arith)

empty-Inv : Inv {A = FileMapInfo} maps_len empty_pool []
empty-Inv = record {
  linked = refl;
  tail_last = refl;
  distinct = tt;
  below = tt;
  bounded = omega arith;
  indexed = omega arith;
  counted = refl;
  taken = λ i lt _. absurd (omega arith);
}

file-Added :
    (k : ℕ) × Added 0 the_space
      (record { start = 0x8000; end = 0x9000; type = file; flags = 5; info_handle = k })
      []
      (mem_map_fd 0 0x8000 0x9000 3 0 100 5)
      memory
unfolding Pool.size
file-Added =
    mem_map_fd-Added memory 0 [] [] [] the_space 0x8000 0x9000 3 0 100 5 memory-HasSpace
      the_space-IsApart above-Clear (omega arith) empty-Inv (omega arith) (omega arith)

mapping-refused_example :
    (mem_map_alloc 0 0x4000 0x6000 5 memory ≡ none)
    × (mem_map_linear 0 0x4000 0x6000 0 5 memory ≡ none)
    × (mem_map_linear_eager 0 0x4000 0x6000 0 5 memory ≡ none)
    × (mem_map_fd 0 0x4000 0x6000 3 0 100 5 memory ≡ none)
unfolding overlaps
mapping-refused_example =
    mapping-refused memory 0 [] [] the_space 0x4000 0x6000 0 heap memory-HasSpace the_space-IsApart
      heap-found refl 5 0 3 0 100

page_fault_alloc-Filled_example :
    (m' : Mem) × (page_fault_alloc heap 0x2345 memory ≡ some (tt, m'))
    × Mapped.Filled Live memory the_space heap 0x2345 m'
page_fault_alloc-Filled_example =
    page_fault_alloc-Filled Live memory [] the_space heap 0x2345 (allocator 0x200000)
      memory-HasSpace no_pages-IsSound refl tables-HasRoom refl user-IsValid user-HasRoom

abbrev always : ℕ → ℕ → Bool
always fd offset = true

abbrev all_read : ℕ → ℕ → ℕ → Bool
all_read fd offset count = true

nowhere_covers : (i : ℕ) (a : AreaInfo) → Pool.at (one heap) i ≡ some a → covers 0x6000 a ≡ false
unfolding covers Pool.at Pool.valid
nowhere_covers i a e = ground arith

outside_killed : int_page_fault always all_read 2 0x6000 memory ≡ some (killed, memory)
outside_killed =
    int_page_fault-killed always all_read memory [] [] the_space 2 0x6000 memory-HasSpace
      the_space-IsApart (inr nowhere_covers)

int_page_fault-Filled_example :
    ((has 2 1 ≡ true) × (int_page_fault always all_read 2 0x2345 memory ≡ some (killed, memory)))
    ⊎ ((has 2 1 ≡ false)
        × ((m' : Mem) × (int_page_fault always all_read 2 0x2345 memory ≡ some (resumed, m'))
            × Mapped.Filled Live memory the_space heap 0x2345 m'))
unfolding covers
int_page_fault-Filled_example =
    int_page_fault-Filled always all_read memory [] [] the_space 2 0x2345 memory-HasSpace
      the_space-IsApart Live 0 heap (allocator 0x200000) heap-found refl refl no_pages-IsSound refl
      tables-HasRoom refl user-IsValid user-HasRoom

for_pages-each_example :
    for_pages max_pages (λ page. map_page 0 page 0x300000 7) 0x1000 0x3001
    ≡ each (λ page. map_page 0 page 0x300000 7) (0x1000 ∷ 0x2000 ∷ 0x3000 ∷ [])
for_pages-each_example =
    for_pages-each (λ page. map_page 0 page 0x300000 7) 0x1000 0x3001 (omega arith) (omega arith)

-- The same space with the page at 0x2000 mapped.
abbrev the_entry : Entry
the_entry = record { flags = 7; frame = 0x201 }

abbrev one_page : Paging
one_page = record {
  dirs = λ _ i. if i == 0 then the_entry else zero_entry;
  tables = λ _ i. if i == 2 then the_entry else zero_entry;
  page_table_allocator = allocator 0xC0200000;
}

one_page-IsSound : IsSound Live one_page
one_page-IsSound = record {
  alloc_valid = allocator-IsValid;
  low = omega arith;
  high = omega arith;
  used = λ d i l p. elim (Bool-cases (i == 0)) [
    | inl e ↦ rw e (record {
      page_aligned = refl;
      from_start = omega arith;
      to_watermark = omega arith;
      not_free = refl;
    })
    | inr n ↦ cc (rw n at p)
  ];
  apart = λ d i d' i' l l' p p' e. (l ∙ sym l', first i p ∙ sym (first i' p'));
}
  where
    first : (i : ℕ) → present (if i == 0 then the_entry else zero_entry) ≡ true → i ≡ 0
    first i p = elim (Bool-cases (i == 0)) [ inl e ↦ (==_iff i 0).0 e | inr n ↦ cc (rw n at p) ]

abbrev mapped : Mem
mapped = record memory { paging = one_page }

mapped-HasSpace : HasSpace mapped 0 [] the_space
mapped-HasSpace = record { inv = memory-HasSpace.inv; found = memory-HasSpace.found }

unmap_page-Unmapped_example :
    (m' : Mem) × (a' : PageAllocator) × (unmap_page 0 alloc 0x2000 mapped ≡ some (tt, m'))
    × Unmapped Live mapped the_space 0x2000 m'
    × (m'.user_space_allocator ≡ some a')
    × (¬ Used a' 0x201000)
    × ((other : ℕ) → other ≢ 0x201000 → Used (allocator 0x200000) other → Used a' other)
unfolding translate
unmap_page-Unmapped_example =
    (unmap_page-Unmapped Live mapped 0 [] the_space alloc 0x2000 mapped-HasSpace one_page-IsSound
        refl refl).2
      the_entry (allocator 0x200000) refl refl refl user-IsValid
      (record {
        page_aligned = refl;
        from_start = omega arith;
        to_watermark = omega arith;
        not_free = refl;
      })
      (omega arith)
