-- ===== src/Kernel/Memory/Spaces.antt =====
-- kernel/memory.cc: making, taking apart and copying address spaces.
pub mod Pages
pub mod Unmap
use Prim.Native.Nat.{bit_and, bit_or}
use peos.Prelude.{
  ℕ, zero, suc, ◌+◌, ◌-◌, ◌*◌, ◌%◌, ◌^◌, Bool, true, false, not, Option, none, some, List, [], ◌∷◌,
  ltb, ◌==◌, if◌then◌else◌,
}
use peos.Prelude.Array.{update}
use peos.Prelude.Bits.{has}
use peos.Prelude.Fault
use peos.Support.Pool.{Pool, empty_pool}
use peos.Support.Pool
use peos.Support.PageAlloc
use peos.Kernel.Memory.{
  Entry, zero_entry, Pte, present, Paging, table_of, pte_frame, pe_p, pe_rw, pe_d, kernvirt2phys,
}
use peos.Kernel.Memory.Translate.{translate}
use peos.Kernel.Memory.State.{
  AreaInfo, AreaType, linear_map, alloc, file, LinearMapInfo, FileMapInfo, SpaceInfo, spaces_len,
  area_no_fork, page_of, Mem, M, ◌>>=◌, ◌>>◌, pure, lift, assert, get, modify, space, put_space,
  for_pages, max_pages, map_page, find_pointer, load_pte, find_entry, page_flags, alloc_page,
  free_page, write,
}
use peos.Kernel.Memory.Areas.{mem_map_linear, mem_map_alloc, mem_map_fd}

-- `space_info(page_dir)`.
abbrev pub space_info : ℕ → SpaceInfo
space_info page_dir = record {
  page_dir = page_dir;
  areas = empty_pool;
  linear_maps = empty_pool;
  file_maps = empty_pool;
}

unfoldable pub mem_create_space : M ℕ
mem_create_space = do
  m ← get
  (page_dir, rest) ← lift (PageAlloc.alloc_page m.page_dir_allocator)
  (h, spaces) ← lift (Pool.emplace_anywhere spaces_len m.spaces (space_info page_dir))
  modify (λ m. record m {
    page_dir_allocator = rest;
    paging = record m.paging { dirs = update m.paging.dirs page_dir (λ _. zero_entry) };
    spaces = spaces;
  })
  pure h

unfoldable pub mem_set_current_space : ℕ → M (Unit {0})
mem_set_current_space space_handle = modify (λ m. record m { current_space = space_handle })

unfoldable pub mem_page_dir : ℕ → M ℕ
mem_page_dir space_handle = do s ← space space_handle; pure (kernvirt2phys s.page_dir)

-- Whether the frames of an area are its own.
abbrev pub owns_frames : AreaType → Bool
owns_frames linear_map = false
owns_frames alloc = true
owns_frames file = true

-- One page of `unmap_area`.
unfoldable pub unmap_page : ℕ → AreaType → ℕ → M (Unit {0})
unmap_page space_handle type page_address = do
  pte ← find_entry space_handle page_address
  by_entry pte
  where
    by_entry : Option Entry → M (Unit {0})
    by_entry none = pure tt
    by_entry (some pte) =
        (if owns_frames type then free_page (pte_frame pte) else pure tt)
        >> map_page space_handle page_address 0xDEAD000 0

unfoldable pub unmap_area : ℕ → ℕ → M (Unit {0})
unmap_area space_handle area_handle = do
  s ← space space_handle
  area ← lift (Pool.at s.areas area_handle)
  for_pages max_pages (unmap_page space_handle area.type) area.start area.end
  s' ← space space_handle
  areas ← lift (Pool.erase s'.areas area_handle)
  put_space space_handle (record s' { areas = areas })

-- A loop over the indices below the watermark of the areas, which is read anew each time. It does not grow.
unfoldable pub for_areas : ℕ → ℕ → (ℕ → AreaInfo → M (Unit {0})) → ℕ → M (Unit {0})
for_areas zero space_handle body i = pure tt
for_areas (suc n) space_handle body i = do
  s ← space space_handle
  let rest = for_areas n space_handle body (suc i)
  if ltb i s.areas.watermark then (by_area (Pool.at s.areas i) >> rest) else pure tt
  where
    by_area : Option AreaInfo → M (Unit {0})
    by_area none = pure tt
    by_area (some area) = body i area

unfoldable pub mem_unmap_not_matching : ℕ → ℕ → M (Unit {0})
mem_unmap_not_matching space_handle flags = do
  s ← space space_handle
  for_areas s.areas.watermark space_handle
      (λ i area. if not (has area.flags flags) then unmap_area space_handle i else pure tt) 0

-- The page tables of a directory from index `i` on are given back.
unfoldable pub free_tables : ℕ → ℕ → ℕ → M (Unit {0})
free_tables zero page_dir i = pure tt
free_tables (suc n) page_dir i = do
  m ← get
  let rest = free_tables n page_dir (suc i)
  if not (present (m.paging.dirs page_dir i)) then rest else (do
    tables ←
        lift
          (PageAlloc.free_page m.paging.page_table_allocator (table_of (m.paging.dirs page_dir i)))
    modify (λ m. record m {
      paging = record m.paging {
        dirs = update m.paging.dirs page_dir (update (m.paging.dirs page_dir) i zero_entry);
        page_table_allocator = tables;
      };
    })
    rest)

unfoldable pub mem_destroy_space : ℕ → M (Unit {0})
mem_destroy_space space_handle = do
  m ← get
  assert (not (space_handle == m.current_space))
  s ← space space_handle
  for_areas s.areas.watermark space_handle (λ i area. unmap_area space_handle i) 0
  free_tables 1024 s.page_dir 0
  m' ← get
  dirs ← lift (PageAlloc.free_page m'.page_dir_allocator s.page_dir)
  spaces ← lift (Pool.erase m'.spaces space_handle)
  modify (λ m. record m { page_dir_allocator = dirs; spaces = spaces })

-- The pages that are mapped for a copy.
abbrev pub source_virt : ℕ
source_virt = 0xFFFE0000

abbrev pub dest_virt : ℕ
dest_virt = 0xFFFE1000

module _ (proc_space : ℕ) where
  -- `proc_space` is the space of the process that runs: `proc_get_space(*proc_current_pid())`.
  unfoldable pub copy_page_contents : ℕ → ℕ → M (Unit {0})
  copy_page_contents source_phys dest_phys = do
    assert (source_phys % 2 ^ 12 == 0)
    assert (dest_phys % 2 ^ 12 == 0)
    map_page proc_space source_virt source_phys 0x13
    map_page proc_space dest_virt dest_phys 0x13
    m ← get
    s ← space m.current_space
    write dest_virt (page_of (translate m.paging s.page_dir source_virt))
    map_page proc_space source_virt 0 0
    map_page proc_space dest_virt 0 0

  -- A present page of a linear map: the same frame.
  unfoldable pub copy_linear_page : ℕ → ℕ → ℕ → M (Unit {0})
  copy_linear_page source dest page_address = do pte ← find_entry source page_address; by_entry pte
    where
      by_entry : Option Entry → M (Unit {0})
      by_entry none = pure tt
      by_entry (some pte) = map_page dest page_address (pte_frame pte) pte.flags

  -- A present page of an allocated area: a frame of its own, with the same contents.
  unfoldable pub copy_alloc_page : ℕ → ℕ → ℕ → ℕ → M (Unit {0})
  copy_alloc_page source dest flags page_address = do
    pte ← find_pointer source page_address
    by_pointer pte
    where
      by_pointer : Option Pte → M (Unit {0})
      by_pointer none = pure tt
      by_pointer (some pte) = do
        phys_address ← alloc_page
        map_page dest page_address phys_address (page_flags flags)
        entry ← load_pte pte
        copy_page_contents (pte_frame entry) phys_address

  -- `source` is the handle of the space that the area belongs to.
  unfoldable pub copy_area : ℕ → AreaInfo → ℕ → M (Unit {0})
  copy_area source area dest = by_type area.type
    where
      by_type : AreaType → M (Unit {0})
      by_type linear_map = do
        s ← space source
        info ← lift (Pool.at s.linear_maps area.info_handle)
        _ ← mem_map_linear dest area.start area.end info.phys_start area.flags
        for_pages max_pages (copy_linear_page source dest) area.start area.end
      by_type file = do
        s ← space source
        info ← lift (Pool.at s.file_maps area.info_handle)
        _ ← mem_map_fd dest area.start area.end info.fd info.offset info.size area.flags
        pure tt
      by_type alloc = do
        _ ← mem_map_alloc dest area.start area.end area.flags
        for_pages max_pages (copy_alloc_page source dest area.flags) area.start area.end

  unfoldable pub copy_areas : ℕ → ℕ → List ℕ → M (Unit {0})
  copy_areas source dest [] = pure tt
  copy_areas source dest (i ∷ is) = do
    s ← space source
    area ← lift (Pool.at s.areas i)
    (if has area.flags area_no_fork then pure tt else copy_area source area dest)
    copy_areas source dest is

  unfoldable pub mem_fork_space : ℕ → M ℕ
  mem_fork_space space_handle = do
    s ← space space_handle
    new_space_handle ← mem_create_space
    copy_areas space_handle new_space_handle (Pool.indices s.areas)
    pure new_space_handle
