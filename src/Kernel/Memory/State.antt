-- ===== src/Kernel/Memory/State.antt =====
-- kernel/memory_private.h, and the state of kernel/memory.cc: the address spaces with their areas, and the
-- operations on it that the others share. `none` is a failed assertion, an access outside a pool, or a
-- loop that does not end.
use Prim.Native.Nat.{bit_or}
use peos.Prelude.{
  ℕ, zero, suc, ◌+◌, ◌%◌, ◌^◌, Option, none, some, List, [], ◌∷◌, ◌++◌, ltb, if◌then◌else◌,
}
use peos.Prelude.Bits.{has}
use peos.Prelude.Fault
use peos.Prelude.Stateful.{Action}
pub use peos.Prelude.Stateful.{◌>>=◌, ◌>>◌, pure, lift, assert, fault, get, modify}
use peos.Support.Pool.{Pool}
use peos.Support.Pool
use peos.Support.PageAlloc.{PageAllocator}
use peos.Support.PageAlloc
use peos.Kernel.Memory.{
  Entry, Paging, Pte, read_pte, find_pte, map_in, pe_p, pe_rw, pe_u, pe_d, pte_g,
}
use peos.Kernel.Memory.Translate.{translate}

-- `AREA_LINEAR_MAP`, `AREA_ALLOC` and `AREA_FILE`.
pub data AreaType : Type 0 where
  linear_map alloc file : AreaType

pub record AreaInfo : Type 0 where
  pub start : ℕ
  pub end : ℕ
  pub type : AreaType
  pub flags : ℕ
  pub info_handle : ℕ

pub record LinearMapInfo : Type 0 where
  pub phys_start : ℕ

pub record FileMapInfo : Type 0 where
  pub fd : ℕ
  pub offset : ℕ
  pub size : ℕ

pub record SpaceInfo : Type 0 where
  pub page_dir : ℕ
  pub areas : Pool AreaInfo
  pub linear_maps : Pool LinearMapInfo
  pub file_maps : Pool FileMapInfo

-- The template arguments of the pools.
abbrev pub spaces_len : ℕ
spaces_len = 128

abbrev pub areas_len : ℕ
areas_len = 32

abbrev pub maps_len : ℕ
maps_len = 16

-- `MEM_AREA_READWRITE` and its likes.
abbrev pub area_readwrite : ℕ
area_readwrite = 0x0001

abbrev pub area_user : ℕ
area_user = 0x0004

abbrev pub area_cache_disabled : ℕ
area_cache_disabled = 0x0008

abbrev pub area_global : ℕ
area_global = 0x0010

abbrev pub area_no_fork : ℕ
area_no_fork = 0x0400

-- What is written to memory through a virtual address.
pub data Content : Type 0 where
  zeros : Content
  page_of : (source : Option Entry) → Content
  bytes : (data_ : List ℕ) → Content
  file_bytes : (fd offset count : ℕ) → Content

-- A write, and the entry that its address is translated to.
pub record Write : Type 0 where
  pub target : Option Entry
  pub content : Content

pub record Mem : Type 0 where
  pub paging : Paging
  pub page_dir_allocator : PageAllocator
  pub user_space_allocator : Option PageAllocator
  pub spaces : Pool SpaceInfo
  pub current_space : ℕ
  -- The newest last.
  pub writes : List Write

abbrev pub M : Type 0 → Type 0
M A = Action Mem A

-- `spaces[h]`, read and written.
unfoldable pub space : ℕ → M SpaceInfo
space h s = lift (Pool.at s.spaces h) s

unfoldable pub put_space : ℕ → SpaceInfo → M (Unit {0})
put_space h i s = Fault.◌>>=◌ (Pool.store_at s.spaces h i) (λ p. some (tt, record s { spaces = p }))

-- `for (p = start; p < end; p += 0x1000)` over 32-bit addresses. A loop that visits more than the
-- `2 ^ 20` pages there are never ends.
unfoldable pub for_pages : ℕ → (ℕ → M (Unit {0})) → ℕ → ℕ → M (Unit {0})
for_pages zero body page end = if ltb page end then fault else pure tt
for_pages (suc fuel) body page end =
    let rest = for_pages fuel body ((page + 0x1000) % 2 ^ 32) end in
    if ltb page end then (body page >> rest) else pure tt

abbrev pub max_pages : ℕ
max_pages = 2 ^ 20

unfoldable pub map_page : ℕ → ℕ → ℕ → ℕ → M (Unit {0})
map_page space_handle virt phys flags = do
  s ← space space_handle
  m ← get
  paging ← lift (map_in m.paging s.page_dir virt phys flags)
  modify (λ m. record m { paging = paging })

-- `find_pte` of a space, and what a pointer points to.
unfoldable pub find_pointer : ℕ → ℕ → M (Option Pte)
find_pointer space_handle virtual_address = do
  s ← space space_handle
  m ← get
  lift (find_pte m.paging s.page_dir virtual_address)

unfoldable pub load_pte : Pte → M Entry
load_pte pte = do m ← get; pure (read_pte m.paging pte)

-- The entry that `find_pte` points to.
unfoldable pub find_entry : ℕ → ℕ → M (Option Entry)
find_entry space_handle virtual_address = do
  pte ← find_pointer space_handle virtual_address
  loaded pte
  where
    loaded : Option Pte → M (Option Entry)
    loaded none = pure none
    loaded (some pte) = do entry ← load_pte pte; pure (some entry)

-- `MEM_AREA_*` to `MEM_PE_*`.
unfoldable pub page_flags : ℕ → ℕ
page_flags mem_flags =
    let writable = if has mem_flags area_readwrite then bit_or pe_p pe_rw else pe_p in
    let user = if has mem_flags area_user then bit_or writable pe_u else writable in
    let uncached = if has mem_flags area_cache_disabled then bit_or user pe_d else user in
    if has mem_flags area_global then bit_or uncached pte_g else uncached

unfoldable pub alloc_page : M ℕ
alloc_page = do
  m ← get
  allocator ← lift m.user_space_allocator
  (page, rest) ← lift (PageAlloc.alloc_page allocator)
  modify (λ m. record m { user_space_allocator = some rest })
  pure page

unfoldable pub free_page : ℕ → M (Unit {0})
free_page page = do
  m ← get
  allocator ← lift m.user_space_allocator
  rest ← lift (PageAlloc.free_page allocator page)
  modify (λ m. record m { user_space_allocator = some rest })

-- A write of memory at a virtual address: the processor takes the tables of the current space.
unfoldable pub write : ℕ → Content → M (Unit {0})
write virt content = do
  m ← get
  s ← space m.current_space
  modify (λ m. record m {
    writes =
        m.writes ++ record { target = translate m.paging s.page_dir virt; content = content } ∷ [];
  })
