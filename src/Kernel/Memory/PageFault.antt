-- ===== src/Kernel/Memory/PageFault.antt =====
-- kernel/memory.cc: page faults, writing into a space, and portals between spaces.
pub mod Mapped
pub mod Dispatch
use Prim.Native.Nat.{bit_and, bit_or}
use peos.Prelude.{
  ℕ, zero, suc, ◌+◌, ◌-◌, ◌*◌, ◌/◌, ◌%◌, ◌^◌, Bool, true, false, not, Option, none, some, List, min,
  length, ltb, leb, ◌==◌, if◌then◌else◌,
}
use peos.Prelude.Bits.{has}
use peos.Prelude.Fault
use peos.Support.Pool
use peos.Kernel.Memory.{Entry, present, pte_frame, pe_p}
use peos.Kernel.Memory.State.{
  AreaInfo, AreaType, linear_map, alloc, file, SpaceInfo, area_readwrite, Content, zeros, bytes,
  file_bytes, Mem, M, ◌>>=◌, ◌>>◌, pure, lift, assert, fault, get, modify, space, for_pages,
  max_pages, map_page, find_entry, page_flags, alloc_page, write,
}
use peos.Kernel.Memory.Areas.{find_area, mem_find_area}

-- `ALIGN_DOWN(address, 0x1000)`.
abbrev pub page_of_address : ℕ → ℕ
page_of_address address = address / 2 ^ 12 * 2 ^ 12

-- `flags & ~MEM_AREA_READWRITE` and `flags | MEM_AREA_READWRITE`.
abbrev pub readonly : ℕ → ℕ
readonly flags = bit_and flags 0xFFFE

abbrev pub readwrite : ℕ → ℕ
readwrite flags = bit_or flags area_readwrite

unfoldable pub page_fault_linear_map : AreaInfo → ℕ → M (Unit {0})
page_fault_linear_map area faulted_address = do
  m ← get
  s ← space m.current_space
  info ← lift (Pool.at s.linear_maps area.info_handle)
  let page_address = page_of_address faulted_address
  let area_offset = (page_address + (2 ^ 32 - area.start)) % 2 ^ 32
  map_page m.current_space page_address ((info.phys_start + area_offset) % 2 ^ 32)
      (page_flags area.flags)

-- The page is writable while the kernel fills it, and afterwards if the area is.
unfoldable pub fill_page : AreaInfo → ℕ → M (Unit {0}) → M (Unit {0})
fill_page area page_address fill = do
  m ← get
  phys_block ← alloc_page
  map_page m.current_space page_address phys_block (page_flags (readwrite area.flags))
  write page_address zeros
  fill
  if not (has area.flags area_readwrite)
      then map_page m.current_space page_address phys_block (page_flags (readonly area.flags))
      else pure tt

unfoldable pub page_fault_alloc : AreaInfo → ℕ → M (Unit {0})
page_fault_alloc area faulted_address = fill_page area (page_of_address faulted_address) (pure tt)

-- What a page fault does to the process that caused it.
pub data Outcome : Type 0 where
  killed resumed : Outcome

-- The file system: whether `vfs_seek` to an offset succeeds, and whether `vfs_read` of a number of bytes at
-- an offset does.
module _ (seek_ok : ℕ → ℕ → Bool) (read_ok : ℕ → ℕ → ℕ → Bool) where
  unfoldable pub read_page : AreaInfo → ℕ → M (Unit {0})
  read_page area page_address = do
    m ← get
    s ← space m.current_space
    info ← lift (Pool.at s.file_maps area.info_handle)
    let area_offset = (page_address + (2 ^ 32 - area.start)) % 2 ^ 32
    let file_offset = (area_offset + info.offset) % 2 ^ 32
    assert (seek_ok info.fd file_offset)
    let read_count = min ((info.offset + info.size + (2 ^ 32 - file_offset)) % 2 ^ 32) 0x1000
    assert (read_ok info.fd file_offset read_count)
    write page_address (file_bytes info.fd file_offset read_count)

  unfoldable pub page_fault_file : AreaInfo → ℕ → M (Unit {0})
  page_fault_file area faulted_address =
      let page_address = page_of_address faulted_address in
      fill_page area page_address (read_page area page_address)

  unfoldable pub handler : AreaType → AreaInfo → ℕ → M (Unit {0})
  handler linear_map = page_fault_linear_map
  handler alloc = page_fault_alloc
  handler file = page_fault_file

  -- `int_page_fault` with the address of `cr2`. The error code's lowest bit tells a protected page.
  unfoldable pub int_page_fault : ℕ → ℕ → M Outcome
  int_page_fault error_code faulted_address = if has error_code 1 then pure killed else (do
    m ← get
    area_handle ← mem_find_area m.current_space faulted_address
    s ← space m.current_space
    by_area s area_handle)
    where
      by_area : SpaceInfo → Option ℕ → M Outcome
      by_area s none = pure killed
      by_area s (some h) = do
        area ← lift (Pool.at s.areas h)
        handler area.type area faulted_address
        pure resumed

abbrev pub kernel_scratch_base : ℕ
kernel_scratch_base = 0xE0000000

abbrev pub assert_alloc : AreaType → M (Unit {0})
assert_alloc linear_map = fault
assert_alloc alloc = pure tt
assert_alloc file = fault

-- `assert(handle)` with what it holds.
abbrev pub held : Option ℕ → M ℕ
held h = lift h

unfoldable pub mem_write_page : ℕ → ℕ → List ℕ → M (Unit {0})
mem_write_page space_handle virt_addr data_ = do
  assert (virt_addr % 2 ^ 12 == 0)
  found ← mem_find_area space_handle virt_addr
  area_handle ← held found
  s ← space space_handle
  area ← lift (Pool.at s.areas area_handle)
  assert_alloc area.type
  old ← find_entry space_handle virt_addr
  pte ← ensured old area
  assert (leb (length data_) 0x1000)
  m ← get
  map_page m.current_space kernel_scratch_base (pte_frame pte) 0x1B
  write kernel_scratch_base (bytes data_)
  map_page m.current_space kernel_scratch_base 0 0
  where
    ensured : Option Entry → AreaInfo → M Entry
    ensured (some pte) area = pure pte
    ensured none area = do
      phys ← alloc_page
      map_page space_handle virt_addr phys (page_flags area.flags)
      pte ← find_entry space_handle virt_addr
      lift pte

-- One page of a portal: a present page is shared, another is made in both spaces.
unfoldable pub portal_page : ℕ → ℕ → ℕ → ℕ → ℕ → M (Unit {0})
portal_page virt dest_space dest_virt area_flags flags = do
  m ← get
  pte ← find_entry dest_space dest_virt
  by_entry m.current_space pte
  where
    by_entry : ℕ → Option Entry → M (Unit {0})
    by_entry current (some pte) = map_page current virt (pte_frame pte) (page_flags flags)
    by_entry current none = do
      phys_address ← alloc_page
      map_page current virt phys_address (page_flags flags)
      map_page dest_space dest_virt phys_address (page_flags area_flags)

unfoldable pub mem_map_portal : ℕ → ℕ → ℕ → ℕ → ℕ → M (Unit {0})
mem_map_portal virt_address length_ dest_space dest_virt_address flags = do
  start_area ← mem_find_area dest_space dest_virt_address
  end_area ← mem_find_area dest_space ((dest_virt_address + length_ + (2 ^ 32 - 1)) % 2 ^ 32)
  start_handle ← held start_area
  end_handle ← held end_area
  s ← space dest_space
  area ← lift (Pool.at s.areas start_handle)
  assert_alloc area.type
  assert (start_handle == end_handle)
  for_pages max_pages
      (λ offset.
        portal_page ((virt_address + offset) % 2 ^ 32) dest_space
          ((dest_virt_address + offset) % 2 ^ 32) area.flags flags)
      0 length_

unfoldable pub mem_unmap_portal : ℕ → ℕ → M (Unit {0})
mem_unmap_portal virt_address length_ =
    for_pages max_pages
      (λ offset. (do
        m ← get
        map_page m.current_space ((virt_address + offset) % 2 ^ 32) 0xDEAD0000 0))
      0 length_
