-- ===== src/Kernel/Memory/Layout.antt =====
-- kernel/memory.cc: the region for the pages of user space, and the segments of the kernel that every space
-- maps. The addresses that the linker and the boot loader give are parameters.
use Prim.Native.Nat.{bit_and}
use peos.Prelude.{
  ℕ, ◌+◌, ◌-◌, ◌*◌, ◌/◌, ◌%◌, ◌^◌, Bool, Option, none, some, List, [], ◌∷◌, ltb, leb, max, ◌==◌,
  if◌then◌else◌,
}
use peos.Support.PageAlloc.{Region}
use peos.Kernel.Memory.{kernel_virtual_base, phys2kernvirt, kernvirt2phys}
use peos.Kernel.Memory.State.{M, ◌>>=◌, ◌>>◌, pure, assert}
use peos.Kernel.Memory.Areas.{mem_map_linear_eager}

-- `ALIGN_UP` and `ALIGN_DOWN` to pages.
abbrev pub align_up : ℕ → ℕ
align_up address = (address + 0xFFF) % 2 ^ 32 / 0x1000 * 0x1000

abbrev pub align_down : ℕ → ℕ
align_down address = address / 0x1000 * 0x1000

-- A `multiboot_mmap_entry`; the address and the length have 64 bits.
pub record MmapEntry : Type 0 where
  pub addr : ℕ
  pub len : ℕ
  pub available : Bool

-- The loop over the memory map: the first of the longest entries that are available.
unfoldable pub largest_region : Region → List MmapEntry → Region
largest_region region [] = region
largest_region region (entry ∷ rest) =
    let this : Region = record {
      start = entry.addr % 2 ^ 32;
      end = (entry.addr + entry.len) % 2 ^ 32;
    } in
    let longer = ltb ((region.end + (2 ^ 32 - region.start)) % 2 ^ 32) entry.len in
    largest_region (if entry.available then (if longer then this else region) else region) rest

module _ (kernel_end multiboot_last_address : ℕ) where
  -- The part of it behind the kernel and the boot loader's data, in whole pages.
  unfoldable pub page_region : List MmapEntry → Region
  page_region mmap =
      let largest = largest_region (record { start = 0; end = 0 }) mmap in
      record {
        start = align_up (
            max (max largest.start (kernvirt2phys kernel_end))
              (kernvirt2phys multiboot_last_address));
        end = align_down largest.end;
      }

-- The start of a segment, and its flags; `none` is the -1 of a gap.
pub record Segment : Type 0 where
  pub virt_address : ℕ
  pub flags : Option ℕ

-- The loop of `mem_map_kernel`: each segment ends where the following one starts.
unfoldable pub map_segments : ℕ → ℕ → Option ℕ → List Segment → M (Unit {0})
map_segments space_handle current_address last_flags [] = pure tt
map_segments space_handle current_address last_flags (segment ∷ rest) =
    (if segment.virt_address == current_address then pure tt else map_previous last_flags)
    >> map_segments space_handle segment.virt_address segment.flags rest
  where
    map_previous : Option ℕ → M (Unit {0})
    map_previous none = pure tt
    map_previous (some flags) = do
      _ ←
          mem_map_linear_eager space_handle current_address segment.virt_address
            (kernvirt2phys current_address) flags
      assert (leb current_address segment.virt_address)

module _ (multiboot_last_address kernel_end start_readonly stop_readonly : ℕ)
    (bookkeeping : Region) where
  unfoldable pub segments : ℕ → List Segment
  segments flags =
      let end = max multiboot_last_address kernel_end in
      let data_ = bit_and flags 0xFFFD in
      record { virt_address = 0; flags = none }
      ∷ record { virt_address = kernel_virtual_base; flags = some data_ }
      ∷ record { virt_address = align_up start_readonly; flags = some (bit_and flags 0xFFFE) }
      ∷ record { virt_address = align_down stop_readonly; flags = some data_ }
      ∷ record { virt_address = align_up end; flags = none }
      ∷ record { virt_address = phys2kernvirt bookkeeping.start; flags = some data_ }
      ∷ record { virt_address = phys2kernvirt bookkeeping.end; flags = none }
      ∷ []

  unfoldable pub mem_map_kernel : ℕ → ℕ → M (Unit {0})
  mem_map_kernel space_handle flags = map_segments space_handle 0 (some 0) (segments flags)
