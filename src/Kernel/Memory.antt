-- ===== src/Kernel/Memory.antt =====
-- kernel/memory_private.h, and the paging structures of kernel/memory.cc: directories and tables of
-- entries, the latter on pages of an allocator. An address is a 32-bit word. `none` is a failed assertion.
pub mod Translate
pub mod MapPage
pub mod State
pub mod Areas
pub mod Spaces
pub mod PageFault
pub mod Layout
mod Tests
use Prim.Native.Nat.{bit_and, bit_or}
use peos.Prelude.{
  ℕ, ◌+◌, ◌-◌, ◌*◌, ◌/◌, ◌%◌, ◌^◌, Bool, not, Option, none, some, ◌==◌, if◌then◌else◌,
}
use peos.Prelude.Array.{update}
use peos.Prelude.Bits.{has}
use peos.Prelude.Fault.{◌>>=◌, ◌>>◌, assert}
use peos.Support.PageAlloc.{PageAllocator, alloc_page}

-- `MEM_PE_P` and its likes.
abbrev pub pe_p : ℕ
pe_p = 0x0001

abbrev pub pe_rw : ℕ
pe_rw = 0x0002

abbrev pub pe_u : ℕ
pe_u = 0x0004

abbrev pub pe_d : ℕ
pe_d = 0x0010

abbrev pub pte_g : ℕ
pte_g = 0x0080

abbrev pub kernel_virtual_base : ℕ
kernel_virtual_base = 0xC0000000

-- `PHYS2KERNVIRT` and `KERNVIRT2PHYS`.
abbrev pub phys2kernvirt : ℕ → ℕ
phys2kernvirt value = (value + kernel_virtual_base) % 2 ^ 32

abbrev pub kernvirt2phys : ℕ → ℕ
kernvirt2phys value = (value + (2 ^ 32 - kernel_virtual_base)) % 2 ^ 32

-- A `page_dir_entry` or a `page_table_entry`: twelve bits of flags, and the upper twenty of an address.
pub record Entry : Type 0 where
  pub flags : ℕ
  pub frame : ℕ

abbrev pub zero_entry : Entry
zero_entry = record { flags = 0; frame = 0 }

abbrev pub present : Entry → Bool
present e = has e.flags pe_p

-- The directories and the tables, by the address of their page and the index in it.
pub record Paging : Type 0 where
  pub dirs : ℕ → ℕ → Entry
  pub tables : ℕ → ℕ → Entry
  pub page_table_allocator : PageAllocator

abbrev pub set_entry : (ℕ → ℕ → Entry) → ℕ → ℕ → Entry → ℕ → ℕ → Entry
set_entry pages page i e = update pages page (update (pages page) i e)

-- The table that an entry of a directory points to.
abbrev pub table_of : Entry → ℕ
table_of pde = phys2kernvirt (pde.frame * 2 ^ 12 % 2 ^ 32)

abbrev pub directory_idx : ℕ → ℕ
directory_idx virt = virt / 2 ^ 22

abbrev pub table_idx : ℕ → ℕ
table_idx virt = virt / 2 ^ 12 % 2 ^ 10

-- A pointer to an entry: the table, and the index.
abbrev pub Pte : Type 0
Pte = ℕ × ℕ

abbrev pub read_pte : Paging → Pte → Entry
read_pte pg pte = pg.tables pte.0 pte.1

pub find_pte : Paging → ℕ → ℕ → Option (Option Pte)
find_pte pg page_dir virtual_address =
    let pde = pg.dirs page_dir (directory_idx virtual_address) in
    if not (present pde) then some none else (do
      assert (not (table_of pde == 0))
      let pte : Pte = (table_of pde, table_idx virtual_address)
      some (if not (present (read_pte pg pte)) then none else some pte))

abbrev pub pte_frame : Entry → ℕ
pte_frame pte = pte.frame * 2 ^ 12 % 2 ^ 32

-- The flags of the directory's entry: those of the page without `MEM_PDE_S` and `MEM_PTE_D`.
abbrev pub pde_flags : ℕ → ℕ
pde_flags flags = bit_and flags 0xFF3F

-- The end of `map_page`, once there is a table.
pub write_pte : Paging → ℕ → ℕ → ℕ → ℕ → Paging
write_pte pg page_table virt phys flags = record pg {
  tables =
      set_entry pg.tables page_table (table_idx virt)
        (record { flags = flags % 2 ^ 12; frame = phys / 2 ^ 12 % 2 ^ 20 });
}

-- The branch for a directory's entry that is present: it takes the flags up.
pub map_in_table : Paging → ℕ → ℕ → ℕ → ℕ → Paging
map_in_table pg page_dir virt phys flags =
    let pde = pg.dirs page_dir (directory_idx virt) in
    let pde' : Entry = record pde { flags = bit_or pde.flags (pde_flags flags) % 2 ^ 12 } in
    write_pte (record pg { dirs = set_entry pg.dirs page_dir (directory_idx virt) pde' })
      (table_of pde) virt phys flags

-- `alloc_page_zero` of the allocator of tables.
pub alloc_table : Paging → Option (ℕ × Paging)
alloc_table pg = do
  (page_table, rest) ← alloc_page pg.page_table_allocator
  some (
    page_table,
    record pg {
      tables = update pg.tables page_table (λ _. zero_entry);
      page_table_allocator = rest;
    },
  )

-- The branch for one that is not: a new table.
pub map_in_new_table : Paging → ℕ → ℕ → ℕ → ℕ → Option Paging
map_in_new_table pg₀ page_dir virt phys flags = do
  (page_table, pg) ← alloc_table pg₀
  let pde : Entry = record {
    flags = pde_flags flags % 2 ^ 12;
    frame = kernvirt2phys page_table / 2 ^ 12 % 2 ^ 20;
  }
  some (
      write_pte (record pg { dirs = set_entry pg.dirs page_dir (directory_idx virt) pde })
        page_table virt phys flags)

-- `map_page` after it has looked the space's directory up. `invlpg` only concerns the processor's cache
-- of translations.
pub map_in : Paging → ℕ → ℕ → ℕ → ℕ → Option Paging
map_in pg page_dir virt phys flags = do
  assert (virt % 2 ^ 12 == 0)
  assert (phys % 2 ^ 12 == 0)
  if not (present (pg.dirs page_dir (directory_idx virt)))
      then (if not (has flags pe_p) then some pg else map_in_new_table pg page_dir virt phys flags)
      else some (map_in_table pg page_dir virt phys flags)
