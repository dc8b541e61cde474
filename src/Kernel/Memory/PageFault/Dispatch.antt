-- ===== src/Kernel/Memory/PageFault/Dispatch.antt =====
-- int_page_fault: which faults kill the process, and what a fault in an allocated area comes to.

use peos.Prelude.{
  ◌⊎◌, ℕ, ◌≡◌, refl, sym, subst, Bool, true, false, none, some, List, Bool-cases, Option-cases, inl,
  inr,
}
use peos.Prelude.Bits.{has}
use peos.Support.Pool
use peos.Support.PageAlloc.{PageAllocator}
use peos.Support.PageAlloc.Pages.{IsValid}
use peos.Kernel.Memory.Translate.{IsSound}
use peos.Kernel.Memory.MapPage.{HasRoom}
use peos.Kernel.Memory.State.{AreaInfo, AreaType, alloc, SpaceInfo, Mem, space}
use peos.Kernel.Memory.Areas.{find_area, mem_find_area, covers}
use peos.Kernel.Memory.Areas.Disjoint.{IsApart, find_area_iff}
use peos.Kernel.Memory.Areas.Mapped.{HasSpace}
use peos.Kernel.Memory.PageFault.{page_fault_alloc, int_page_fault, handler, resumed, killed}
use peos.Kernel.Memory.PageFault.Mapped.{Filled, page_fault_alloc-Filled}

handler-alloc :
    (seek_ok : ℕ → ℕ → Bool) (read_ok : ℕ → ℕ → ℕ → Bool) (area : AreaInfo) (address : ℕ)
    (m m' : Mem) (t : AreaType)
    → t ≡ alloc
    → page_fault_alloc area address m ≡ some (tt, m')
    → handler seek_ok read_ok t area address m ≡ some (tt, m')
unfolding handler
handler-alloc seek_ok read_ok area address m m' t q e =
    subst (λ t. handler seek_ok read_ok t area address m ≡ some (tt, m')) {x = alloc} (sym q) e

module _ (seek_ok : ℕ → ℕ → Bool) (read_ok : ℕ → ℕ → ℕ → Bool) (m : Mem) (free afree : List ℕ)
    (s : SpaceInfo) (error_code address : ℕ) (v : HasSpace m m.current_space free s)
    (apart : IsApart s afree) where
  -- A fault on a protected page, or outside every area, kills the process and changes no memory.
  pub int_page_fault-killed :
      (has error_code 1 ≡ true)
        ⊎ ((i : ℕ) (a : AreaInfo) → Pool.at s.areas i ≡ some a → covers address a ≡ false)
      → int_page_fault seek_ok read_ok error_code address m ≡ some (killed, m)
  unfolding int_page_fault mem_find_area space
  int_page_fault-killed (inl p) = rw p refl
  int_page_fault-killed (inr none_covers) = elim (Bool-cases (has error_code 1)) [
    | inl p ↦ rw p refl
    | inr n ↦ rw (n, v.found, nowhere, v.found) refl
  ]
    where
      nowhere : find_area s address ≡ none
      nowhere = elim (Option-cases (find_area s address)) [
        | inl e ↦ e
        | inr (j, e) ↦
            let (a, at_j, c) = (find_area_iff s afree address j apart).0 e in
            cc (none_covers j a at_j, c)
      ]

  int_page_fault-handled :
      (i : ℕ) (a : AreaInfo) (m' : Mem)
      → has error_code 1 ≡ false
      → Pool.at s.areas i ≡ some a
      → covers address a ≡ true
      → handler seek_ok read_ok a.type a address m ≡ some (tt, m')
      → int_page_fault seek_ok read_ok error_code address m ≡ some (resumed, m')
  unfolding int_page_fault mem_find_area space
  int_page_fault-handled i a m' n e c h =
      rw (n, v.found, (find_area_iff s afree address i apart).1 (a, e, c), v.found, e, h) refl

  -- With sound tables and valid page allocators, a fault at an address of an allocated area of the
  -- process, of whose areas no two overlap, while pages can be had for the frame and for a table: on
  -- a protected page the process is killed and no memory changes; otherwise a page that was not in
  -- use is mapped there, present and writable just when the area is, filled with zeros while it was
  -- writable, every other page is translated as before, and the process goes on.
  pub int_page_fault-Filled :
      (live : ℕ → Type 0) (i : ℕ) (area : AreaInfo) (a : PageAllocator)
      → Pool.at s.areas i ≡ some area
      → covers address area ≡ true
      → area.type ≡ alloc
      → IsSound live m.paging
      → live s.page_dir
      → HasRoom m.paging.page_table_allocator
      → m.user_space_allocator ≡ some a
      → IsValid a
      → HasRoom a
      → ((has error_code 1 ≡ true)
          × (int_page_fault seek_ok read_ok error_code address m ≡ some (killed, m)))
        ⊎ ((has error_code 1 ≡ false)
            × ((m' : Mem) × (int_page_fault seek_ok read_ok error_code address m
                  ≡ some (resumed, m'))
                × Filled live m s area address m'))
  int_page_fault-Filled live i area a at_i here allocated sound dir tables user valid room =
      elim (Bool-cases (has error_code 1)) [
        | inl p ↦ inl (p, int_page_fault-killed (inl p))
        | inr n ↦
            let (m', e, filled) =
              page_fault_alloc-Filled live m free s area address a v sound dir tables user valid
                room in
            inr (
              n,
              (
                m',
                int_page_fault-handled i area m' n at_i here
                    (handler-alloc seek_ok read_ok area address m m' area.type allocated e),
                filled,
              ),
            )
      ]
