-- ===== src/Kernel/Memory/Spaces/Unmap.antt =====
-- Unmapping a page of an area, and making a space.
use mathlib.Core.Option
use peos.Prelude.{
  ℕ, ◌%◌, ◌^◌, ◌<◌, ◌≡◌, ◌≢◌, refl, ap, true, false, Option, none, some, List, arith, Bool-cases,
  inl, inr, ◌==◌, length, ne→==_false,
}
use peos.Support.PageAlloc.{PageAllocator, stack_len}
use peos.Support.PageAlloc.Pages.{IsValid, Used, free_page-Freed}
use peos.Kernel.Memory.{
  Entry, present, Paging, Pte, read_pte, table_of, directory_idx, table_idx, pte_frame, find_pte,
}
use peos.Kernel.Memory.Translate.{translate, IsSound, Remapped}
use peos.Kernel.Memory.MapPage.{map_in-Remapped}
use peos.Kernel.Memory.State.{
  AreaType, SpaceInfo, Mem, space, find_pointer, load_pte, find_entry, free_page,
}
use peos.Kernel.Memory.Spaces.{unmap_page, owns_frames}
use peos.Kernel.Memory.Areas.Mapped.{HasSpace}
use peos.Kernel.Memory.PageFault.Mapped.{map_page-lift}

-- In sound tables `find_pte` finds what the address is translated to.
find_pte-translate :
    (live : ℕ → Type 0) (pg : Paging) (d virt : ℕ)
    → IsSound live pg
    → live d
    → (pte : Option Pte) × (find_pte pg d virt ≡ some pte)
      × (Option.map (read_pte pg) pte ≡ translate pg d virt)
unfolding find_pte translate
find_pte-translate live pg d virt s here =
    elim (Bool-cases (present (pg.dirs d (directory_idx virt)))) [
      | inr n ↦ (none, rw n refl, rw n refl)
      | inl p ↦
          let table = table_of (pg.dirs d (directory_idx virt)) in
          let nonzero : (table == 0) ≡ false =
            ne→==_false table 0
              (omega (arith, s.low, (s.used d (directory_idx virt) here p).from_start)) in
          let pte : Pte = (table, table_idx virt) in
          elim (Bool-cases (present (read_pte pg pte))) [
            | inr n ↦ (none, rw (p, nonzero, n) refl, rw (p, n) refl)
            | inl q ↦ (some pte, rw (p, nonzero, q) refl, rw (p, q) refl)
          ]
    ]

find_entry-translate :
    (live : ℕ → Type 0) (m : Mem) (h : ℕ) (free : List ℕ) (s : SpaceInfo) (virt : ℕ)
    → HasSpace m h free s
    → IsSound live m.paging
    → live s.page_dir
    → find_entry h virt m ≡ some (translate m.paging s.page_dir virt, m)
unfolding find_entry find_pointer load_pte space
find_entry-translate live m h free s virt v sound here =
    let (pte, e, t) = find_pte-translate live m.paging s.page_dir virt sound here in
    by_pointer pte e t
  where
    by_pointer :
        (o : Option Pte)
        → find_pte m.paging s.page_dir virt ≡ some o
        → Option.map (read_pte m.paging) o ≡ translate m.paging s.page_dir virt
        → find_entry h virt m ≡ some (translate m.paging s.page_dir virt, m)
    by_pointer none e t = rw (v.found, e) (ap (λ (x : Option Entry). some (x, m)) t)
    by_pointer (some pte) e t = rw (v.found, e) (ap (λ (x : Option Entry). some (x, m)) t)

-- Only the page is without a translation now, and tables are shared as little as before.
abbrev pub Unmapped : (ℕ → Type 0) → Mem → SpaceInfo → ℕ → Mem → Type 0
Unmapped live m s virt m' =
    IsSound live m'.paging
    × Remapped live m.paging s.page_dir virt none m'.paging
    × (m'.spaces ≡ m.spaces)

-- Unmapping a page of an area, by what is there. A page that is not mapped stays so, and nothing changes. A
-- page of a linear map loses its translation and no frame is given back. A page of another area loses it
-- too, and its frame, which was in use, is free again, as the only one.
pub unmap_page-Unmapped :
    (live : ℕ → Type 0) (m : Mem) (h : ℕ) (free : List ℕ) (s : SpaceInfo) (type : AreaType)
    (virt : ℕ)
    → HasSpace m h free s
    → IsSound live m.paging
    → live s.page_dir
    → virt % 2 ^ 12 ≡ 0
    → (translate m.paging s.page_dir virt ≡ none → unmap_page h type virt m ≡ some (tt, m))
      × ((e : Entry)
          → translate m.paging s.page_dir virt ≡ some e
          → owns_frames type ≡ false
          → (m' : Mem) × (unmap_page h type virt m ≡ some (tt, m'))
            × Unmapped live m s virt m'
            × (m'.user_space_allocator ≡ m.user_space_allocator))
      × ((e : Entry) (a : PageAllocator)
          → translate m.paging s.page_dir virt ≡ some e
          → owns_frames type ≡ true
          → m.user_space_allocator ≡ some a
          → IsValid a
          → Used a (pte_frame e)
          → length a.free_stack < stack_len a
          → (m' : Mem) × (a' : PageAllocator) × (unmap_page h type virt m ≡ some (tt, m'))
            × Unmapped live m s virt m'
            × (m'.user_space_allocator ≡ some a')
            × (¬ Used a' (pte_frame e))
            × ((other : ℕ) → other ≢ pte_frame e → Used a other → Used a' other))
unfolding unmap_page free_page
unmap_page-Unmapped live m h free s type virt v sound here aligned =
    let found = find_entry-translate live m h free s virt v sound here in
    let (pg, e', sound', remapped) =
      map_in-Remapped live m.paging s.page_dir virt 0xDEAD000 0 sound here aligned refl
        (λ _ q. cc q) in
    (
      λ e. rw (found, e) refl,
      λ entry e o. (
        record m { paging = pg },
        rw (found, e, o) (map_page-lift m h free s virt 0xDEAD000 0 pg v e'),
        (sound', remapped, refl),
        refl,
      ),
      λ entry a e o user valid used room.
          let (a', f, _, freed, kept, _) = free_page-Freed a (pte_frame entry) valid used room in
          let m1 : Mem = record m { user_space_allocator = some a' } in
          let v1 : HasSpace m1 h free s = record { inv = v.inv; found = v.found } in
          (
            record m1 { paging = pg },
            a',
            rw (found, e, o, user, f) (map_page-lift m1 h free s virt 0xDEAD000 0 pg v1 e'),
            (sound', remapped, refl),
            refl,
            freed,
            kept,
          ),
    )
