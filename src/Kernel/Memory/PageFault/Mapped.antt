-- ===== src/Kernel/Memory/PageFault/Mapped.antt =====
-- A page fault in an allocated area maps a fresh page of zeros there, and nothing else.
use Prim.Native.Nat.{bit_or}
use mathlib.Core.Option
use peos.Prelude.{
  ℕ, ◌/◌, ◌%◌, ◌^◌, ◌≡◌, refl, ap, sym, ◌∙◌, subst, Bool, true, false, ◌&&◌, Option, some, List, [],
  ◌∷◌, ◌++◌, arith, if◌then◌else◌, Bool-cases, inl, inr, ◌==◌, ==_iff,
}
use peos.Prelude.Bits.{has, bit_and-one, bit_and_low, bit_or_low}
use peos.Support.PageAlloc.{PageAllocator}
use peos.Support.PageAlloc
use peos.Support.PageAlloc.Pages.{IsValid, Used, Allocated, alloc_page-Allocated}
use peos.Kernel.Memory.{Entry, Paging, pe_p, pe_rw, map_in}
use peos.Kernel.Memory.Translate.{translate, IsSound, Remapped, entry_of}
use peos.Kernel.Memory.MapPage.{HasRoom, map_in-Remapped, translate-some}
use peos.Kernel.Memory.State.{
  AreaInfo, SpaceInfo, Write, zeros, area_readwrite, Mem, space, map_page, page_flags, alloc_page,
  write,
}
use peos.Kernel.Memory.Areas.Mapped.{HasSpace}
use peos.Kernel.Memory.PageFault.{page_of_address, readonly, readwrite, fill_page, page_fault_alloc}

-- The flags of a page are those of its area.
page_flags_lem :
    (flags : ℕ)
    → (has (page_flags flags) pe_p ≡ true)
      × (has (page_flags flags % 2 ^ 12) pe_rw ≡ has flags area_readwrite)
unfolding page_flags
page_flags_lem flags = by_bits (has flags 1) (has flags 4) (has flags 8) (has flags 16)
  where
    by_bits :
        (w u d g : Bool)
        → (let p =
              let writable = if w then bit_or 1 2 else 1 in
              let user = if u then bit_or writable 4 else writable in
              let uncached = if d then bit_or user 16 else user in
              if g then bit_or uncached 128 else uncached in
            (has p pe_p ≡ true) × (has (p % 2 ^ 12) pe_rw ≡ w))
    by_bits true true true true = (refl, refl)
    by_bits true true true false = (refl, refl)
    by_bits true true false true = (refl, refl)
    by_bits true true false false = (refl, refl)
    by_bits true false true true = (refl, refl)
    by_bits true false true false = (refl, refl)
    by_bits true false false true = (refl, refl)
    by_bits true false false false = (refl, refl)
    by_bits false true true true = (refl, refl)
    by_bits false true true false = (refl, refl)
    by_bits false true false true = (refl, refl)
    by_bits false true false false = (refl, refl)
    by_bits false false true true = (refl, refl)
    by_bits false false true false = (refl, refl)
    by_bits false false false true = (refl, refl)
    by_bits false false false false = (refl, refl)

has-readwrite : (flags : ℕ) → has (readwrite flags) area_readwrite ≡ true
has-readwrite flags = ground (arith, bit_or_low flags 1, bit_and-one (readwrite flags))

has-readonly : (flags : ℕ) → has (readonly flags) area_readwrite ≡ false
has-readonly flags = ground (arith, bit_and_low flags 0xFFFE, bit_and-one (readonly flags))

pub map_page-lift :
    (m : Mem) (h : ℕ) (free : List ℕ) (s : SpaceInfo) (virt phys flags : ℕ) (pg : Paging)
    → HasSpace m h free s
    → map_in m.paging s.page_dir virt phys flags ≡ some pg
    → map_page h virt phys flags m ≡ some (tt, record m { paging = pg })
unfolding map_page space
map_page-lift m h free s virt phys flags pg v e = rw (v.found, e) refl

-- Mapping a page twice leaves the second entry.
Remapped-twice :
    (live : ℕ → Type 0) (pg pg' pg'' : Paging) (d virt : ℕ) (e e' : Option Entry)
    → Remapped live pg d virt e pg'
    → Remapped live pg' d virt e' pg''
    → Remapped live pg d virt e' pg''
Remapped-twice live pg pg' pg'' d virt e e' r r' d' v l =
    r' d' v l ∙ by_page _ _ ((d == d') && (virt / 2 ^ 12 == v / 2 ^ 12)) (r d' v l)
  where
    by_page :
        (o p : Option Entry) (b : Bool)
        → o ≡ (if b then e else p)
        → (if b then e' else o) ≡ (if b then e' else p)
    by_page o p true q = refl
    by_page o p false q = q

Remapped-here :
    (live : ℕ → Type 0) (pg pg' : Paging) (d virt : ℕ) (e : Option Entry)
    → Remapped live pg d virt e pg'
    → live d
    → translate pg' d virt ≡ e
Remapped-here live pg pg' d virt e r l =
    r d virt l ∙ rw ((==_iff d d).1 refl, (==_iff (virt / 2 ^ 12) (virt / 2 ^ 12)).1 refl) refl

-- What a fresh page at an address of an area comes to.
pub record Filled (live : ℕ → Type 0) (m : Mem) (s : SpaceInfo) (area : AreaInfo) (address : ℕ)
    (m' : Mem) : Type 0 where
  pub frame : ℕ
  pub flags : ℕ
  pub left : PageAllocator
  pub sound : IsSound live m'.paging
  pub remapped :
      Remapped live m.paging s.page_dir (page_of_address address) (entry_of frame flags) m'.paging
  pub is_present : has flags pe_p ≡ true
  pub writable : has (flags % 2 ^ 12) pe_rw ≡ has area.flags area_readwrite
  pub user : m'.user_space_allocator ≡ some left
  pub used : Used left frame
  pub fresh : (before : PageAllocator) → m.user_space_allocator ≡ some before → ¬ Used before frame
  pub spaces : m'.spaces ≡ m.spaces
  pub zeroed :
      m'.writes
      ≡ m.writes
        ++ record { target = entry_of frame (page_flags (readwrite area.flags)); content = zeros }
          ∷ []

page_address-aligned : (address : ℕ) → page_of_address address % 2 ^ 12 ≡ 0
page_address-aligned address = omega arith

-- In the current space a fault handler for an allocated area takes a page that was not in use, maps
-- it at the page of the address, present, and writable if the area is, and fills it with zeros while
-- it is writable. Every other page of every space is translated as before.
pub page_fault_alloc-Filled :
    (live : ℕ → Type 0) (m : Mem) (free : List ℕ) (s : SpaceInfo) (area : AreaInfo) (address : ℕ)
    (a : PageAllocator)
    → HasSpace m m.current_space free s
    → IsSound live m.paging
    → live s.page_dir
    → HasRoom m.paging.page_table_allocator
    → m.user_space_allocator ≡ some a
    → IsValid a
    → HasRoom a
    → (m' : Mem) × (page_fault_alloc area address m ≡ some (tt, m'))
      × Filled live m s area address m'
unfolding page_fault_alloc fill_page alloc_page write space
page_fault_alloc-Filled live m free s area address a v sound here tables user valid room =
    let page = page_of_address address in
    let (frame, left, got, allocated) =
      PageAlloc.Pages.alloc_page-Allocated a valid room.0 room.1 in
    let m1 : Mem = record m { user_space_allocator = some left } in
    let v1 : HasSpace m1 m.current_space free s = record { inv = v.inv; found = v.found } in
    let flags = page_flags (readwrite area.flags) in
    let (pg, e, sound', remapped) =
      map_in-Remapped live m.paging s.page_dir page frame flags sound here
        (page_address-aligned address) allocated.1.page_aligned (λ _ _. tables) in
    let mapped = map_page-lift m1 m.current_space free s page frame flags pg v1 e in
    let w : Write = record { target = translate pg s.page_dir page; content = zeros } in
    let m3 : Mem = record m1 { paging = pg; writes = m.writes ++ w ∷ [] } in
    let target =
      Remapped-here live m.paging pg s.page_dir page (entry_of frame flags) remapped here in
    elim (Bool-cases (has area.flags area_readwrite)) [
      | inl t ↦ (
        m3,
        rw (user, got, mapped, v.found, t) refl,
        record {
          frame = frame;
          flags = flags;
          left = left;
          sound = sound';
          remapped = remapped;
          is_present = (page_flags_lem (readwrite area.flags)).0;
          writable = (page_flags_lem (readwrite area.flags)).1 ∙ has-readwrite area.flags ∙ sym t;
          user = refl;
          used = allocated.1;
          fresh = λ before q u. allocated.2 (
              subst (λ x. Used x frame)
                (ap (λ o. Option.get_or {A = PageAllocator} o a) (sym q ∙ user)) u);
          spaces = refl;
          zeroed = ap (λ x. m.writes ++ record { target = x; content = zeros } ∷ []) target;
        },
      )
      | inr n ↦
          let there =
            translate-some pg s.page_dir page
              (record { flags = flags % 2 ^ 12; frame = frame / 2 ^ 12 % 2 ^ 20 })
              (target ∙ rw (page_flags_lem (readwrite area.flags)).0 refl) in
          let v3 : HasSpace m3 m.current_space free s = record { inv = v.inv; found = v.found } in
          let (pg', e', sound'', remapped') =
            map_in-Remapped live pg s.page_dir page frame (page_flags (readonly area.flags)) sound'
              here (page_address-aligned address) allocated.1.page_aligned (λ q _. cc (q, there)) in
          (
            record m3 { paging = pg' },
            rw (user, got, mapped, v.found, n)
                (map_page-lift m3 m.current_space free s page frame
                  (page_flags (readonly area.flags)) pg' v3 e'),
            record {
              frame = frame;
              flags = page_flags (readonly area.flags);
              left = left;
              sound = sound'';
              remapped = Remapped-twice live m.paging pg pg' s.page_dir page _ _ remapped remapped';
              is_present = (page_flags_lem (readonly area.flags)).0;
              writable = (page_flags_lem (readonly area.flags)).1 ∙ has-readonly area.flags ∙ sym n;
              user = refl;
              used = allocated.1;
              fresh = λ before q u. allocated.2 (
                  subst (λ x. Used x frame)
                    (ap (λ o. Option.get_or {A = PageAllocator} o a) (sym q ∙ user)) u);
              spaces = refl;
              zeroed = ap (λ x. m.writes ++ record { target = x; content = zeros } ∷ []) target;
            },
          )
    ]
