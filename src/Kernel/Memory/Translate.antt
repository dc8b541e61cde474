-- ===== src/Kernel/Memory/Translate.antt =====
-- What an address is translated to, and that `map_page` changes the translation of one page of one space.
use Prim.Native.Nat.{bit_or}
use peos.Prelude.{
  ℕ, ◌*◌, ◌/◌, ◌%◌, ◌^◌, ◌≤◌, ◌<◌, ◌≡◌, refl, ap, ap₂, sym, ◌∙◌, subst, Bool, true, ◌&&◌, Option,
  none, some, inl, inr, arith, ◌==◌, if◌then◌else◌, Bool-cases, ==_iff, ne→==_false,
}
use peos.Prelude.Bits.{has, bit_and-one, bit_or_low}
use peos.Support.PageAlloc.Pages.{IsValid, Used}
use peos.Kernel.Memory.{
  Entry, present, Paging, set_entry, table_of, directory_idx, table_idx, pe_p, pde_flags, write_pte,
  map_in_table, phys2kernvirt, kernel_virtual_base,
}

-- The entry that a directory's entry leads to. Of the directory's entry only its presence and its table
-- count; the permissions that it has for the whole table are not part of the translation.
abbrev pub via : (ℕ → ℕ → Entry) → Entry → ℕ → Option Entry
via tables pde tbl_idx =
    let pte = tables (table_of pde) tbl_idx in
    if present pde then (if present pte then some pte else none) else none

abbrev pub translate_at : Paging → ℕ → ℕ → ℕ → Option Entry
translate_at pg page_dir dir_idx tbl_idx = via pg.tables (pg.dirs page_dir dir_idx) tbl_idx

unfoldable pub translate : Paging → ℕ → ℕ → Option Entry
translate pg page_dir virt = translate_at pg page_dir (directory_idx virt) (table_idx virt)

-- Every table that a live directory refers to is a page in use, and is referred to once.
pub record IsSound (live : ℕ → Type 0) (pg : Paging) : Type 0 where
  pub alloc_valid : IsValid pg.page_table_allocator
  pub low : kernel_virtual_base < pg.page_table_allocator.phys_bookkeeping.end
  pub high : pg.page_table_allocator.phys_region.end ≤ 2 ^ 32
  pub used :
      (d i : ℕ)
      → live d
      → present (pg.dirs d i) ≡ true
      → Used pg.page_table_allocator (table_of (pg.dirs d i))
  pub apart :
      (d i d' i' : ℕ)
      → live d
      → live d'
      → present (pg.dirs d i) ≡ true
      → present (pg.dirs d' i') ≡ true
      → table_of (pg.dirs d i) ≡ table_of (pg.dirs d' i')
      → (d ≡ d') × (i ≡ i')

present-low : (e e' : Entry) → e.flags % 2 ≡ e'.flags % 2 → present e ≡ present e'
present-low e e' h = ground (arith, bit_and-one e.flags, bit_and-one e'.flags)

-- What a page is mapped to with these flags.
abbrev pub entry_of : ℕ → ℕ → Option Entry
entry_of phys flags =
    if has flags pe_p
    then some (record { flags = flags % 2 ^ 12; frame = phys / 2 ^ 12 % 2 ^ 20 })
    else none

-- Only the page of `virt` in the directory is translated otherwise.
abbrev pub Remapped : (ℕ → Type 0) → Paging → ℕ → ℕ → Option Entry → Paging → Type 0
Remapped live pg d virt e pg' =
    (d' v : ℕ)
    → live d'
    → translate pg' d' v
      ≡ (if (d == d') && (virt / 2 ^ 12 == v / 2 ^ 12) then e else translate pg d' v)

module _ (live : ℕ → Type 0) (pg : Paging) (s : IsSound live pg) (d virt : ℕ) (here : live d) where
  pub write_pte-Sound :
      (page_table phys flags : ℕ) → IsSound live (write_pte pg page_table virt phys flags)
  unfolding write_pte
  write_pte-Sound page_table phys flags = record {
    alloc_valid = s.alloc_valid;
    low = s.low;
    high = s.high;
    used = s.used;
    apart = s.apart;
  }

  -- An entry that another directory, another index of it, or another index of the table leads to.
  set-other :
      (di ti d' di' ti' : ℕ) (e : Entry)
      → live d'
      → present (pg.dirs d di) ≡ true
      → ((d ≡ d') × (di ≡ di') × (ti ≡ ti') → ⊥)
      → translate_at
          (record pg { tables = set_entry pg.tables (table_of (pg.dirs d di)) ti e })
          d'
          di'
          ti'
        ≡ translate_at pg d' di' ti'
  set-other di ti d' di' ti' e h there ne = elim (Bool-cases (present (pg.dirs d' di'))) [
    | inr n ↦ rw n
    | inl p ↦ rw p (elim (Bool-cases (table_of (pg.dirs d di) == table_of (pg.dirs d' di'))) [
      | inr n ↦ rw n
      | inl same ↦
          let (dd, ii) = s.apart d di d' di' here h there p ((==_iff _ _).0 same) in
          rw (same, ne→==_false ti ti' (λ t. ne (dd, ii, t)), (==_iff _ _).0 same)
    ])
  ]

  pub write_pte-Remapped :
      (phys flags : ℕ)
      → present (pg.dirs d (directory_idx virt)) ≡ true
      → Remapped live pg d virt
          (entry_of phys flags)
          (write_pte pg (table_of (pg.dirs d (directory_idx virt))) virt phys flags)
  unfolding write_pte translate
  write_pte-Remapped phys flags there d' v h = elim (Bool-cases (d == d')) [
    | inr n ↦ rw n (set-other _ _ d' _ _ _ h there (λ q. cc (n, (==_iff d d').1 q.0)))
    | inl same ↦ elim (Bool-cases (virt / 2 ^ 12 == v / 2 ^ 12)) [
      | inl page ↦
          rw (same, page)
            (subst
              (λ x.
                translate_at (record pg { tables = tables' }) x (directory_idx v) (table_idx v)
                ≡ entry_of phys flags)
              ((==_iff d d').0 same)
              (subst
                (λ x.
                  translate_at (record pg { tables = tables' }) d x (table_idx v)
                  ≡ entry_of phys flags)
                (same_directory ((==_iff _ _).0 page))
                (subst
                  (λ x.
                    translate_at (record pg { tables = tables' }) d (directory_idx virt) x
                    ≡ entry_of phys flags)
                  (same_table_idx ((==_iff _ _).0 page)) (set-same there))))
      | inr n ↦
          rw (same, n)
            (set-other _ _ d' _ _ _ h there
              (λ q. cc (n, (==_iff (virt / 2 ^ 12) (v / 2 ^ 12)).1 (same_page q.1 q.2))))
    ]
  ]
    where
      stored : Entry
      stored = record { flags = flags % 2 ^ 12; frame = phys / 2 ^ 12 % 2 ^ 20 }

      tables' : ℕ → ℕ → Entry
      tables' =
          set_entry pg.tables (table_of (pg.dirs d (directory_idx virt))) (table_idx virt) stored

      low_bit : flags % 2 ^ 12 % 2 ≡ flags % 2
      low_bit = omega arith

      set-same :
          present (pg.dirs d (directory_idx virt)) ≡ true
          → translate_at (record pg { tables = tables' }) d (directory_idx virt) (table_idx virt)
            ≡ entry_of phys flags
      set-same p =
          rw
            (
              p,
              (==_iff (table_of (pg.dirs d (directory_idx virt)))
                    (table_of (pg.dirs d (directory_idx virt)))).1
                  refl,
              (==_iff (table_idx virt) (table_idx virt)).1 refl,
              bit_and-one flags,
              bit_and-one (flags % 2 ^ 12),
            )
            (rw low_bit refl)

      same_directory : virt / 2 ^ 12 ≡ v / 2 ^ 12 → directory_idx virt ≡ directory_idx v
      same_directory q = omega arith

      same_table_idx : virt / 2 ^ 12 ≡ v / 2 ^ 12 → table_idx virt ≡ table_idx v
      same_table_idx q = omega arith

      same_page :
          directory_idx virt ≡ directory_idx v
          → table_idx virt ≡ table_idx v
          → virt / 2 ^ 12 ≡ v / 2 ^ 12
      same_page q r = omega arith

module _ (live : ℕ → Type 0) (pg : Paging) (s : IsSound live pg) (d di : ℕ) (here : live d) where
  -- An entry of a directory may take other flags up while it stays present.
  abbrev flagged : ℕ → Paging
  flagged flags = record pg {
    dirs = set_entry pg.dirs d di (record (pg.dirs d di) { flags = flags });
  }

  flagged_dir :
      (flags : ℕ)
      → present (pg.dirs d di) ≡ true
      → flags % 2 ≡ 1
      → (d' di' : ℕ)
      → (present ((flagged flags).dirs d' di') ≡ present (pg.dirs d' di'))
        × (((flagged flags).dirs d' di').frame ≡ (pg.dirs d' di').frame)
  flagged_dir flags p odd d' di' = ground (arith, bit_and-one flags)

  flagged-Sound :
      (flags : ℕ) → present (pg.dirs d di) ≡ true → flags % 2 ≡ 1 → IsSound live (flagged flags)
  flagged-Sound flags p odd = record {
    alloc_valid = s.alloc_valid;
    low = s.low;
    high = s.high;
    used = λ d' i l q.
        let (e, f) = flagged_dir flags p odd d' i in
        subst (λ x. Used pg.page_table_allocator (phys2kernvirt (x * 2 ^ 12 % 2 ^ 32))) (sym f)
          (s.used d' i l (sym e ∙ q));
    apart = λ d' i d'' i' l l' q q' same.
        let (e, f) = flagged_dir flags p odd d' i in
        let (e', f') = flagged_dir flags p odd d'' i' in
        s.apart d' i d'' i' l l' (sym e ∙ q) (sym e' ∙ q') (
          ap (λ x. phys2kernvirt (x * 2 ^ 12 % 2 ^ 32)) (sym f)
          ∙ same
          ∙ ap (λ x. phys2kernvirt (x * 2 ^ 12 % 2 ^ 32)) f');
  }

  flagged-translate :
      (flags d' v : ℕ)
      → present (pg.dirs d di) ≡ true
      → flags % 2 ≡ 1
      → translate (flagged flags) d' v ≡ translate pg d' v
  unfolding translate
  flagged-translate flags d' v p odd =
      let (e, f) = flagged_dir flags p odd d' (directory_idx v) in
      ap₂
        (λ (b : Bool) (x : ℕ).
          if b
          then (let pte = pg.tables (phys2kernvirt (x * 2 ^ 12 % 2 ^ 32)) (table_idx v) in
              if present pte then some pte else none)
          else none)
        e f

-- The branch of `map_page` for a directory's entry that is present.
pub map_in_table-Remapped :
    (live : ℕ → Type 0) (pg : Paging) (s : IsSound live pg) (d virt phys flags : ℕ)
    → live d
    → present (pg.dirs d (directory_idx virt)) ≡ true
    → IsSound live (map_in_table pg d virt phys flags)
      × Remapped live pg d virt (entry_of phys flags) (map_in_table pg d virt phys flags)
unfolding map_in_table
map_in_table-Remapped live pg s d virt phys flags here p = (
  write_pte-Sound live pg1 sound d virt here (table_of (pg.dirs d di)) phys flags,
  λ d' v l.
      subst
        (λ x. translate (write_pte pg1 x virt phys flags) d' v ≡ (
          if (d == d') && (virt / 2 ^ 12 == v / 2 ^ 12)
          then entry_of phys flags
          else translate pg d' v))
        (ap (λ x. phys2kernvirt (x * 2 ^ 12 % 2 ^ 32)) same.1)
        (write_pte-Remapped live pg1 sound d virt here phys flags (same.0 ∙ p) d' v l
          ∙ ap (λ t. if (d == d') && (virt / 2 ^ 12 == v / 2 ^ 12) then entry_of phys flags else t)
              (flagged-translate live pg s d di here taken d' v p odd)),
)
  where
    di : ℕ
    di = directory_idx virt

    taken : ℕ
    taken = bit_or (pg.dirs d di).flags (pde_flags flags) % 2 ^ 12

    odd : taken % 2 ≡ 1
    odd =
        ground (
          arith,
          bit_or_low (pg.dirs d di).flags (pde_flags flags),
          bit_and-one (pg.dirs d di).flags,
        )

    pg1 : Paging
    pg1 = flagged live pg s d di here taken

    sound : IsSound live pg1
    sound = flagged-Sound live pg s d di here taken p odd

    same :
        (present (pg1.dirs d di) ≡ present (pg.dirs d di))
        × ((pg1.dirs d di).frame ≡ (pg.dirs d di).frame)
    same = flagged_dir live pg s d di here taken p odd d di
