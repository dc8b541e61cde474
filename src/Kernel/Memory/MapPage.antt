-- ===== src/Kernel/Memory/MapPage.antt =====
-- `map_page` of kernel/memory.cc with a new table, and as a whole.
use peos.Prelude.{
  ℕ, ◌*◌, ◌/◌, ◌%◌, ◌^◌, ◌≤◌, ◌<◌, ◌≡◌, refl, ap, ap₂, sym, ◌∙◌, subst, true, false, ◌&&◌, none,
  some, inl, inr, ◌⊎◌, arith, ◌==◌, if◌then◌else◌, Bool-cases, ==_iff, ne→==_false, length,
}
use peos.Prelude.Array.{update}
use peos.Prelude.Bits.{has, bit_and-one, bit_and_low}
use peos.Support.PageAlloc.{PageAllocator, alloc_page, free_pages, stack_len}
use peos.Support.PageAlloc.Pages.{Used, Allocated, alloc_page-Allocated, alloc_page-region}
use peos.Kernel.Memory.{
  Entry, zero_entry, present, Paging, set_entry, table_of, directory_idx, table_idx, pe_p,
  pde_flags, write_pte, map_in_table, alloc_table, map_in_new_table, map_in, phys2kernvirt,
  kernvirt2phys, kernel_virtual_base,
}
use peos.Kernel.Memory.Translate.{
  translate, via, IsSound, Remapped, entry_of, write_pte-Sound, write_pte-Remapped,
  map_in_table-Remapped,
}

-- The allocator of tables can give a page.
abbrev pub HasRoom : PageAllocator → Type 0
HasRoom a = (length a.free_stack < stack_len a) × (0 < free_pages a)

-- The frame of a kernel page in a directory's entry leads back to the page.
table_of-kernvirt2phys :
    (page : ℕ)
    → page % 0x1000 ≡ 0
    → kernel_virtual_base ≤ page
    → page < 2 ^ 32
    → phys2kernvirt (kernvirt2phys page / 2 ^ 12 % 2 ^ 20 * 2 ^ 12 % 2 ^ 32) ≡ page
table_of-kernvirt2phys page a lo hi = omega arith

module _ (live : ℕ → Type 0) (pg : Paging) (s : IsSound live pg) (d di flags : ℕ) (here : live d)
    (absent : present (pg.dirs d di) ≡ false) (wanted : has flags pe_p ≡ true) (page : ℕ)
    (rest : PageAllocator) (got : alloc_page pg.page_table_allocator ≡ some (page, rest))
    (allocated : Allocated pg.page_table_allocator page rest) where
  abbrev pde : Entry
  pde = record { flags = pde_flags flags % 2 ^ 12; frame = kernvirt2phys page / 2 ^ 12 % 2 ^ 20 }

  abbrev grown : Paging
  grown = record {
    dirs = set_entry pg.dirs d di pde;
    tables = update pg.tables page (λ _. zero_entry);
    page_table_allocator = rest;
  }

  pde_table : table_of pde ≡ page
  pde_table =
      let region = alloc_page-region pg.page_table_allocator page rest got in
      table_of-kernvirt2phys page allocated.1.page_aligned
        (omega (arith, allocated.1.from_start, s.low, ap (λ r. r.end) region.1))
        (omega
          (arith, allocated.1.to_watermark, allocated.0.below, s.high, ap (λ r. r.end) region.0))

  pde-present : present pde ≡ true
  pde-present =
      ground
        (arith, bit_and_low flags 0xFF3F, bit_and-one flags, bit_and-one (pde_flags flags % 2 ^ 12))

  -- The new entry, or an old one.
  by_entry :
      (d' i : ℕ)
      → ((d ≡ d') × (di ≡ i) × (grown.dirs d' i ≡ pde))
        ⊎ ((d ≡ d' → di ≡ i → ⊥) × (grown.dirs d' i ≡ pg.dirs d' i))
  by_entry d' i = elim (Bool-cases (d == d')) [
    | inr n ↦ inr (λ e. cc (n, (==_iff d d').1 e), rw n)
    | inl e ↦ elim (Bool-cases (di == i)) [
      | inr n ↦
          inr (
            λ e f. cc (n, (==_iff di i).1 f),
            rw (e, n) (ap (λ x. pg.dirs x i) ((==_iff d d').0 e)),
          )
      | inl f ↦ inl ((==_iff d d').0 e, (==_iff di i).0 f, rw (e, f))
    ]
  ]

  grown-Sound : IsSound live grown
  grown-Sound = record {
    alloc_valid = allocated.0;
    low = omega (arith, s.low, ap (λ r. r.end) region.1);
    high = omega (arith, s.high, ap (λ r. r.end) region.0);
    used = λ d' i l p. grown_used d' i l p (by_entry d' i);
    apart = λ d' i d'' i' l l' p p' same.
        grown_apart d' i d'' i' l l' p p' same (by_entry d' i) (by_entry d'' i');
  }
    where
      region :
          (rest.phys_region ≡ pg.page_table_allocator.phys_region)
          × (rest.phys_bookkeeping ≡ pg.page_table_allocator.phys_bookkeeping)
      region = alloc_page-region pg.page_table_allocator page rest got

      old_used :
          (d' i : ℕ)
          → live d'
          → present (grown.dirs d' i) ≡ true
          → grown.dirs d' i ≡ pg.dirs d' i
          → Used pg.page_table_allocator (table_of (grown.dirs d' i))
      old_used d' i l p e =
          subst (λ x. Used pg.page_table_allocator (table_of x)) (sym e)
            (s.used d' i l (ap present (sym e) ∙ p))

      grown_used :
          (d' i : ℕ)
          → live d'
          → present (grown.dirs d' i) ≡ true
          → ((d ≡ d') × (di ≡ i) × (grown.dirs d' i ≡ pde))
            ⊎ ((d ≡ d' → di ≡ i → ⊥) × (grown.dirs d' i ≡ pg.dirs d' i))
          → Used rest (table_of (grown.dirs d' i))
      grown_used d' i l p (inl (_, _, e)) =
          subst (Used rest) (sym (ap table_of e ∙ pde_table)) allocated.1
      grown_used d' i l p (inr (_, e)) = allocated.3 _ (old_used d' i l p e)

      grown_apart :
          (d' i d'' i' : ℕ)
          → live d'
          → live d''
          → present (grown.dirs d' i) ≡ true
          → present (grown.dirs d'' i') ≡ true
          → table_of (grown.dirs d' i) ≡ table_of (grown.dirs d'' i')
          → ((d ≡ d') × (di ≡ i) × (grown.dirs d' i ≡ pde))
            ⊎ ((d ≡ d' → di ≡ i → ⊥) × (grown.dirs d' i ≡ pg.dirs d' i))
          → ((d ≡ d'') × (di ≡ i') × (grown.dirs d'' i' ≡ pde))
            ⊎ ((d ≡ d'' → di ≡ i' → ⊥) × (grown.dirs d'' i' ≡ pg.dirs d'' i'))
          → (d' ≡ d'') × (i ≡ i')
      grown_apart d' i d'' i' l l' p p' same (inl (a, b, _)) (inl (a', b', _)) =
          (sym a ∙ a', sym b ∙ b')
      grown_apart d' i d'' i' l l' p p' same (inl (_, _, e)) (inr (_, e')) = absurd (
          allocated.2 (
            subst (Used pg.page_table_allocator) (sym same ∙ ap table_of e ∙ pde_table)
              (old_used d'' i' l' p' e')))
      grown_apart d' i d'' i' l l' p p' same (inr (_, e)) (inl (_, _, e')) = absurd (
          allocated.2 (
            subst (Used pg.page_table_allocator) (same ∙ ap table_of e' ∙ pde_table)
              (old_used d' i l p e)))
      grown_apart d' i d'' i' l l' p p' same (inr (_, e)) (inr (_, e')) =
          s.apart d' i d'' i' l l' (ap present (sym e) ∙ p) (ap present (sym e') ∙ p')
            (ap table_of (sym e) ∙ same ∙ ap table_of e')

  via-new : (ti : ℕ) → via grown.tables pde ti ≡ none
  via-new ti = rw (pde-present, (==_iff page (table_of pde)).1 (sym pde_table)) refl

  via-old :
      (x : Entry) (ti : ℕ)
      → (present x ≡ true → Used pg.page_table_allocator (table_of x))
      → via grown.tables x ti ≡ via pg.tables x ti
  via-old x ti u = elim (Bool-cases (present x)) [
    | inr n ↦ rw n
    | inl p ↦ rw (
      p,
      ne→==_false page (table_of x)
          (λ e. allocated.2 (subst (Used pg.page_table_allocator) (sym e) (u p))),
    )
  ]

  grown-translate : (d' v : ℕ) → live d' → translate grown d' v ≡ translate pg d' v
  unfolding translate
  grown-translate d' v l = elim (by_entry d' (directory_idx v)) [
    | inl (a, b, e) ↦
        ap (λ x. via grown.tables x (table_idx v)) e
        ∙ via-new (table_idx v)
        ∙ subst (λ x. none ≡ via pg.tables (pg.dirs x (directory_idx v)) (table_idx v)) a
            (subst (λ x. none ≡ via pg.tables (pg.dirs d x) (table_idx v)) b (rw absent refl))
    | inr (n, e) ↦
        ap (λ x. via grown.tables x (table_idx v)) e
        ∙ via-old (pg.dirs d' (directory_idx v)) (table_idx v) (s.used d' (directory_idx v) l)
  ]

  grown_here : grown.dirs d di ≡ pde
  grown_here = rw ((==_iff d d).1 refl, (==_iff di di).1 refl)

-- The branch of `map_page` that makes a table.
map_in_new_table-Remapped :
    (live : ℕ → Type 0) (pg : Paging) (s : IsSound live pg) (d virt phys flags : ℕ)
    → live d
    → present (pg.dirs d (directory_idx virt)) ≡ false
    → has flags pe_p ≡ true
    → HasRoom pg.page_table_allocator
    → (pg' : Paging) × (map_in_new_table pg d virt phys flags ≡ some pg')
      × IsSound live pg'
      × Remapped live pg d virt (entry_of phys flags) pg'
unfolding map_in_new_table alloc_table
map_in_new_table-Remapped live pg s d virt phys flags here absent wanted room =
    let (page, rest, got, allocated) =
      alloc_page-Allocated pg.page_table_allocator s.alloc_valid room.0 room.1 in
    let di = directory_idx virt in
    let pg1 = grown live pg s d di flags here absent wanted page rest got allocated in
    let new = pde live pg s d di flags here absent wanted page rest got allocated in
    let sound = grown-Sound live pg s d di flags here absent wanted page rest got allocated in
    let at_here = grown_here live pg s d di flags here absent wanted page rest got allocated in
    (
      write_pte pg1 page virt phys flags,
      rw got refl,
      write_pte-Sound live pg1 sound d virt here page phys flags,
      λ d' v l.
          subst
            (λ x. translate (write_pte pg1 x virt phys flags) d' v ≡ (
              if (d == d') && (virt / 2 ^ 12 == v / 2 ^ 12)
              then entry_of phys flags
              else translate pg d' v))
            (ap table_of at_here
              ∙ pde_table live pg s d di flags here absent wanted page rest got allocated)
            (write_pte-Remapped live pg1 sound d virt here phys flags
                (ap present at_here
                  ∙ pde-present live pg s d di flags here absent wanted page rest got allocated)
                d' v l
              ∙ ap
                  (λ t.
                    if (d == d') && (virt / 2 ^ 12 == v / 2 ^ 12) then entry_of phys flags else t)
                  (grown-translate live pg s d di flags here absent wanted page rest got allocated
                    d' v l)),
    )

same_directory : (virt v : ℕ) → virt / 2 ^ 12 ≡ v / 2 ^ 12 → directory_idx virt ≡ directory_idx v
same_directory virt v q = omega arith

-- Without a table, nothing is mapped.
unmapped :
    (pg : Paging) (d virt : ℕ)
    → present (pg.dirs d (directory_idx virt)) ≡ false
    → (d' v : ℕ)
    → translate pg d' v
      ≡ (if (d == d') && (virt / 2 ^ 12 == v / 2 ^ 12) then none else translate pg d' v)
unfolding translate
unmapped pg d virt n d' v = elim (Bool-cases (d == d')) [
  | inr e ↦ rw e
  | inl e ↦ elim (Bool-cases (virt / 2 ^ 12 == v / 2 ^ 12)) [
    | inr f ↦ rw (e, f)
    | inl f ↦
        let absent : present (pg.dirs d' (directory_idx v)) ≡ false =
          ap₂ (λ x y. present (pg.dirs x y)) (sym ((==_iff d d').0 e))
            (sym (same_directory virt v ((==_iff _ _).0 f)))
          ∙ n in
        rw (e, f, absent) refl
  ]
]

-- `map_page` of page-aligned addresses, where a table is there or its allocator can give a page: in
-- that space the page of the address is translated to the frame with the flags, or to nothing without
-- `MEM_PE_P`. Every other page, and every page of every other space, is translated as before, and no
-- table is shared.
pub map_in-Remapped :
    (live : ℕ → Type 0) (pg : Paging) (d virt phys flags : ℕ)
    → IsSound live pg
    → live d
    → virt % 2 ^ 12 ≡ 0
    → phys % 2 ^ 12 ≡ 0
    → (present (pg.dirs d (directory_idx virt)) ≡ false
        → has flags pe_p ≡ true
        → HasRoom pg.page_table_allocator)
    → (pg' : Paging) × (map_in pg d virt phys flags ≡ some pg')
      × IsSound live pg'
      × Remapped live pg d virt (entry_of phys flags) pg'
unfolding map_in
map_in-Remapped live pg d virt phys flags s here av ap_ room =
    rw ((==_iff (virt % 2 ^ 12) 0).1 av, (==_iff (phys % 2 ^ 12) 0).1 ap_)
      (elim (Bool-cases (present (pg.dirs d (directory_idx virt)))) [
        | inl p ↦
            let (sound, remapped) = map_in_table-Remapped live pg s d virt phys flags here p in
            (map_in_table pg d virt phys flags, rw p refl, sound, remapped)
        | inr n ↦ elim (Bool-cases (has flags pe_p)) [
          | inl w ↦
              let (pg', e, sound, remapped) =
                map_in_new_table-Remapped live pg s d virt phys flags here n w (room n w) in
              (pg', rw (n, w) e, sound, remapped)
          | inr u ↦ (pg, rw (n, u) refl, s, λ d' v l. rw u (unmapped pg d virt n d' v))
        ]
      ])

-- What is mapped has a table.
pub translate-some :
    (pg : Paging) (d virt : ℕ) (e : Entry)
    → translate pg d virt ≡ some e
    → present (pg.dirs d (directory_idx virt)) ≡ true
unfolding translate
translate-some pg d virt e h = elim (Bool-cases (present (pg.dirs d (directory_idx virt)))) [
  | inl p ↦ p
  | inr n ↦ cc (rw n at h)
]
