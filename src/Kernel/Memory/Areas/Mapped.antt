-- ===== src/Kernel/Memory/Areas/Mapped.antt =====
-- Mapping an area: the new one is apart from the others, and the range of another is refused.
use mathlib.Core.Option
use peos.Prelude.{
  ℕ, ◌<◌, ◌≡◌, ◌≢◌, refl, ap, sym, ◌∙◌, subst, Bool, true, false, not, Option, none, some, List,
  arith, if◌then◌else◌, Bool-cases, inl, inr, ◌==◌, ==_iff, lt→ltb,
}
use peos.Prelude.Fault
use peos.Support.Pool.{Pool}
use peos.Support.Pool
use peos.Support.Pool.Inv.{Inv, valid_at}
use peos.Support.Pool.Emplace.{Filled, emplace_anywhere-Filled}
use peos.Support.Pool.Store.{store_at-Filled}
use peos.Kernel.Memory.State.{
  AreaInfo, linear_map, alloc, file, LinearMapInfo, FileMapInfo, SpaceInfo, spaces_len, areas_len,
  maps_len, Mem, M, space, put_space,
}
use peos.Kernel.Memory.Areas.{
  overlaps, overlaps_existing_area, assert_apart, add_area, add_linear_map, add_file_map,
  mem_map_alloc, mem_map_linear, mem_map_linear_eager, mem_map_fd,
}
use peos.Kernel.Memory.Areas.Disjoint.{IsApart, Clear, overlaps_existing_area-Clear}

-- The space with the handle.
pub record HasSpace (m : Mem) (h : ℕ) (free : List ℕ) (s : SpaceInfo) : Type 0 where
  pub inv : Inv spaces_len m.spaces free
  pub found : Pool.at m.spaces h ≡ some s

overlaps_comm : (a b : AreaInfo) → overlaps a.start a.end b ≡ overlaps b.start b.end a
unfolding overlaps
overlaps_comm a b = ground arith

-- A pool of areas that do not overlap, with one that overlaps none of them.
Filled-Apart :
    (s : SpaceInfo) (free free' : List ℕ) (i : ℕ) (area : AreaInfo) (areas : Pool AreaInfo)
    → IsApart s free
    → Clear s area.start area.end
    → Inv areas_len areas free'
    → Filled s.areas i area areas
    → IsApart (record s { areas = areas }) free'
Filled-Apart s free free' i area areas v clear inv filled = record {
  inv = inv;
  apart = λ j k a b ne e e'. by_slot j k a b ne (sym (filled j) ∙ e) (sym (filled k) ∙ e');
}
  where
    by_slot :
        (j k : ℕ) (a b : AreaInfo)
        → j ≢ k
        → (if i == j then some area else Pool.at s.areas j) ≡ some a
        → (if i == k then some area else Pool.at s.areas k) ≡ some b
        → overlaps a.start a.end b ≡ false
    by_slot j k a b ne e e' = elim (Bool-cases (i == j)) [
      | inl p ↦ elim (Bool-cases (i == k)) [
        | inl q ↦ absurd (ne (sym ((==_iff i j).0 p) ∙ (==_iff i k).0 q))
        | inr q ↦
            subst (λ x. overlaps x.start x.end b ≡ false)
              (ap (λ o. Option.get_or {A = AreaInfo} o a) (rw p at e)) (clear k b (rw q at e'))
      ]
      | inr p ↦ elim (Bool-cases (i == k)) [
        | inl q ↦
            subst (λ x. overlaps a.start a.end x ≡ false)
              (ap (λ o. Option.get_or {A = AreaInfo} o b) (rw q at e'))
              (overlaps_comm a area ∙ clear j a (rw p at e))
        | inr q ↦ v.apart j k a b ne (rw p at e) (rw q at e')
      ]
    ]

pub add_area-Apart :
    (s : SpaceInfo) (free : List ℕ) (area : AreaInfo)
    → IsApart s free
    → Clear s area.start area.end
    → Pool.size s.areas < areas_len
    → (i : ℕ) × (s' : SpaceInfo) × (free' : List ℕ) × (add_area s area ≡ some (i, s'))
      × IsApart s' free'
      × (Pool.at s.areas i ≡ none)
      × Filled s.areas i area s'.areas
unfolding add_area
add_area-Apart s free area v clear room =
    let (i, areas, free', e, inv, empty, filled, _) =
      emplace_anywhere-Filled areas_len s.areas area free v.inv room in
    (
      i,
      record s { areas = areas },
      free',
      rw e refl,
      Filled-Apart s free free' i area areas v clear inv filled,
      empty,
      filled,
    )

put_space-Has :
    (m : Mem) (h : ℕ) (free : List ℕ) (s s' : SpaceInfo)
    → HasSpace m h free s
    → (m' : Mem) × (put_space h s' m ≡ some (tt, m')) × HasSpace m' h free s'
unfolding put_space
put_space-Has m h free s s' v =
    let (p, e, inv, filled, _) =
      store_at-Filled spaces_len m.spaces h s' free v.inv
        (valid_at spaces_len m.spaces free v.inv h s v.found) in
    (
      record m { spaces = p },
      rw e refl,
      record { inv = inv; found = filled h ∙ rw ((==_iff h h).1 refl) refl },
    )

-- The area is mapped: it stands in a slot that was empty, and the areas of the space still do not overlap.
abbrev pub Added : ℕ → SpaceInfo → AreaInfo → List ℕ → M ℕ → Mem → Type 0
Added h s area free op m =
    (i : ℕ) × (m' : Mem) × (s' : SpaceInfo) × (free' : List ℕ) × (op m ≡ some (i, m'))
    × HasSpace m' h free s'
    × IsApart s' free'
    × (Pool.at s.areas i ≡ none)
    × Filled s.areas i area s'.areas

assert_apart-Clear :
    (s : SpaceInfo) (free : List ℕ) (start end : ℕ)
    → IsApart s free
    → Clear s start end
    → assert_apart s start end ≡ some tt
unfolding assert_apart
assert_apart-Clear s free start end v clear =
    rw ((overlaps_existing_area-Clear s free start end v.inv).1 clear) refl

-- Mapping an allocated area over a range that no area overlaps, with room for one more.
pub mem_map_alloc-Added :
    (m : Mem) (h : ℕ) (free afree : List ℕ) (s : SpaceInfo) (start end flags : ℕ)
    → HasSpace m h free s
    → IsApart s afree
    → Clear s start end
    → Pool.size s.areas < areas_len
    → Added h s
        (record { start = start; end = end; type = alloc; flags = flags; info_handle = 0 })
        free
        (mem_map_alloc h start end flags)
        m
unfolding mem_map_alloc space
mem_map_alloc-Added m h free afree s start end flags v apart clear room =
    let (i, s', free', e, apart', empty, filled) = add_area-Apart s afree _ apart clear room in
    let (m', e', v') = put_space-Has m h free s s' v in
    (
      i,
      m',
      s',
      free',
      rw (v.found, assert_apart-Clear s afree start end apart clear, e, e') refl,
      v',
      apart',
      empty,
      filled,
    )

-- Mapping a file, with room for one more area and one more file, and no standard descriptor.
pub mem_map_fd-Added :
    (m : Mem) (h : ℕ) (free afree ffree : List ℕ) (s : SpaceInfo)
    (start end fd offset file_size flags : ℕ)
    → HasSpace m h free s
    → IsApart s afree
    → Clear s start end
    → Pool.size s.areas < areas_len
    → Inv maps_len s.file_maps ffree
    → Pool.size s.file_maps < maps_len
    → 2 < fd
    → (k : ℕ) × Added h s
        (record { start = start; end = end; type = file; flags = flags; info_handle = k })
        free
        (mem_map_fd h start end fd offset file_size flags)
        m
unfolding mem_map_fd space add_file_map
mem_map_fd-Added m h free afree ffree s start end fd offset file_size flags v apart clear room finv
      froom std =
    let info : FileMapInfo = record { fd = fd; offset = offset; size = file_size } in
    let (k, maps, _, e, _, _, _, _) =
      emplace_anywhere-Filled maps_len s.file_maps info ffree finv froom in
    let s₁ : SpaceInfo = record s { file_maps = maps } in
    let apart₁ : IsApart s₁ afree = record { inv = apart.inv; apart = apart.apart } in
    let (i, s', free', e', apart', empty, filled) = add_area-Apart s₁ afree _ apart₁ clear room in
    let (m', e'', v') = put_space-Has m h free s s' v in
    (
      k,
      (
        i,
        m',
        s',
        free',
        rw (v.found, assert_apart-Clear s afree start end apart clear, lt→ltb 2 fd std, e, e', e'')
            refl,
        v',
        apart',
        empty,
        filled,
      ),
    )

-- Mapping physical memory, with room for one more area and one more linear map.
pub mem_map_linear-Added :
    (m : Mem) (h : ℕ) (free afree lfree : List ℕ) (s : SpaceInfo) (start end phys_start flags : ℕ)
    → HasSpace m h free s
    → IsApart s afree
    → Clear s start end
    → Pool.size s.areas < areas_len
    → Inv maps_len s.linear_maps lfree
    → Pool.size s.linear_maps < maps_len
    → (k : ℕ) × Added h s
        (record { start = start; end = end; type = linear_map; flags = flags; info_handle = k })
        free
        (mem_map_linear h start end phys_start flags)
        m
unfolding mem_map_linear space add_linear_map
mem_map_linear-Added m h free afree lfree s start end phys_start flags v apart clear room linv
      lroom =
    let info : LinearMapInfo = record { phys_start = phys_start } in
    let (k, maps, _, e, _, _, _, _) =
      emplace_anywhere-Filled maps_len s.linear_maps info lfree linv lroom in
    let s₁ : SpaceInfo = record s { linear_maps = maps } in
    let apart₁ : IsApart s₁ afree = record { inv = apart.inv; apart = apart.apart } in
    let (i, s', free', e', apart', empty, filled) = add_area-Apart s₁ afree _ apart₁ clear room in
    let (m', e'', v') = put_space-Has m h free s s' v in
    (
      k,
      (
        i,
        m',
        s',
        free',
        rw (v.found, assert_apart-Clear s afree start end apart clear, e, e', e'') refl,
        v',
        apart',
        empty,
        filled,
      ),
    )

refused :
    (s : SpaceInfo) (free : List ℕ) (start end i : ℕ) (a : AreaInfo)
    → IsApart s free
    → Pool.at s.areas i ≡ some a
    → overlaps start end a ≡ true
    → assert_apart s start end ≡ none
unfolding assert_apart
refused s free start end i a v e o = by_answer (overlaps_existing_area s start end) refl
  where
    by_answer :
        (answer : Option Bool)
        → overlaps_existing_area s start end ≡ answer
        → Fault.◌>>=◌ answer (λ b. Fault.assert (not b)) ≡ none
    by_answer none q = refl
    by_answer (some true) q = refl
    by_answer (some false) q =
        cc (o, (overlaps_existing_area-Clear s free start end v.inv).0 q i a e)

-- A range that overlaps an area of the space is refused by the failed assertion, whatever is to be mapped.
pub mapping-refused :
    (m : Mem) (h : ℕ) (free afree : List ℕ) (s : SpaceInfo) (start end i : ℕ) (a : AreaInfo)
    → HasSpace m h free s
    → IsApart s afree
    → Pool.at s.areas i ≡ some a
    → overlaps start end a ≡ true
    → (flags phys_start fd offset file_size : ℕ)
    → (mem_map_alloc h start end flags m ≡ none)
      × (mem_map_linear h start end phys_start flags m ≡ none)
      × (mem_map_linear_eager h start end phys_start flags m ≡ none)
      × (mem_map_fd h start end fd offset file_size flags m ≡ none)
unfolding mem_map_alloc mem_map_linear mem_map_linear_eager mem_map_fd space
mapping-refused m h free afree s start end i a v apart e o flags phys_start fd offset file_size =
    let no_room = refused s afree start end i a apart e o in
    (
      rw (v.found, no_room) refl,
      rw (v.found, no_room) refl,
      rw (v.found, no_room) refl,
      rw (v.found, no_room) refl,
    )
