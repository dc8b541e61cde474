-- ===== src/Kernel/Memory/Areas.antt =====
-- kernel/memory.cc: the areas of an address space, and finding the area of an address.
pub mod Disjoint
pub mod Mapped
use Prim.Native.Nat.{bit_or}
use peos.Prelude.{
  ℕ, zero, suc, ◌+◌, ◌-◌, ◌%◌, ◌^◌, Bool, true, false, not, ◌&&◌, ◌||◌, Option, none, some, List,
  [], ◌∷◌, ltb, leb, if◌then◌else◌,
}
use peos.Prelude.Fault
use peos.Support.Pool.{Pool}
use peos.Support.Pool
use peos.Kernel.Memory.State.{
  AreaInfo, linear_map, alloc, file, LinearMapInfo, FileMapInfo, SpaceInfo, areas_len, maps_len,
  area_user, Mem, M, ◌>>=◌, ◌>>◌, pure, lift, assert, get, space, put_space, for_pages, max_pages,
  map_page, page_flags,
}

unfoldable pub overlaps : ℕ → ℕ → AreaInfo → Bool
overlaps start end area = ltb start area.end && ltb area.start end

unfoldable pub any_overlaps : ℕ → ℕ → Pool AreaInfo → List ℕ → Option Bool
any_overlaps start end areas [] = some false
any_overlaps start end areas (i ∷ is) =
    let rest = any_overlaps start end areas is in
    Fault.◌>>=◌ (Pool.at areas i) (λ area. if overlaps start end area then some true else rest)

-- The loop over the areas.
unfoldable pub overlaps_existing_area : SpaceInfo → ℕ → ℕ → Option Bool
overlaps_existing_area s start end = any_overlaps start end s.areas (Pool.indices s.areas)

-- `assert(!overlaps_existing_area(...))`.
unfoldable pub assert_apart : SpaceInfo → ℕ → ℕ → Option (Unit {0})
assert_apart s start end =
    Fault.◌>>=◌ (overlaps_existing_area s start end) (λ b. Fault.assert (not b))

-- `areas.emplace_anywhere`.
unfoldable pub add_area : SpaceInfo → AreaInfo → Option (ℕ × SpaceInfo)
add_area s area =
    Fault.◌>>=◌ (Pool.emplace_anywhere areas_len s.areas area)
      (λ (h, areas). some (h, record s { areas = areas }))

unfoldable pub add_linear_map : SpaceInfo → ℕ → Option (ℕ × SpaceInfo)
add_linear_map s phys_start =
    Fault.◌>>=◌ (Pool.emplace_anywhere maps_len s.linear_maps (record { phys_start = phys_start }))
      (λ (h, maps). some (h, record s { linear_maps = maps }))

unfoldable pub add_file_map : SpaceInfo → FileMapInfo → Option (ℕ × SpaceInfo)
add_file_map s info =
    Fault.◌>>=◌ (Pool.emplace_anywhere maps_len s.file_maps info)
      (λ (h, maps). some (h, record s { file_maps = maps }))

unfoldable pub mem_map_linear : ℕ → ℕ → ℕ → ℕ → ℕ → M ℕ
mem_map_linear space_handle start end phys_start flags = do
  s ← space space_handle
  lift (assert_apart s start end)
  (map_handle, s₁) ← lift (add_linear_map s phys_start)
  (area, s₂) ← lift (
      add_area s₁ (record {
        start = start;
        end = end;
        type = linear_map;
        flags = flags;
        info_handle = map_handle;
      }))
  put_space space_handle s₂
  pure area

unfoldable pub mem_map_linear_eager : ℕ → ℕ → ℕ → ℕ → ℕ → M ℕ
mem_map_linear_eager space_handle start end phys_start flags = do
  s₀ ← space space_handle
  lift (assert_apart s₀ start end)
  for_pages max_pages
      (λ virt. map_page space_handle virt ((virt - start + phys_start) % 2 ^ 32) (page_flags flags))
      start end
  s ← space space_handle
  (map_handle, s₁) ← lift (add_linear_map s phys_start)
  (area, s₂) ← lift (
      add_area s₁ (record {
        start = start;
        end = end;
        type = linear_map;
        flags = flags;
        info_handle = map_handle;
      }))
  put_space space_handle s₂
  pure area

unfoldable pub mem_map_alloc : ℕ → ℕ → ℕ → ℕ → M ℕ
mem_map_alloc space_handle start end flags = do
  s ← space space_handle
  lift (assert_apart s start end)
  (area, s₁) ← lift (
      add_area s
        (record { start = start; end = end; type = alloc; flags = flags; info_handle = 0 }))
  put_space space_handle s₁
  pure area

-- A descriptor is an `int`; one that is negative fails the assertion as one of the standard ones does.
unfoldable pub mem_map_fd : ℕ → ℕ → ℕ → ℕ → ℕ → ℕ → ℕ → M ℕ
mem_map_fd space_handle start end fd offset file_size flags = do
  s ← space space_handle
  lift (assert_apart s start end)
  assert (ltb 2 fd)
  (map_handle, s₁) ← lift (add_file_map s (record { fd = fd; offset = offset; size = file_size }))
  (area, s₂) ← lift (
      add_area s₁
        (record { start = start; end = end; type = file; flags = flags; info_handle = map_handle }))
  put_space space_handle s₂
  pure area

-- The size is the highest `uint32_t`, and the flags are those of a `uint8_t`.
unfoldable pub syscall_mmap : ℕ → ℕ → ℕ → ℕ → ℕ → M ℕ
syscall_mmap start end fd offset flags = do
  m ← get
  _ ← mem_map_fd m.current_space start end fd offset (2 ^ 32 - 1) (bit_or flags area_user)
  pure 0

unfoldable pub covers : ℕ → AreaInfo → Bool
covers address area = leb area.start address && ltb address area.end

-- The loop of `mem_find_area`: `n` indices from `i` on.
unfoldable pub find_from : ℕ → Pool AreaInfo → ℕ → ℕ → Option ℕ
find_from zero areas i address = none
find_from (suc n) areas i address =
    let rest = find_from n areas (suc i) address in by_area (Pool.at areas i) i rest
  where
    by_area : Option AreaInfo → ℕ → Option ℕ → Option ℕ
    by_area none i rest = rest
    by_area (some area) i rest = if covers address area then some i else rest

unfoldable pub find_area : SpaceInfo → ℕ → Option ℕ
find_area s address = find_from s.areas.watermark s.areas 0 address

unfoldable pub mem_find_area : ℕ → ℕ → M (Option ℕ)
mem_find_area space_handle address = do s ← space space_handle; pure (find_area s address)

unfoldable pub mem_area_flags : ℕ → ℕ → M (Option ℕ)
mem_area_flags space_handle address = do
  area_handle ← mem_find_area space_handle address
  s ← space space_handle
  lift (flags_of s area_handle)
  where
    flags_of : SpaceInfo → Option ℕ → Option (Option ℕ)
    flags_of s none = some none
    flags_of s (some h) = Fault.◌>>=◌ (Pool.at s.areas h) (λ area. some (some area.flags))
