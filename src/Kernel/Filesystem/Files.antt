-- ===== src/Kernel/Filesystem/Files.antt =====
-- kernel/filesystem.cc: contexts with their descriptors, and the files that they share.
use peos.Prelude.{
  ℕ, zero, suc, ◌+◌, ◌-◌, ◌%◌, ◌^◌, Bool, true, false, not, ◌&&◌, ◌||◌, map, replicate, Option,
  none, some, List, [], ◌∷◌, ◌++◌, length, ltb, leb, ◌==◌, min, take, drop, if◌then◌else◌,
}
use peos.Prelude.Bits.{has}
use peos.Prelude.Fault
use peos.Prelude.Int.{ℤ, pos, negsuc}
use peos.Support.Pool.{Pool, end_sentinel, empty_pool}
use peos.Support.Pool
use peos.Kernel.Filesystem.{
  Fs, Device, DriverRef, null, local, foreign, OpenedFile, Context, small_len, descriptors_len,
  vfs_driver, vfs_directory, vfs_lookup, find_first_driver, M, ◌>>=◌, ◌>>◌, pure, lift, assert, get,
  modify,
}

-- `p2::result` with an error code, which is negative.
pub data Res {ℓ} (A : Type ℓ) : Type ℓ where
  failure : (error : ℤ) → Res A
  success : (value : A) → Res A

abbrev pub enosupport : ℤ
enosupport = negsuc 99

abbrev pub enoent : ℤ
enoent = negsuc 199

abbrev pub enodriver : ℤ
enodriver = negsuc 201

abbrev pub enospace : ℤ
enospace = negsuc 202

abbrev pub einconstate : ℤ
einconstate = negsuc 203

-- What another driver offers, and answers; `none` is a function that it does not have.
pub record Driver : Type 0 where
  pub write : Option (ℤ → List ℕ → ℤ)
  pub read : Option (ℤ → ℕ → ℤ × List (Option ℕ))
  pub open_ : Option (List ℕ → ℕ → ℤ)
  pub close : Option (ℤ → ℤ)
  pub control : Option (ℤ → ℕ → ℕ → ℕ → ℤ)
  pub seek : Option (ℤ → ℤ → ℤ → ℤ)
  pub mkdir : Option (List ℕ → ℤ)

-- `sizeof(dirent_t)`.
abbrev pub dirent_len : ℕ
dirent_len = 64

-- A handle that a driver is given back, as an index.
abbrev pub index_of : ℤ → ℕ
index_of (pos n) = n % 2 ^ 16
index_of (negsuc n) = (2 ^ 16 - 1 - n % 2 ^ 16)

unfoldable pub open_locally : List ℕ → M ℤ
open_locally path = do
  fs ← get
  dir_handle ← lift (vfs_lookup fs path)
  if dir_handle == end_sentinel then pure enoent else (do
    (h, files) ← lift (
        Pool.emplace_anywhere small_len fs.locally_opened_files
          (record { node = dir_handle; position = 0 }))
    modify (λ fs. record fs { locally_opened_files = files })
    pure (pos h))

unfoldable pub close_locally : ℤ → M ℤ
close_locally handle = do
  fs ← get
  files ← lift (Pool.erase fs.locally_opened_files (index_of handle))
  modify (λ fs. record fs { locally_opened_files = files })
  pure (pos 0)

-- A `dirent_t` with a name: what lies behind its zero was never written.
abbrev pub block_of : List ℕ → List (Option ℕ)
block_of name = take dirent_len (map some name ++ some 0 ∷ replicate dirent_len none)

-- The loop of `read_locally` over the entries: the bytes, and the position in the end.
unfoldable pub read_entries : ℕ → Fs → ℕ → ℕ → ℕ → ℕ → Option (List (Option ℕ) × ℕ)
read_entries zero fs dirent_idx byte_offset position length_ = none
read_entries (suc fuel) fs dirent_idx byte_offset position length_ =
    if dirent_idx == end_sentinel || length_ == 0
    then some ([], position)
    else (Fault.◌>>=◌ (Pool.at fs.directories dirent_idx) (λ entry.
        let block_offset = position % dirent_len in
        let copy_length = min (dirent_len - block_offset) length_ in
        let inside = leb byte_offset position && ltb position (byte_offset + dirent_len) in
        let data_ =
          if inside then take copy_length (drop block_offset (block_of entry.name)) else [] in
        let rest =
          read_entries fuel fs entry.next_dirent (byte_offset + dirent_len)
            (if inside then position + copy_length else position)
            (if inside then length_ - copy_length else length_) in
        Fault.◌>>=◌ rest (λ (more, end). some (data_ ++ more, end))))

unfoldable pub read_locally : ℤ → ℕ → M (ℤ × List (Option ℕ))
read_locally handle length_ = do
  fs ← get
  file ← lift (Pool.at fs.locally_opened_files (index_of handle))
  node ← lift (Pool.at fs.nodes file.node)
  assert (has node.type vfs_directory)
  (data_, position) ← lift (read_entries (2 ^ 16) fs node.info_node 0 file.position length_)
  files ← lift (
      Pool.store_at fs.locally_opened_files (index_of handle) (record file { position = position }))
  modify (λ fs. record fs { locally_opened_files = files })
  pure (pos (length data_), data_)

-- Whether the driver of a device is no null pointer.
abbrev pub has_driver : DriverRef → Bool
has_driver null = false
has_driver local = true
has_driver (foreign d) = true

module _ (driver_table : ℕ → Driver) where
  -- The calls through the function pointers of a driver.
  unfoldable pub call_close : DriverRef → ℕ → ℤ → M ℤ
  call_close null device handle = lift none
  call_close local device handle = close_locally handle
  call_close (foreign d) device handle = by_pointer (driver_table d).close
    where
      by_pointer : Option (ℤ → ℤ) → M ℤ
      by_pointer none = pure (pos 0)
      by_pointer (some close) = do
        modify (λ fs. record fs { closed = fs.closed ++ (device, handle) ∷ [] })
        pure (close handle)

  unfoldable pub call_open : DriverRef → List ℕ → ℕ → M (Res ℤ)
  call_open null path flags = lift none
  call_open local path flags = do h ← open_locally path; pure (success h)
  call_open (foreign d) path flags = pure (by_pointer (driver_table d).open_)
    where
      by_pointer : Option (List ℕ → ℕ → ℤ) → Res ℤ
      by_pointer none = failure enosupport
      by_pointer (some open_) = success (open_ path flags)

  unfoldable pub call_read : DriverRef → ℤ → ℕ → M (Res (ℤ × List (Option ℕ)))
  call_read null handle length_ = lift none
  call_read local handle length_ = do r ← read_locally handle length_; pure (success r)
  call_read (foreign d) handle length_ = pure (by_pointer (driver_table d).read)
    where
      by_pointer : Option (ℤ → ℕ → ℤ × List (Option ℕ)) → Res (ℤ × List (Option ℕ))
      by_pointer none = failure enosupport
      by_pointer (some read) = success (read handle length_)

  -- `vfs_close`: the descriptor goes, and the file with its last descriptor.
  unfoldable pub vfs_close : ℕ → ℕ → M ℤ
  vfs_close context_handle local_fd = do
    fs ← get
    context ← lift (Pool.at fs.contexts context_handle)
    file_handle ← lift (Pool.at context.descriptors local_fd)
    file ← lift (Pool.at fs.opened_files file_handle)
    device ← lift (Pool.at fs.drivers file.device)
    assert (has_driver device.driver)
    descriptors ← lift (Pool.erase context.descriptors local_fd)
    contexts ←
        lift
          (Pool.store_at fs.contexts context_handle (record context { descriptors = descriptors }))
    files ←
        lift (
          Pool.store_at fs.opened_files file_handle
            (record file { ref_count = file.ref_count - 1 }))
    modify (λ fs. record fs { contexts = contexts; opened_files = files })
    if file.ref_count == 1
        then (do
          retval ← call_close device.driver file.device file.device_local_handle
          fs' ← get
          left ← lift (Pool.erase fs'.opened_files file_handle)
          modify (λ fs. record fs { opened_files = left })
          pure retval)
        else pure (pos 0)

  -- `fetch_opened_file`: the handle and the file.
  unfoldable pub fetch_opened_file : Fs → ℕ → ℕ → Res OpenedFile
  fetch_opened_file fs context_handle fd = by_context (Pool.at fs.contexts context_handle)
    where
      by_device : OpenedFile → Option Device → Res OpenedFile
      by_device file none = failure einconstate
      by_device file (some device) =
          if has_driver device.driver then success file else failure einconstate

      by_file : Option OpenedFile → Res OpenedFile
      by_file none = failure enoent
      by_file (some file) = by_device file (Pool.at fs.drivers file.device)

      by_descriptor : Option ℕ → Res OpenedFile
      by_descriptor none = failure enoent
      by_descriptor (some file_handle) = by_file (Pool.at fs.opened_files file_handle)

      by_context : Option Context → Res OpenedFile
      by_context none = failure enoent
      by_context (some context) = by_descriptor (Pool.at context.descriptors fd)

  unfoldable pub vfs_read : ℕ → ℕ → ℕ → M (Res (ℕ × List (Option ℕ)))
  vfs_read context_handle fd length_ = do fs ← get; by_file (fetch_opened_file fs context_handle fd)
    where
      outcome : Res (ℤ × List (Option ℕ)) → Res (ℕ × List (Option ℕ))
      outcome (failure e) = failure e
      outcome (success (pos n, data_)) = success (n, data_)
      outcome (success (negsuc n, data_)) = failure (negsuc n)

      by_file : Res OpenedFile → M (Res (ℕ × List (Option ℕ)))
      by_file (failure e) = pure (failure e)
      by_file (success file) = do
        fs ← get
        device ← lift (Pool.at fs.drivers file.device)
        r ← call_read device.driver file.device_local_handle length_
        pure (outcome r)

  unfoldable pub vfs_open : ℕ → List ℕ → ℕ → M (Res ℕ)
  vfs_open context_handle filename flags = do
    fs ← get
    _ ← lift (Pool.at fs.contexts context_handle)
    (node_idx, rest_path) ← lift (find_first_driver fs filename)
    node ← lift (Pool.at fs.nodes node_idx)
    assert (has node.type vfs_driver)
    assert (not (node.info_node == end_sentinel))
    device ← lift (Pool.at fs.drivers node.info_node)
    opened ← call_open device.driver rest_path flags
    by_handle node.info_node opened
    where
      by_handle : ℕ → Res ℤ → M (Res ℕ)
      by_handle device (failure e) = pure (failure e)
      by_handle device (success (negsuc e)) = pure (failure (negsuc e))
      by_handle device (success (pos h)) = do
        fs ← get
        (ofh, files) ← lift (
            Pool.emplace_anywhere small_len fs.opened_files (record {
              device = device;
              device_local_handle = pos h;
              flags = flags;
              ref_count = 1;
            }))
        context ← lift (Pool.at fs.contexts context_handle)
        (fd, descriptors) ← lift (Pool.emplace_anywhere descriptors_len context.descriptors ofh)
        contexts ← lift (
            Pool.store_at fs.contexts context_handle (record context { descriptors = descriptors }))
        modify (λ fs. record fs { opened_files = files; contexts = contexts })
        pure (success fd)

  unfoldable pub vfs_create_context : M (Res ℕ)
  vfs_create_context = do
    fs ← get
    if Pool.full small_len fs.contexts then pure (failure enospace) else (do
      (h, contexts) ←
          lift (Pool.emplace_anywhere small_len fs.contexts (record { descriptors = empty_pool }))
      modify (λ fs. record fs { contexts = contexts })
      pure (success h))

  -- The loop over the descriptors below the watermark, which closing may lower.
  unfoldable pub close_descriptors : ℕ → (OpenedFile → Bool) → ℕ → ℕ → M (Unit {0})
  close_descriptors zero which context_handle i = pure tt
  close_descriptors (suc n) which context_handle i = do
    fs ← get
    context ← lift (Pool.at fs.contexts context_handle)
    let rest = close_descriptors n which context_handle (suc i)
    if ltb i context.descriptors.watermark
        then (by_descriptor fs (Pool.at context.descriptors i)
              (do _ ← vfs_close context_handle i; pure tt)
            >> rest)
        else pure tt
    where
      by_descriptor : Fs → Option ℕ → M (Unit {0}) → M (Unit {0})
      by_descriptor fs none close = pure tt
      by_descriptor fs (some file_handle) close = do
        file ← lift (Pool.at fs.opened_files file_handle)
        if which file then close else pure tt

  unfoldable pub vfs_destroy_context : ℕ → M (Unit {0})
  vfs_destroy_context context_handle = do
    close_descriptors descriptors_len (λ _. true) context_handle 0
    fs ← get
    contexts ← lift (Pool.erase fs.contexts context_handle)
    modify (λ fs. record fs { contexts = contexts })

  unfoldable pub vfs_close_not_matching : ℕ → ℕ → M (Unit {0})
  vfs_close_not_matching context_handle flags =
      close_descriptors descriptors_len (λ file. not (has file.flags flags)) context_handle 0

  unfoldable pub vfs_alias_fd : ℕ → ℕ → ℕ → ℕ → M ℤ
  vfs_alias_fd src_ctx src_fd dst_ctx dst_fd = do
    fs ← get
    source ← lift (Pool.at fs.contexts src_ctx)
    dest ← lift (Pool.at fs.contexts dst_ctx)
    by_source (Pool.at source.descriptors src_fd) (Pool.at dest.descriptors dst_fd)
    where
      -- The descriptor is read again after the close, which may have been of a copy of it.
      alias : M ℤ
      alias = do
        fs ← get
        source ← lift (Pool.at fs.contexts src_ctx)
        file_handle ← lift (Pool.at source.descriptors src_fd)
        dest ← lift (Pool.at fs.contexts dst_ctx)
        descriptors ← lift (Pool.emplace descriptors_len dest.descriptors dst_fd file_handle)
        contexts ←
            lift (Pool.store_at fs.contexts dst_ctx (record dest { descriptors = descriptors }))
        file ← lift (Pool.at fs.opened_files file_handle)
        files ← lift (
            Pool.store_at fs.opened_files file_handle
              (record file { ref_count = file.ref_count + 1 }))
        modify (λ fs. record fs { contexts = contexts; opened_files = files })
        pure (pos 0)

      by_source : Option ℕ → Option ℕ → M ℤ
      by_source none dest = pure enoent
      by_source (some f) none = alias
      by_source (some f) (some g) =
          if g == f then pure (pos 0) else (do _ ← vfs_close dst_ctx dst_fd; alias)

  -- The loop over the descriptors of the parent's context.
  unfoldable pub alias_all : ℕ → ℕ → ℕ → ℕ → M (Unit {0})
  alias_all zero source new i = pure tt
  alias_all (suc n) source new i = do
    fs ← get
    context ← lift (Pool.at fs.contexts source)
    (if Pool.valid context.descriptors i
        then (do _ ← vfs_alias_fd source i new i; pure tt)
        else pure tt)
    alias_all n source new (suc i)

  unfoldable pub vfs_fork_context : ℕ → M (Res ℕ)
  vfs_fork_context context_handle = do new ← vfs_create_context; by_new new
    where
      by_new : Res ℕ → M (Res ℕ)
      by_new (failure e) = pure (failure e)
      by_new (success new) = do
        fs ← get
        context ← lift (Pool.at fs.contexts context_handle)
        alias_all context.descriptors.watermark context_handle new 0
        pure (success new)
