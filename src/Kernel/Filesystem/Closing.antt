-- ===== src/Kernel/Filesystem/Closing.antt =====
-- Closing a descriptor: the file is given back with its last descriptor, and not before.
use peos.Prelude.{
  ℕ, ◌-◌, ◌≡◌, refl, ◌∙◌, true, none, some, List, [], ◌∷◌, ◌++◌, arith, ◌==◌, if◌then◌else◌,
  Bool-cases, inl, inr, ==_iff, ne→==_false, subst, sym, Option-cases, dec_lt, ◌<◌, ◌⊎◌,
}
use peos.Prelude.Int.{ℤ, pos}
use peos.Support.Pool.{Pool}
use peos.Support.Pool
use peos.Support.Pool.Inv.{Inv, valid_at}
use peos.Support.Pool.Emplace.{Filled}
use peos.Support.Pool.Store.{store_at-Filled}
use peos.Support.Pool.Erase.{Emptied, erase-Emptied}
use peos.Kernel.Filesystem.{
  Fs, LocallyOpenedFile, Device, DriverRef, null, foreign, local, OpenedFile, Context, small_len,
  descriptors_len,
}
use peos.Kernel.Filesystem.Files.{
  Driver, has_driver, vfs_close, call_close, close_locally, index_of,
}

-- A descriptor of a context, and the file that it refers to.
pub record Opened (fs : Fs) (ctx fd : ℕ) : Type 0 where
  pub contexts_free : List ℕ
  pub contexts_inv : Inv small_len fs.contexts contexts_free
  pub context : Context
  pub at_context : Pool.at fs.contexts ctx ≡ some context
  pub descriptors_free : List ℕ
  pub descriptors_inv : Inv descriptors_len context.descriptors descriptors_free
  pub file_handle : ℕ
  pub at_descriptor : Pool.at context.descriptors fd ≡ some file_handle
  pub files_free : List ℕ
  pub files_inv : Inv small_len fs.opened_files files_free
  pub file : OpenedFile
  pub at_file : Pool.at fs.opened_files file_handle ≡ some file
  pub device : Device
  pub at_device : Pool.at fs.drivers file.device ≡ some device
  pub drives : has_driver device.driver ≡ true

-- The descriptor is gone; the other descriptors of the context, and the other contexts, are as they were.
pub record Dropped (fs : Fs) (ctx fd : ℕ) (o : Opened fs ctx fd) (fs' : Fs) : Type 0 where
  pub descriptors : Pool ℕ
  pub emptied : Emptied o.context.descriptors fd descriptors
  pub contexts : Filled fs.contexts ctx (record { descriptors = descriptors }) fs'.contexts

-- What the driver of the file has answered, and left behind. A driver of elsewhere is called with its
-- handle, once, if it has a `close`; without one the answer is 0. The file system's own driver frees the
-- slot that it had for the file, and answers 0.
pub data Answered (table : ℕ → Driver) (file : OpenedFile) (calls calls' : List (ℕ × ℤ))
    (files files' : Pool LocallyOpenedFile) : DriverRef → ℤ → Type 0 where
  no_close :
      (d : ℕ)
      → (table d).close ≡ none
      → calls' ≡ calls
      → files' ≡ files
      → Answered table file calls calls' files files' (foreign d) (pos 0)
  closed_by :
      (d : ℕ) (close : ℤ → ℤ)
      → (table d).close ≡ some close
      → calls' ≡ calls ++ (file.device, file.device_local_handle) ∷ []
      → files' ≡ files
      → Answered table file calls calls' files files' (foreign d) (close file.device_local_handle)
  closed_locally :
      Emptied files (index_of file.device_local_handle) files'
      → calls' ≡ calls
      → Answered table file calls calls' files files' local (pos 0)

-- One of several descriptors: the count is one less, and no driver is called.
pub record ClosedShared (fs : Fs) (ctx fd : ℕ) (o : Opened fs ctx fd) (r : ℤ) (fs' : Fs)
    : Type 0 where
  pub several : 1 < o.file.ref_count
  pub zero_returned : r ≡ pos 0
  pub dropped : Dropped fs ctx fd o fs'
  pub counted :
      Filled fs.opened_files o.file_handle
        (record o.file { ref_count = o.file.ref_count - 1 })
        fs'.opened_files
  pub not_called : fs'.closed ≡ fs.closed
  pub not_local : fs'.locally_opened_files ≡ fs.locally_opened_files

-- The last descriptor: the slot of the file is empty, and the driver has answered.
pub record ClosedLast (table : ℕ → Driver) (fs : Fs) (ctx fd : ℕ) (o : Opened fs ctx fd) (r : ℤ)
    (fs' : Fs) : Type 0 where
  pub only : o.file.ref_count ≡ 1
  pub dropped : Dropped fs ctx fd o fs'
  pub emptied : Emptied fs.opened_files o.file_handle fs'.opened_files
  pub answered :
      Answered table o.file fs.closed fs'.closed fs.locally_opened_files fs'.locally_opened_files
        o.device.driver r

-- The state in which the driver is called for the last descriptor: that is gone, and the file has none.
record Undescribed (table : ℕ → Driver) (fs : Fs) (ctx fd : ℕ) (o : Opened fs ctx fd) : Type 0 where
  contexts : Pool Context
  files : Pool OpenedFile
  dropped : Dropped fs ctx fd o (record fs { contexts = contexts; opened_files = files })
  left : Pool OpenedFile
  freed : Pool.erase files o.file_handle ≡ some left
  emptied : Emptied fs.opened_files o.file_handle left
  -- What the call of the driver answers, when it leaves the opened files alone, is given back.
  closes :
      (fs' : Fs) (r : ℤ)
      → call_close table o.device.driver o.file.device o.file.device_local_handle
          (record fs { contexts = contexts; opened_files = files })
        ≡ some (r, fs')
      → fs'.opened_files ≡ files
      → vfs_close table ctx fd fs ≡ some (r, record fs' { opened_files = left })

module _ (table : ℕ → Driver) (fs : Fs) (ctx fd : ℕ) (o : Opened fs ctx fd) where
  without_descriptor :
      (ds : Pool ℕ) × (cs : Pool Context) × (Pool.erase o.context.descriptors fd ≡ some ds)
      × (Pool.store_at fs.contexts ctx (record { descriptors = ds }) ≡ some cs)
      × Emptied o.context.descriptors fd ds
      × Filled fs.contexts ctx (record { descriptors = ds }) cs
  without_descriptor =
      let (ds, _, gone, _, emptied, _) =
        erase-Emptied descriptors_len o.context.descriptors o.descriptors_free o.descriptors_inv fd
          (valid_at descriptors_len o.context.descriptors o.descriptors_free o.descriptors_inv fd
            o.file_handle o.at_descriptor) in
      let (cs, stored, _, contexts, _) =
        store_at-Filled small_len fs.contexts ctx (record { descriptors = ds }) o.contexts_free
          o.contexts_inv
          (valid_at small_len fs.contexts o.contexts_free o.contexts_inv ctx o.context
            o.at_context) in
      (ds, cs, gone, stored, emptied, contexts)

  -- Closing one of several descriptors.
  vfs_close-shared :
      1 < o.file.ref_count
      → (fs' : Fs) × (vfs_close table ctx fd fs ≡ some (pos 0, fs'))
        × ClosedShared fs ctx fd o (pos 0) fs'
  unfolding vfs_close
  vfs_close-shared more =
      let (ds, cs, gone, stored, emptied, contexts) = without_descriptor in
      let less : OpenedFile = record o.file { ref_count = o.file.ref_count - 1 } in
      let (files, kept, files_inv, filled, _) =
        store_at-Filled small_len fs.opened_files o.file_handle less o.files_free o.files_inv (
          valid_at small_len fs.opened_files o.files_free o.files_inv o.file_handle o.file
            o.at_file) in
      (
        record fs { contexts = cs; opened_files = files },
        rw
            (
              o.at_context,
              o.at_descriptor,
              o.at_file,
              o.at_device,
              o.drives,
              gone,
              stored,
              kept,
              ne→==_false o.file.ref_count 1 (omega (arith, more)),
            )
            refl,
        record {
          several = more;
          zero_returned = refl;
          dropped = record { descriptors = ds; emptied = emptied; contexts = contexts };
          counted = filled;
          not_called = refl;
          not_local = refl;
        },
      )

  freed_slot :
      (files : Pool OpenedFile) (less : OpenedFile) (j : ℕ)
      → Pool.at files j ≡ (if o.file_handle == j then some less else Pool.at fs.opened_files j)
      → (if o.file_handle == j then none else Pool.at files j)
        ≡ (if o.file_handle == j then none else Pool.at fs.opened_files j)
  freed_slot files less j e = elim (Bool-cases (o.file_handle == j)) [
    | inl q ↦ rw q refl
    | inr n ↦ rw n (rw n at e)
  ]

  vfs_close-last : o.file.ref_count ≡ 1 → Undescribed table fs ctx fd o
  unfolding vfs_close
  vfs_close-last last =
      let (ds, cs, gone, stored, emptied, contexts) = without_descriptor in
      let less : OpenedFile = record o.file { ref_count = o.file.ref_count - 1 } in
      let (files, kept, files_inv, filled, _) =
        store_at-Filled small_len fs.opened_files o.file_handle less o.files_free o.files_inv (
          valid_at small_len fs.opened_files o.files_free o.files_inv o.file_handle o.file
            o.at_file) in
      let at_less : Pool.at files o.file_handle ≡ some less =
        filled o.file_handle ∙ rw ((==_iff o.file_handle o.file_handle).1 refl) refl in
      let (left, _, freed, _, emptied', _) =
        erase-Emptied small_len files o.files_free files_inv o.file_handle
          (valid_at small_len files o.files_free files_inv o.file_handle less at_less) in
      record {
        contexts = cs;
        files = files;
        dropped = record { descriptors = ds; emptied = emptied; contexts = contexts };
        left = left;
        freed = freed;
        emptied = λ j. emptied' j ∙ freed_slot files less j (filled j);
        closes = λ fs' r called same.
            rw
              (
                o.at_context,
                o.at_descriptor,
                o.at_file,
                o.at_device,
                o.drives,
                gone,
                stored,
                kept,
                (==_iff o.file.ref_count 1).1 last,
                called,
                same,
                freed,
              )
              refl;
      }

  -- The call of a driver in any state with the same files that it has opened for itself.
  called :
      (driver : DriverRef) (local_free : List ℕ) (fs1 : Fs)
      → has_driver driver ≡ true
      → (driver ≡ local
          → Inv small_len fs1.locally_opened_files local_free
            × (Pool.valid fs1.locally_opened_files (index_of o.file.device_local_handle) ≡ true))
      → (r : ℤ) × (fs' : Fs) × (call_close table driver o.file.device o.file.device_local_handle fs1
          ≡ some (r, fs'))
        × (fs'.opened_files ≡ fs1.opened_files)
        × (fs'.contexts ≡ fs1.contexts)
        × Answered table o.file fs1.closed fs'.closed fs1.locally_opened_files
            fs'.locally_opened_files driver r
  unfolding call_close close_locally
  called null local_free fs1 h own = cc
  called local local_free fs1 h own =
      let (inv, there) = own refl in
      let (files, _, e, _, emptied, _) =
        erase-Emptied small_len fs1.locally_opened_files local_free inv
          (index_of o.file.device_local_handle) there in
      (
        pos 0,
        record fs1 { locally_opened_files = files },
        rw e refl,
        refl,
        refl,
        closed_locally emptied refl,
      )
  called (foreign d) local_free fs1 h own = elim (Option-cases (table d).close) [
    | inl e ↦ (pos 0, fs1, rw e refl, refl, refl, no_close d e refl refl)
    | inr (close, e) ↦ (
      close o.file.device_local_handle,
      record fs1 { closed = fs1.closed ++ (o.file.device, o.file.device_local_handle) ∷ [] },
      rw e refl,
      refl,
      refl,
      closed_by d close e refl refl,
    )
  ]

-- In pools that keep their invariants, closing an open descriptor, of a file with a count above 0 and
-- of a device with a driver, succeeds; the file system's own driver must have a slot for the handle.
-- One of several descriptors takes one off the count of the file, and no driver is called. The last
-- one has the driver close its handle, gives back what that answers, and frees the slot of the file.
-- The descriptor is gone, and other descriptors, contexts and files are as they were.
pub vfs_close-Dropped :
    (table : ℕ → Driver) (fs : Fs) (ctx fd : ℕ) (o : Opened fs ctx fd) (local_free : List ℕ)
    → 0 < o.file.ref_count
    → (o.device.driver ≡ local
        → Inv small_len fs.locally_opened_files local_free
          × (Pool.valid fs.locally_opened_files (index_of o.file.device_local_handle) ≡ true))
    → (r : ℤ) × (fs' : Fs) × (vfs_close table ctx fd fs ≡ some (r, fs'))
      × (ClosedShared fs ctx fd o r fs' ⊎ ClosedLast table fs ctx fd o r fs')
vfs_close-Dropped table fs ctx fd o local_free counted own = elim (dec_lt 1 o.file.ref_count) [
  | yes more ↦ let (fs', e, c) = vfs_close-shared table fs ctx fd o more in (pos 0, fs', e, inl c)
  | no few ↦
      let only : o.file.ref_count ≡ 1 = omega (arith, counted, few) in
      let u = vfs_close-last table fs ctx fd o only in
      let fs1 : Fs = record fs { contexts = u.contexts; opened_files = u.files } in
      let (r, fs', e, files, contexts, a) =
        called table fs ctx fd o o.device.driver local_free fs1 o.drives own in
      (
        r,
        record fs' { opened_files = u.left },
        u.closes fs' r e files,
        inr (record {
          only = only;
          dropped = record {
            descriptors = u.dropped.descriptors;
            emptied = u.dropped.emptied;
            contexts =
                subst
                  (λ c. Filled fs.contexts ctx (record { descriptors = u.dropped.descriptors }) c)
                  (sym contexts) u.dropped.contexts;
          };
          emptied = u.emptied;
          answered = a;
        }),
      )
]
