-- ===== src/Kernel/Filesystem/Tests.antt =====
-- A root directory with an empty directory "a" in it, and a context with one file open.
use peos.Prelude.{
  ℕ, ◌<◌, ◌≡◌, ◌≢◌, ◌⊎◌, refl, none, some, List, [], ◌∷◌, arith, ◌==◌, if◌then◌else◌,
}
use peos.Prelude.Int.{ℤ, pos}
use peos.Support.Pool.{Pool, end_sentinel, fresh, empty_pool}
use peos.Support.Pool
use peos.Support.Pool.Inv.{Inv}
use peos.Kernel.Filesystem.{
  null, local, Fs, Dirent, foreign, OpenedFile, nodes_len, directories_len, small_len,
  descriptors_len, string32, equal, find_dirent, vfs_add_dirent, vfs_lookup, vfs_lookup_aux,
  find_in,
}
use peos.Kernel.Filesystem.Names.{Directory, vfs_add_dirent-find}
use peos.Kernel.Filesystem.Paths.{AllSegments, Leads, arrived, onward, vfs_lookup-Leads}
use peos.Kernel.Filesystem.Files.{Driver, vfs_close}
use peos.Kernel.Filesystem.Closing.{Opened, ClosedShared, ClosedLast, vfs_close-Dropped}

abbrev two {ℓ} : {A : Type ℓ} → A → A → Pool A
two a b = record {
  nodes = λ i. fresh (some (if i == 0 then a else b));
  watermark = 2;
  free_list_head = end_sentinel;
  free_list_tail = end_sentinel;
  count = 2;
}

two-Inv {ℓ} :
    {A : Type ℓ} (capacity : ℕ) (a b : A)
    → 2 < capacity
    → capacity < end_sentinel
    → Inv capacity (two a b) []
two-Inv capacity a b lo hi = record {
  linked = refl;
  tail_last = refl;
  distinct = tt;
  below = tt;
  bounded = omega arith;
  indexed = omega arith;
  counted = refl;
  taken = λ i lt _. (refl, refl, ((if i == 0 then a else b), refl));
}

abbrev in_root : Dirent
in_root = record { name = 97 ∷ []; node = 1; next_dirent = end_sentinel }

abbrev unlinked : Dirent
unlinked = record { name = 98 ∷ []; node = 1; next_dirent = end_sentinel }

abbrev shared : OpenedFile
shared = record { device = 0; device_local_handle = pos 3; flags = 0; ref_count = 2 }

abbrev own : OpenedFile
own = record { device = 0; device_local_handle = pos 4; flags = 0; ref_count = 1 }

abbrev tree : Fs
tree = record {
  nodes = two (record { type = 1; info_node = 0 }) (record { type = 1; info_node = end_sentinel });
  directories = two in_root unlinked;
  drivers =
      two (record { driver = foreign 5; opaque = 0 }) (record { driver = foreign 6; opaque = 0 });
  root_dir = 0;
  contexts = two (record { descriptors = two 0 1 }) (record { descriptors = two 0 1 });
  opened_files = two shared own;
  locally_opened_files = empty_pool;
  local_driver_handle = 9;
  closed = [];
}

root-Directory : Directory tree 0 ((0, in_root) ∷ [])
unfolding Pool.at Pool.valid
root-Directory = record {
  node = record { type = 1; info_node = 0 };
  found = refl;
  is_directory = refl;
  entries = (refl, omega arith, refl, refl);
  short = omega arith;
}

vfs_add_dirent-find_example :
    (fs' : Fs) × (new : Dirent) × (vfs_add_dirent 0 (99 ∷ []) 1 tree ≡ some (tt, fs'))
    × (new.node ≡ 1)
    × ((n : List ℕ)
        → find_dirent fs' 0 n
          ≡ (if equal n (string32 31 (99 ∷ [])) then some (some new) else find_dirent tree 0 n))
    × ((other : ℕ) (es' : List (ℕ × Dirent)) (n : List ℕ)
        → other ≢ 0
        → Directory tree other es'
        → find_dirent fs' other n ≡ find_dirent tree other n)
unfolding Pool.size
vfs_add_dirent-find_example =
    vfs_add_dirent-find tree 0 ((0, in_root) ∷ []) [] [] (99 ∷ []) 1 root-Directory
      (two-Inv nodes_len _ _ (omega arith) (omega arith))
      (two-Inv directories_len in_root unlinked (omega arith) (omega arith)) (omega arith)
      (omega arith)

one_segment : AllSegments ((97 ∷ []) ∷ [])
one_segment = (((λ e. cc e), refl), tt)

tree-Leads : Leads tree 0 ((97 ∷ []) ∷ []) 1
tree-Leads = onward 0 (97 ∷ []) [] ((0, in_root) ∷ []) in_root 1 root-Directory refl (arrived 1)

vfs_lookup-Leads_example : vfs_lookup tree (47 ∷ 97 ∷ []) ≡ some 1
vfs_lookup-Leads_example = vfs_lookup-Leads tree ((97 ∷ []) ∷ []) 1 one_segment tree-Leads

finds_a : vfs_lookup tree (47 ∷ 97 ∷ []) ≡ some 1
unfolding vfs_lookup vfs_lookup_aux find_dirent find_in Pool.at Pool.valid
finds_a = refl

own_opened : Opened tree 0 1
unfolding Pool.at Pool.valid
own_opened = record {
  contexts_free = [];
  contexts_inv = two-Inv small_len _ _ (omega arith) (omega arith);
  context = record { descriptors = two 0 1 };
  at_context = refl;
  descriptors_free = [];
  descriptors_inv = two-Inv descriptors_len 0 1 (omega arith) (omega arith);
  file_handle = 1;
  at_descriptor = refl;
  files_free = [];
  files_inv = two-Inv small_len shared own (omega arith) (omega arith);
  file = own;
  at_file = refl;
  device = record { driver = foreign 5; opaque = 0 };
  at_device = refl;
  drives = refl;
}

abbrev echo : ℕ → Driver
echo d = record {
  write = none;
  read = none;
  open_ = none;
  close = some (λ handle. handle);
  control = none;
  seek = none;
  mkdir = none;
}

not_local : foreign 5 ≡ local → ⊥
not_local e = cc

vfs_close-Dropped_example :
    (r : ℤ) × (fs' : Fs) × (vfs_close echo 0 1 tree ≡ some (r, fs'))
    × (ClosedShared tree 0 1 own_opened r fs' ⊎ ClosedLast echo tree 0 1 own_opened r fs')
unfolding own_opened
vfs_close-Dropped_example =
    vfs_close-Dropped echo tree 0 1 own_opened [] (omega arith) (λ e. absurd (not_local e))

-- A device with no driver cannot be closed.
undriven :
    vfs_close echo 0 1 (record tree {
      drivers = two (record { driver = null; opaque = 0 }) (record { driver = null; opaque = 0 });
    })
    ≡ none
unfolding vfs_close Pool.at Pool.valid
undriven = refl
