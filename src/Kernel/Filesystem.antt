-- ===== src/Kernel/Filesystem.antt =====
-- kernel/filesystem.h, kernel/filesystem_private.h and kernel/filesystem.cc: the tree of nodes, its
-- directories, and looking paths up in it. A C string is the list of its characters, without the final
-- zero. `none` is a failed assertion, an access outside a pool, or a directory list that does not end.
pub mod Names
pub mod Paths
pub mod Files
pub mod Closing
mod Tests
use Prim.Native.Nat.{bit_and}
use peos.Prelude.{
  ℕ, zero, suc, ◌+◌, ◌%◌, ◌^◌, Bool, true, false, not, ◌&&◌, Option, none, some, List, [], ◌∷◌,
  length, ltb, ◌==◌, min, take, if◌then◌else◌,
}
use peos.Prelude.Bits.{has}
use peos.Prelude.Fault
use peos.Prelude.Int.{ℤ, pos}
use peos.Prelude.Stateful.{Action}
pub use peos.Prelude.Stateful.{◌>>=◌, ◌>>◌, pure, lift, assert, fault, get, modify}
use peos.Support.Pool.{Pool, end_sentinel}
use peos.Support.Pool

-- `vfs_node`: a type, and an index into what the type says.
pub record Node : Type 0 where
  pub type : ℕ
  pub info_node : ℕ

pub record Dirent : Type 0 where
  pub name : List ℕ
  pub node : ℕ
  pub next_dirent : ℕ

-- A `vfs_device_driver *`: none, the driver of the tree itself, or another.
pub data DriverRef : Type 0 where
  null : DriverRef
  local : DriverRef
  foreign : (driver : ℕ) → DriverRef

pub record Device : Type 0 where
  pub driver : DriverRef
  pub opaque : ℕ

-- The count is of the descriptors that refer to the file, so it is at least one.
pub record OpenedFile : Type 0 where
  pub device : ℕ
  pub device_local_handle : ℤ
  pub flags : ℕ
  pub ref_count : ℕ

pub record LocallyOpenedFile : Type 0 where
  pub node : ℕ
  pub position : ℕ

pub record Context : Type 0 where
  pub descriptors : Pool ℕ

pub record Fs : Type 0 where
  pub nodes : Pool Node
  pub directories : Pool Dirent
  pub drivers : Pool Device
  pub root_dir : ℕ
  pub contexts : Pool Context
  pub opened_files : Pool OpenedFile
  pub locally_opened_files : Pool LocallyOpenedFile
  pub local_driver_handle : ℕ
  -- The calls of `close` of the other drivers, the newest last.
  pub closed : List (ℕ × ℤ)

-- The template arguments of the pools.
abbrev pub nodes_len : ℕ
nodes_len = 256

abbrev pub directories_len : ℕ
directories_len = 256

abbrev pub small_len : ℕ
small_len = 64

abbrev pub descriptors_len : ℕ
descriptors_len = 16

abbrev pub M : Type 0 → Type 0
M A = Action Fs A

abbrev pub vfs_directory : ℕ
vfs_directory = 0x01

abbrev pub vfs_driver : ℕ
vfs_driver = 0x02

abbrev pub vfs_filesystem : ℕ
vfs_filesystem = 0x23

abbrev pub slash : ℕ
slash = 47

-- `p2::string<32>` of the first `n` characters: the object holds 31 at most.
abbrev pub string32 : ℕ → List ℕ → List ℕ
string32 n s = take (min n 31) s

abbrev pub equal : List ℕ → List ℕ → Bool
equal [] [] = true
equal [] (y ∷ ys) = false
equal (x ∷ xs) [] = false
equal (x ∷ xs) (y ∷ ys) = (x == y) && equal xs ys

unfoldable pub vfs_create_node : ℕ → M ℕ
vfs_create_node type = do
  fs ← get
  (h, nodes) ←
      lift (
        Pool.emplace_anywhere nodes_len fs.nodes (record { type = type; info_node = end_sentinel }))
  modify (λ fs. record fs { nodes = nodes })
  pure h

-- The new entry becomes the first of the directory.
unfoldable pub vfs_add_dirent : ℕ → List ℕ → ℕ → M (Unit {0})
vfs_add_dirent dir_node name node = do
  fs ← get
  parent ← lift (Pool.at fs.nodes dir_node)
  assert (parent.type == vfs_directory)
  (h, directories) ← lift (
      Pool.emplace_anywhere directories_len fs.directories
        (record { name = string32 31 name; node = node; next_dirent = parent.info_node }))
  nodes ← lift (Pool.store_at fs.nodes dir_node (record parent { info_node = h }))
  modify (λ fs. record fs { directories = directories; nodes = nodes })

unfoldable pub vfs_set_driver : ℕ → DriverRef → ℕ → M (Unit {0})
vfs_set_driver driver_node driver opaque = do
  fs ← get
  node ← lift (Pool.at fs.nodes driver_node)
  assert (has node.type vfs_driver)
  (h, drivers) ←
      lift
        (Pool.emplace_anywhere small_len fs.drivers (record { driver = driver; opaque = opaque }))
  nodes ← lift (Pool.store_at fs.nodes driver_node (record node { info_node = h }))
  modify (λ fs. record fs { drivers = drivers; nodes = nodes })

unfoldable pub vfs_init : M (Unit {0})
vfs_init = do
  root ← vfs_create_node vfs_directory
  modify (λ fs. record fs { root_dir = root })
  h ← vfs_create_node vfs_filesystem
  modify (λ fs. record fs { local_driver_handle = h })
  vfs_set_driver h local 0

-- The loop of `find_dirent`. A list without a cycle has fewer than `2 ^ 16` entries.
unfoldable pub find_in : ℕ → Pool Dirent → ℕ → List ℕ → Option (Option Dirent)
find_in zero directories dirent_idx name = none
find_in (suc fuel) directories dirent_idx name =
    if dirent_idx == end_sentinel
    then some none
    else (Fault.◌>>=◌ (Pool.at directories dirent_idx) (λ dirent.
        let rest = find_in fuel directories dirent.next_dirent name in
        if equal name dirent.name then some (some dirent) else rest))

unfoldable pub find_dirent : Fs → ℕ → List ℕ → Option (Option Dirent)
find_dirent fs dir_node name = Fault.◌>>=◌ (Pool.at fs.nodes dir_node) (λ node.
    Fault.◌>>◌ (Fault.assert (node.type == vfs_directory))
      (find_in (2 ^ 16) fs.directories node.info_node name))

abbrev pub on_found {ℓ κ} : {A : Type ℓ} {B : Type κ} → B → (A → B) → Option A → B
on_found missing found none = missing
on_found missing found (some a) = found a

-- What `strchr` of a slash separates: the characters before it, and those from it on.
abbrev pub before_slash : List ℕ → List ℕ
before_slash [] = []
before_slash (c ∷ cs) = if c == slash then [] else c ∷ before_slash cs

abbrev pub from_slash : List ℕ → List ℕ
from_slash [] = []
from_slash (c ∷ cs) = if c == slash then c ∷ cs else from_slash cs

-- The empty path, and a slash alone.
abbrev pub is_parent : List ℕ → Bool
is_parent [] = true
is_parent (c ∷ []) = c == slash
is_parent (c ∷ d ∷ cs) = false

abbrev pub starts_with_slash : List ℕ → Bool
starts_with_slash [] = false
starts_with_slash (c ∷ cs) = c == slash

abbrev pub tail : List ℕ → List ℕ
tail [] = []
tail (c ∷ cs) = cs

-- The segment of a path behind its first slash, as `find_dirent` takes it.
abbrev pub segment_of : List ℕ → List ℕ
segment_of path = let seg = before_slash (tail path) in string32 (length seg) seg

-- The recursion is on a count of characters, which the path does not outlast.
unfoldable pub vfs_lookup_aux : ℕ → Fs → ℕ → List ℕ → Option ℕ
vfs_lookup_aux zero fs parent path = none
vfs_lookup_aux (suc fuel) fs parent path =
    if is_parent path
    then some parent
    else (if not (starts_with_slash path)
        then some end_sentinel
        else (Fault.◌>>=◌ (find_dirent fs parent (segment_of path)) (
            on_found (some end_sentinel)
              (λ dirent. vfs_lookup_aux fuel fs dirent.node (from_slash (tail path))))))

unfoldable pub vfs_lookup : Fs → List ℕ → Option ℕ
vfs_lookup fs path = vfs_lookup_aux (suc (length path)) fs fs.root_dir path

-- The first node with a driver on the way, and the rest of the path.
unfoldable pub find_first_driver_aux : ℕ → Fs → ℕ → List ℕ → Option (Option (ℕ × List ℕ))
find_first_driver_aux zero fs parent_idx path = none
find_first_driver_aux (suc fuel) fs parent_idx path =
    Fault.◌>>=◌ (Pool.at fs.nodes parent_idx) (λ node.
      if has node.type vfs_driver
      then some (some (parent_idx, path))
      else (if is_parent path
          then some none
          else (if not (starts_with_slash path)
              then some none
              else (Fault.◌>>=◌ (find_dirent fs parent_idx (segment_of path)) (
                  on_found (some none) (λ dirent.
                    find_first_driver_aux fuel fs dirent.node (from_slash (tail path))))))))

unfoldable pub find_first_driver : Fs → List ℕ → Option (ℕ × List ℕ)
find_first_driver fs path =
    Fault.◌>>=◌ (find_first_driver_aux (suc (length path)) fs fs.root_dir path) or_local
  where
    or_local : Option (ℕ × List ℕ) → Option (ℕ × List ℕ)
    or_local none = some (fs.local_driver_handle, path)
    or_local (some found) = some found
