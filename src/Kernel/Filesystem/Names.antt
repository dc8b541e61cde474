-- ===== src/Kernel/Filesystem/Names.antt =====
-- Adding an entry to a directory, and finding entries.

use peos.Prelude.{
  ℕ, zero, suc, ◌^◌, ◌<◌, ◌≡◌, ◌≢◌, refl, ap, sym, ◌∙◌, Bool, true, false, Option, none, some, List,
  [], ◌∷◌, arith, length, if◌then◌else◌, Bool-cases, inl, inr, ==_iff, ne→==_false,
}
use peos.Support.Pool.{Pool, end_sentinel}
use peos.Support.Pool
use peos.Support.Pool.Inv.{Inv, valid_at, valid_iff}
use peos.Support.Pool.Emplace.{Filled, emplace_anywhere-Filled}
use peos.Support.Pool.Store.{store_at-Filled}
use peos.Kernel.Filesystem.{
  Fs, Node, Dirent, nodes_len, directories_len, vfs_directory, string32, equal, find_in,
  find_dirent, vfs_add_dirent,
}

-- From an index on, the entries of a directory, in order.
abbrev pub Entries : Pool Dirent → ℕ → List (ℕ × Dirent) → Type 0
Entries ds idx [] = idx ≡ end_sentinel
Entries ds idx ((i, d) ∷ es) =
    (idx ≡ i) × (i < end_sentinel) × (Pool.at ds i ≡ some d) × Entries ds d.next_dirent es

-- The first entry of the name.
abbrev pub first_of : List ℕ → List (ℕ × Dirent) → Option Dirent
first_of name [] = none
first_of name ((i, d) ∷ es) = if equal name d.name then some d else first_of name es

find_in-first :
    (fuel : ℕ) (ds : Pool Dirent) (idx : ℕ) (name : List ℕ) (es : List (ℕ × Dirent))
    → Entries ds idx es
    → length es < fuel
    → find_in fuel ds idx name ≡ some (first_of name es)
unfolding find_in
find_in-first zero ds idx name es e le = absurd (omega arith)
find_in-first (suc fuel) ds idx name [] e le = rw ((==_iff idx end_sentinel).1 e) refl
find_in-first (suc fuel) ds idx name ((i, d) ∷ es) e le =
    let here : Pool.at ds idx ≡ some d = ap (Pool.at ds) e.0 ∙ e.2 in
    let later = find_in-first fuel ds d.next_dirent name es e.3 (omega arith) in
    rw (ne→==_false idx end_sentinel (omega (arith, e.0, e.1)), here)
      (elim (Bool-cases (equal name d.name)) [ inl q ↦ rw q refl | inr n ↦ rw n later ])

-- A directory node with its entries.
pub record Directory (fs : Fs) (dir : ℕ) (es : List (ℕ × Dirent)) : Type 0 where
  pub node : Node
  pub found : Pool.at fs.nodes dir ≡ some node
  pub is_directory : node.type ≡ vfs_directory
  pub entries : Entries fs.directories node.info_node es
  pub short : length es < 2 ^ 16

-- What is found in a directory is the first entry of the name, if there is one.
pub find_dirent-first :
    (fs : Fs) (dir : ℕ) (es : List (ℕ × Dirent)) (name : List ℕ)
    → Directory fs dir es
    → find_dirent fs dir name ≡ some (first_of name es)
unfolding find_dirent
find_dirent-first fs dir es name v =
    rw (v.found, (==_iff v.node.type vfs_directory).1 v.is_directory)
      (find_in-first (2 ^ 16) fs.directories v.node.info_node name es v.entries v.short)

equal_refl : (s : List ℕ) → equal s s ≡ true
equal_refl [] = refl
equal_refl (c ∷ cs) = rw ((==_iff c c).1 refl) (equal_refl cs)

-- The entries stay when a slot that held nothing is filled.
Entries-Filled :
    (ds ds' : Pool Dirent) (i : ℕ) (d : Dirent) (idx : ℕ) (es : List (ℕ × Dirent))
    → Pool.at ds i ≡ none
    → Filled ds i d ds'
    → Entries ds idx es
    → Entries ds' idx es
Entries-Filled ds ds' i d idx [] e f es = es
Entries-Filled ds ds' i d idx ((k, x) ∷ rest) e f es = (
  es.0,
  es.1,
  f k ∙ rw (ne→==_false i k (λ q. cc (e, es.2, ap (Pool.at ds) q))) es.2,
  Entries-Filled ds ds' i d x.next_dirent rest e f es.3,
)

-- Adding an entry to a directory, with room for one. Afterwards the name, as far as an entry keeps it, is
-- found there, also if there was an entry of that name; every other name is found as before in this
-- directory, and every name in every other directory.
pub vfs_add_dirent-find :
    (fs : Fs) (dir : ℕ) (es : List (ℕ × Dirent)) (nfree dfree : List ℕ) (name : List ℕ) (node : ℕ)
    → Directory fs dir es
    → Inv nodes_len fs.nodes nfree
    → Inv directories_len fs.directories dfree
    → Pool.size fs.directories < directories_len
    → suc (length es) < 2 ^ 16
    → (fs' : Fs) × (new : Dirent) × (vfs_add_dirent dir name node fs ≡ some (tt, fs'))
      × (new.node ≡ node)
      × ((n : List ℕ)
          → find_dirent fs' dir n
            ≡ (if equal n (string32 31 name) then some (some new) else find_dirent fs dir n))
      × ((other : ℕ) (es' : List (ℕ × Dirent)) (n : List ℕ)
          → other ≢ dir
          → Directory fs other es'
          → find_dirent fs' other n ≡ find_dirent fs other n)
unfolding vfs_add_dirent
vfs_add_dirent-find fs dir es nfree dfree name node v ninv dinv room short =
    let new : Dirent = record {
      name = string32 31 name;
      node = node;
      next_dirent = v.node.info_node;
    } in
    let (i, ds, dfree', added, dinv', empty, filled, _) =
      emplace_anywhere-Filled directories_len fs.directories new dfree dinv room in
    let parent' : Node = record v.node { info_node = i } in
    let (ns, stored, ninv', kept, _) =
      store_at-Filled nodes_len fs.nodes dir parent' nfree ninv
        (valid_at nodes_len fs.nodes nfree ninv dir v.node v.found) in
    let fs' : Fs = record fs { directories = ds; nodes = ns } in
    let at_i : Pool.at ds i ≡ some new = filled i ∙ rw ((==_iff i i).1 refl) refl in
    let small : i < end_sentinel = omega (
      arith,
      ((valid_iff directories_len ds dfree' dinv' i).0
          (valid_at directories_len ds dfree' dinv' i new at_i)).0,
      dinv'.bounded,
    ) in
    let here : Directory fs' dir ((i, new) ∷ es) = record {
      node = parent';
      found = kept dir ∙ rw ((==_iff dir dir).1 refl) refl;
      is_directory = v.is_directory;
      entries = (
        refl,
        small,
        at_i,
        Entries-Filled fs.directories ds i new v.node.info_node es empty filled v.entries,
      );
      short = short;
    } in
    (
      fs',
      new,
      rw (v.found, (==_iff v.node.type vfs_directory).1 v.is_directory, added, stored) refl,
      refl,
      λ n.
          find_dirent-first fs' dir ((i, new) ∷ es) n here
          ∙ by_name new n (equal n (string32 31 name)) (find_dirent-first fs dir es n v),
      λ other es' n ne w.
          find_dirent-first fs' other es' n (record {
            node = w.node;
            found = kept other ∙ rw (ne→==_false dir other (λ q. ne (sym q))) w.found;
            is_directory = w.is_directory;
            entries =
                Entries-Filled fs.directories ds i new w.node.info_node es' empty filled w.entries;
            short = w.short;
          })
          ∙ sym (find_dirent-first fs other es' n w),
    )
  where
    by_name :
        (new : Dirent) (n : List ℕ) (b : Bool)
        → find_dirent fs dir n ≡ some (first_of n es)
        → ◌≡◌ {A = Option (Option Dirent)}
            (some (if b then some new else first_of n es))
            (if b then some (some new) else find_dirent fs dir n)
    by_name new n true e = refl
    by_name new n false e = sym e
