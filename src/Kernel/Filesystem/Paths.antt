-- ===== src/Kernel/Filesystem/Paths.antt =====
-- A path is looked up segment by segment.
use peos.Prelude.{
  ℕ, zero, suc, ◌<◌, ◌≡◌, ◌≢◌, refl, ap, false, ◌∙◌, Option, none, some, List, [], ◌∷◌, ◌++◌, arith,
  length, length-append, ◌==◌, Bool-cases, inl, inr, fun_ext,
}
use peos.Prelude.Fault
use peos.Support.Pool.{end_sentinel}
use peos.Kernel.Filesystem.Names.{Directory, first_of, find_dirent-first}
use peos.Kernel.Filesystem.{
  Fs, Dirent, find_dirent, vfs_lookup, vfs_lookup_aux, slash, string32, before_slash, from_slash,
  is_parent, tail, on_found,
}

-- A segment without a slash, and not empty.
abbrev pub IsSegment : List ℕ → Type 0
IsSegment s = (s ≢ []) × (before_slash s ≡ s)

abbrev pub AllSegments : List (List ℕ) → Type 0
AllSegments [] = Unit {0}
AllSegments (s ∷ ss) = IsSegment s × AllSegments ss

-- The path of segments, each after a slash.
abbrev pub path_of : List (List ℕ) → List ℕ
path_of [] = []
path_of (s ∷ ss) = slash ∷ (s ++ path_of ss)

-- From a directory to the entry of the first segment, and on from its node.
abbrev walk : Fs → ℕ → List (List ℕ) → Option ℕ
walk fs parent [] = some parent
walk fs parent (s ∷ ss) =
    Fault.◌>>=◌ (find_dirent fs parent (string32 (length s) s))
      (on_found (some end_sentinel) (λ dirent. walk fs dirent.node ss))

before-append :
    (s : List ℕ) (ss : List (List ℕ))
    → before_slash s ≡ s
    → (before_slash (s ++ path_of ss) ≡ s) × (from_slash (s ++ path_of ss) ≡ path_of ss)
before-append [] [] e = (refl, refl)
before-append [] (t ∷ ts) e = (refl, refl)
before-append (c ∷ cs) ss e = elim (Bool-cases (c == slash)) [
  | inl q ↦ cc (rw q at e)
  | inr n ↦
      let (b, f) = before-append cs ss (ap tail (rw n at e)) in (rw n (ap (λ t. c ∷ t) b), rw n f)
]

not_parent : (s : List ℕ) (rest : List ℕ) → s ≢ [] → is_parent (slash ∷ (s ++ rest)) ≡ false
not_parent [] rest h = absurd (h refl)
not_parent (c ∷ cs) rest h = refl

lookup-walk :
    (fuel : ℕ) (fs : Fs) (parent : ℕ) (segments : List (List ℕ))
    → AllSegments segments
    → length (path_of segments) < fuel
    → vfs_lookup_aux fuel fs parent (path_of segments) ≡ walk fs parent segments
unfolding vfs_lookup_aux
lookup-walk zero fs parent segments all le = absurd (omega arith)
lookup-walk (suc fuel) fs parent [] all le = refl
lookup-walk (suc fuel) fs parent (s ∷ ss) all le =
    let (b, f) = before-append s ss all.0.1 in
    rw (not_parent s (path_of ss) all.0.0, b, f)
      (ap
        (λ (k : Dirent → Option ℕ).
          Fault.◌>>=◌ (find_dirent fs parent (string32 (length s) s))
            (on_found (some end_sentinel) k))
        (fun_ext
          λ d. lookup-walk fuel fs d.node ss all.1 (omega (arith, length-append s (path_of ss)))))

vfs_lookup-walk :
    (fs : Fs) (segments : List (List ℕ))
    → AllSegments segments
    → vfs_lookup fs (path_of segments) ≡ walk fs fs.root_dir segments
unfolding vfs_lookup
vfs_lookup-walk fs segments all =
    lookup-walk (suc (length (path_of segments))) fs fs.root_dir segments all (omega arith)

-- Where segments lead from a node, by the lists of entries of the directories on the way: the first entry
-- of the name is followed, and a name that is not there leads to `end_sentinel`.
pub data Leads (fs : Fs) : ℕ → List (List ℕ) → ℕ → Type 0 where
  arrived : (node : ℕ) → Leads fs node [] node
  missing :
      (dir : ℕ) (s : List ℕ) (ss : List (List ℕ)) (es : List (ℕ × Dirent))
      → Directory fs dir es
      → first_of (string32 (length s) s) es ≡ none
      → Leads fs dir (s ∷ ss) end_sentinel
  onward :
      (dir : ℕ) (s : List ℕ) (ss : List (List ℕ)) (es : List (ℕ × Dirent)) (d : Dirent) (r : ℕ)
      → Directory fs dir es
      → first_of (string32 (length s) s) es ≡ some d
      → Leads fs d.node ss r
      → Leads fs dir (s ∷ ss) r

walk-Leads :
    (fs : Fs) (dir : ℕ) (segments : List (List ℕ)) (r : ℕ)
    → Leads fs dir segments r
    → walk fs dir segments ≡ some r
walk-Leads fs dir segments r (arrived node) = refl
walk-Leads fs dir segments r (missing _ s ss es v e) =
    rw (find_dirent-first fs dir es (string32 (length s) s) v, e) refl
walk-Leads fs dir segments r (onward _ s ss es d _ v e l) =
    rw (find_dirent-first fs dir es (string32 (length s) s) v, e) (walk-Leads fs d.node ss r l)

-- Where the directories on the way have lists of fewer than 2^16 entries that end, the lookup of a
-- path of segments, not empty and without slashes, ends and gives the node that the segments lead to
-- from the root, or `end_sentinel` where a name is missing; of a segment, the first 31 characters
-- count.
pub vfs_lookup-Leads :
    (fs : Fs) (segments : List (List ℕ)) (r : ℕ)
    → AllSegments segments
    → Leads fs fs.root_dir segments r
    → vfs_lookup fs (path_of segments) ≡ some r
vfs_lookup-Leads fs segments r all l =
    vfs_lookup-walk fs segments all ∙ walk-Leads fs fs.root_dir segments r l
