-- ===== src/Support/UnorderedMap.antt =====
-- libraries/support/unordered_map.h: a map as a pool of entries, searched from the start.
pub mod Find
mod Tests
use peos.Prelude.{ℕ, Bool, true, false, not, Option, none, some, List, [], ◌∷◌, ◌==◌, if◌then◌else◌}
use peos.Prelude.Fault.{◌>>=◌, ◌>>◌, assert}
use peos.Support.Pool.{Pool}
use peos.Support.Pool

pub record Entry {ℓ} (K V : Type ℓ) : Type ℓ where
  pub key : K
  pub value : V

-- `same` is the `==` of the keys.
module _ {ℓ} {K V : Type ℓ} (same : K → K → Bool) where
  -- The loop of `find`, over the indices that are left.
  pub find_in : Pool (Entry K V) → List ℕ → K → Option ℕ
  find_in m [] key = some m.watermark
  find_in m (i ∷ is) key = do
    e ← Pool.at m i
    let rest = find_in m is key
    if same e.key key then some i else rest

  -- The index of the entry, or that of `end()`.
  pub find : Pool (Entry K V) → K → Option ℕ
  find m key = find_in m (Pool.indices m) key

  module _ (capacity : ℕ) where
    -- An entry that is there is not overwritten.
    pub insert : Pool (Entry K V) → K → V → Option (Bool × Pool (Entry K V))
    insert m key value = do
      it ← find m key
      if not (it == m.watermark) then some (false, m) else (do
        (_, m') ← Pool.emplace_anywhere capacity m (record { key = key; value = value })
        some (true, m'))

pub erase {ℓ} : {K V : Type ℓ} → Pool (Entry K V) → ℕ → Option (Pool (Entry K V))
erase m it = Pool.erase m it
