-- ===== src/Support/UnorderedMap/Tests.antt =====
-- A map from numbers to numbers with one entry: 7 under the key 3.
use peos.Prelude.{ℕ, ◌≡◌, refl, true, false, none, some, List, [], arith, ◌==◌, ◌⊎◌}
use peos.Support.Pool.{Pool, fresh, end_sentinel}
use peos.Support.Pool
use peos.Support.Pool.Inv.{Inv}
use peos.Support.Pool.Emplace.{Filled}
use peos.Support.UnorderedMap.{Entry, insert}
use peos.Support.UnorderedMap.Find.{Holds, insert-Filled}

abbrev three : Entry ℕ ℕ
three = record { key = 3; value = 7 }

abbrev one_entry : Pool (Entry ℕ ℕ)
one_entry = record {
  nodes = λ i. fresh (some three);
  watermark = 1;
  free_list_head = end_sentinel;
  free_list_tail = end_sentinel;
  count = 1;
}

one_entry-Inv : Inv 10 one_entry []
one_entry-Inv = record {
  linked = refl;
  tail_last = refl;
  distinct = tt;
  below = tt;
  bounded = omega arith;
  indexed = omega arith;
  counted = refl;
  taken = λ i lt e. (refl, refl, (three, refl));
}

insert-Filled_example :
    (((it : ℕ) × Holds ◌==◌ one_entry 4 it true)
      × (insert ◌==◌ 10 one_entry 4 8 ≡ some (false, one_entry)))
    ⊎ (((j : ℕ) → Pool.valid one_entry j ≡ true → Holds ◌==◌ one_entry 4 j false)
        × ((m' : Pool (Entry ℕ ℕ)) × (idx : ℕ) × (free' : List ℕ) × (insert ◌==◌ 10 one_entry 4 8
              ≡ some (true, m'))
            × Inv 10 m' free'
            × (Pool.at one_entry idx ≡ none)
            × Filled one_entry idx (record { key = 4; value = 8 }) m'
            × (Pool.size m' ≡ 2)))
unfolding Pool.size
insert-Filled_example = insert-Filled ◌==◌ one_entry 4 10 [] 8 one_entry-Inv (omega arith)
