-- ===== src/Support/Pool/Tests.antt =====
-- A pool of four slots: 7 in slot 0, slot 1 free.
use peos.Prelude.{ℕ, zero, suc, ◌<◌, ◌≡◌, refl, true, false, List, [], ◌∷◌, none, some, arith}
use peos.Prelude.Fault.{◌>>=◌}
use peos.Support.Pool.{
  Pool, Node, end_sentinel, fresh, clear, emplace_anywhere, emplace, increase_size, increase_loop,
  place, valid, construct, unlink, prepend_to_free_list, erase, release, at, size,
}
use peos.Support.Pool.FreeList.{elem}
use peos.Support.Pool.Inv.{Inv, valid_iff}
use peos.Support.Pool.Emplace.{Filled, emplace_anywhere-Filled}
use peos.Support.Pool.Erase.{Emptied, erase-Emptied}

abbrev slots : ℕ → Node ℕ
slots zero = fresh (some 7)
slots (suc n) = fresh none

abbrev gap : Pool ℕ
gap = record { nodes = slots; watermark = 2; free_list_head = 1; free_list_tail = 1; count = 1 }

gap-taken :
    (i : ℕ)
    → i < 2
    → elem i (1 ∷ []) ≡ false
    → ((slots i).next_free ≡ end_sentinel)
      × ((slots i).prev_free ≡ end_sentinel)
      × ((a : ℕ) × ((slots i).value ≡ some a))
gap-taken zero h e = (refl, refl, (7, refl))
gap-taken (suc zero) h e = cc
gap-taken (suc (suc i)) h e = absurd (omega arith)

gap-Inv : Inv 4 gap (1 ∷ [])
gap-Inv = record {
  linked = (refl, refl, refl);
  tail_last = refl;
  distinct = (refl, tt);
  below = omega arith;
  bounded = omega arith;
  indexed = omega arith;
  counted = refl;
  taken = gap-taken;
}

-- Slots are handed out upwards, and an erased one is handed out next.
slots_in_turn :
    (do
      (_, p) ← emplace_anywhere 4 (clear gap) 5
      (_, p) ← emplace_anywhere 4 p 6
      (_, p) ← emplace_anywhere 4 p 8
      p ← erase p 0
      (i, p) ← emplace_anywhere 4 p 9
      some (i ∷ p.watermark ∷ p.count ∷ []))
    ≡ some (0 ∷ 3 ∷ 3 ∷ [])
unfolding emplace_anywhere emplace increase_size increase_loop place valid construct unlink
    prepend_to_free_list erase release clear
slots_in_turn = refl

emplace_anywhere-Filled_example :
    (idx : ℕ) × (p' : Pool ℕ) × (free' : List ℕ) × (emplace_anywhere 4 gap 9 ≡ some (idx, p'))
    × Inv 4 p' free'
    × (at gap idx ≡ none)
    × Filled gap idx 9 p'
    × (size p' ≡ 2)
unfolding size
emplace_anywhere-Filled_example = emplace_anywhere-Filled 4 gap 9 (1 ∷ []) gap-Inv (omega arith)

erase-Emptied_example :
    (p' : Pool ℕ) × (free' : List ℕ) × (erase gap 0 ≡ some p')
    × Inv 4 p' free'
    × Emptied gap 0 p'
    × (suc (size p') ≡ 1)
unfolding size
erase-Emptied_example = erase-Emptied 4 gap (1 ∷ []) gap-Inv 0 (unfold valid in refl)

abbrev packed : Pool ℕ
packed = record gap { watermark = 1; free_list_head = end_sentinel; free_list_tail = end_sentinel }

packed-taken :
    (i : ℕ)
    → i < 1
    → false ≡ false
    → ((slots i).next_free ≡ end_sentinel)
      × ((slots i).prev_free ≡ end_sentinel)
      × ((a : ℕ) × ((slots i).value ≡ some a))
packed-taken zero h e = (refl, refl, (7, refl))
packed-taken (suc i) h e = absurd (omega arith)

packed-Inv : Inv 1 packed []
packed-Inv = record {
  linked = refl;
  tail_last = refl;
  distinct = tt;
  below = tt;
  bounded = omega arith;
  indexed = omega arith;
  counted = refl;
  taken = packed-taken;
}

gap_valid : valid gap 0 ≡ true
gap_valid = (valid_iff 4 gap (1 ∷ []) gap-Inv 0).1 (omega arith, refl)
