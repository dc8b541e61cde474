-- ===== src/Support/Queue/Tests.antt =====
-- A queue of three slots whose contents go round the end.
use peos.Prelude.{ℕ, zero, suc, ◌≡◌, refl, false, [], ◌∷◌, none, arith}
use peos.Prelude.Int.{negsuc, ◌+ℤ◌}
use peos.Support.Queue.{Queue, push_back, normalize, replace, fill, reaches_end, store, slot}
use peos.Support.Queue.Fifo.{IsValid, contents}

abbrev cells : ℕ → ℕ
cells zero = 9
cells (suc zero) = 7
cells (suc (suc n)) = 8

-- 8, 9.
abbrev turned : Queue ℕ
turned = record { items = cells; read_idx = 2; write_idx = 4 }

turned-IsValid : IsValid 3 turned
turned-IsValid = omega arith

-- 8, 9, 7.
abbrev stuffed : Queue ℕ
stuffed = record { items = cells; read_idx = 2; write_idx = 5 }

stuffed-IsValid : IsValid 3 stuffed
stuffed-IsValid = omega arith

push_then_contents : contents 3 (push_back 3 turned 5).1 ≡ 8 ∷ 9 ∷ 5 ∷ []
unfolding push_back normalize
push_then_contents = refl

push_when_full : (push_back 3 stuffed 5).0 ≡ false
unfolding push_back
push_when_full = refl

-- A negative offset reaches outside the array.
replace_negative : replace 3 0 turned (negsuc 3) 5 ≡ none
unfolding replace fill reaches_end store slot ◌+ℤ◌
replace_negative = refl
