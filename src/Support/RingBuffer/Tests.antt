-- ===== src/Support/RingBuffer/Tests.antt =====
-- The ring buffer over the queue of four slots, holding 8 and 9.
use peos.Prelude.{ℕ, zero, suc, ◌≡◌, true, [], ◌∷◌, some, arith}
use peos.Prelude.Int.{pos}
use peos.Support.Queue.{Queue}
use peos.Support.Queue.Fifo.{IsValid, contents}
use peos.Support.RingBuffer.{write}
use peos.Support.RingBuffer.Bytes.{write-contents}

abbrev cells : ℕ → ℕ
cells zero = 9
cells (suc n) = 8

abbrev pair : Queue ℕ
pair = record { items = cells; read_idx = 3; write_idx = 5 }

pair-IsValid : IsValid 4 pair
pair-IsValid = omega arith

write-contents_example :
    (b : Queue ℕ) × (write 4 pair (1 ∷ 2 ∷ []) (pos 1) ≡ some (true, b))
    × (contents 4 b ≡ 8 ∷ 1 ∷ 2 ∷ [])
    × IsValid 4 b
write-contents_example =
    write-contents 4 (omega arith) pair 1 (1 ∷ 2 ∷ []) pair-IsValid (omega arith)
