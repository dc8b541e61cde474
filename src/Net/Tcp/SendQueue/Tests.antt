-- ===== src/Net/Tcp/SendQueue/Tests.antt =====
-- A send queue with two segments: 1, 2, 3 from number 100 on and 4, 5 from 103 on.
use peos.Prelude.{ℕ, zero, suc, ◌+◌, ◌≡◌, refl, true, [], ◌∷◌, none, some, arith}
use peos.Support.Queue.{size}
use peos.Net.Tcp.SendQueue.{SendQueue, SendSegment, write_back, ack, read_one_segment}
use peos.Net.Tcp.SendQueue.Valid.{IsValid, bytes_of, segments_of, write_back-IsValid}
use peos.Net.Tcp.SendQueue.Ack.{Acked, ack-Acked, ack-beyond}
use peos.Net.Tcp.SendQueue.Read.{read_one_segment-inside}

abbrev first : SendSegment
first = record { flags = 0; seqnbr = 100; data_length = 3; send_length = 3 }

abbrev second : SendSegment
second = record { flags = 1; seqnbr = 103; data_length = 2; send_length = 2 }

abbrev sent_bytes : ℕ → ℕ
sent_bytes n = n + 1

abbrev sent_segments : ℕ → SendSegment
sent_segments zero = first
sent_segments (suc n) = second

abbrev two : SendQueue
two = record {
  ack_pos = 100;
  write_pos = 105;
  read_pos = 1;
  wndsz = 0xFFFF;
  data_buffer = record { items = sent_bytes; read_idx = 0; write_idx = 5 };
  segments = record { items = sent_segments; read_idx = 0; write_idx = 2 };
}

two-IsValid : IsValid two
unfolding size
two-IsValid = record {
  buffer = omega arith;
  queue = omega arith;
  chained = omega arith;
  counted = refl;
  read_in = omega arith;
  no_wrap = omega arith;
}

abbrev third : SendSegment
third = record { flags = 0; seqnbr = 105; data_length = 1; send_length = 1 }

write_back-IsValid_example :
    (q' : SendQueue) × (write_back two third (some (9 ∷ [])) 1 1 ≡ some (true, q'))
    × IsValid q'
    × (bytes_of q' ≡ 1 ∷ 2 ∷ 3 ∷ 4 ∷ 5 ∷ 9 ∷ [])
    × (segments_of q' ≡ first ∷ second ∷ third ∷ [])
    × (q'.ack_pos ≡ 100)
    × (q'.read_pos ≡ 1)
    × (q'.write_pos ≡ 106)
unfolding size
write_back-IsValid_example =
    write_back-IsValid two third (9 ∷ []) 1 two-IsValid refl (omega arith) (omega arith)
      (omega arith)

-- All but the second segment is acknowledged.
ack-Acked_example : (q' : SendQueue) × (ack two 104 ≡ some q') × Acked two 104 q'
ack-Acked_example = ack-Acked two 104 two-IsValid (omega arith)

ack-beyond_example : ack two 106 ≡ none
ack-beyond_example = ack-beyond two 106 two-IsValid (omega arith)

read_one_segment-inside_example :
    (read_one_segment two 20480 ≡ some (2, some (second, 4 ∷ 5 ∷ []), record two { read_pos = 2 }))
    × IsValid (record two { read_pos = 2 })
    × (◌≡◌ {A = ℕ} 2 2)
unfolding size
read_one_segment-inside_example =
    read_one_segment-inside two second 20480 two-IsValid refl (omega arith) (omega arith)
      (omega arith) (omega arith)

-- A hundred segments without bytes take all the slots.
abbrev blank : SendSegment
blank = record { flags = 0; seqnbr = 100; data_length = 0; send_length = 0 }

abbrev all_blank : ℕ → SendSegment
all_blank n = blank

abbrev hundred : SendQueue
hundred = record two {
  write_pos = 100;
  data_buffer = record { items = sent_bytes; read_idx = 0; write_idx = 0 };
  segments = record { items = all_blank; read_idx = 0; write_idx = 100 };
}

hundred-IsValid : IsValid hundred
unfolding size
hundred-IsValid = record {
  buffer = omega arith;
  queue = omega arith;
  chained = omega arith;
  counted = refl;
  read_in = omega arith;
  no_wrap = omega arith;
}
