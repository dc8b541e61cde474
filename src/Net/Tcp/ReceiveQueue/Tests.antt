-- ===== src/Net/Tcp/ReceiveQueue/Tests.antt =====
-- A receive queue at cursor 100 with the three bytes from 100 on, in one segment.
use peos.Prelude.{ℕ, ◌+◌, ◌≡◌, refl, true, List, [], ◌∷◌, some, arith, ==_iff}
use peos.Support.Queue.{size}
use peos.Support.Queue.Fifo.{contents}
use peos.Support.Pool.{Pool, fresh, end_sentinel}
use peos.Support.Pool
use peos.Support.Pool.Inv.{Inv, valid_iff}
use peos.Support.Pool.Emplace.{Filled}
use peos.Support.Pool.Erase.{Emptied}
use peos.Net.Tcp.ReceiveQueue.{
  ReceiveQueue, RecvSegment, data_len, segments_len, out_of_window, insert, read_one_segment,
}
use peos.Net.Tcp.ReceiveQueue.Insert.{IsValid, insert-inside}
use peos.Net.Tcp.ReceiveQueue.Front.{IsFront, read_one_segment-IsFront}

abbrev front_segment : RecvSegment
front_segment = record { flags = 0; seqnbr = 100; len = 3 }

abbrev one_pool : Pool RecvSegment
one_pool = record {
  nodes = λ i. fresh (some front_segment);
  watermark = 1;
  free_list_head = end_sentinel;
  free_list_tail = end_sentinel;
  count = 1;
}

one_pool-Inv : Inv segments_len one_pool []
one_pool-Inv = record {
  linked = refl;
  tail_last = refl;
  distinct = tt;
  below = tt;
  bounded = omega arith;
  indexed = omega arith;
  counted = refl;
  taken = λ i lt e. (refl, refl, (front_segment, refl));
}

abbrev received : ℕ → ℕ
received n = n + 7

abbrev one : ReceiveQueue
one = record {
  segments = one_pool;
  data_buffer = record { items = received; read_idx = 0; write_idx = 3 };
  read_cursor = 100;
}

one-IsValid : IsValid one []
unfolding size
one-IsValid = record { buffer = omega arith; pool = one_pool-Inv; cursor = omega arith }

slot_valid : Pool.valid one_pool 0 ≡ true
slot_valid = (valid_iff segments_len one_pool [] one_pool-Inv 0).1 (omega arith, refl)

one-IsFront : IsFront one 0 front_segment
one-IsFront = record {
  holds = Pool.Inv.at-valid segments_len one_pool [] one_pool-Inv 0 slot_valid;
  is_valid = slot_valid;
  others = λ j h apart.
      (let below = ((valid_iff segments_len one_pool [] one_pool-Inv j).0 h).0 in
        cc (apart, (==_iff 0 j).1 (omega (arith, below))));
}

abbrev later : RecvSegment
later = record { flags = 0; seqnbr = 105; len = 0 }

insert-inside_example :
    (q' : ReceiveQueue) × (free' : List ℕ) × (idx : ℕ) × (insert one later (1 ∷ 2 ∷ [])
      ≡ some (true, q'))
    × IsValid q' free'
    × (contents data_len q'.data_buffer ≡ 7 ∷ 8 ∷ 9 ∷ 0 ∷ 0 ∷ 1 ∷ 2 ∷ [])
    × Filled one_pool idx (record later { len = 2 }) q'.segments
    × (Pool.size q'.segments ≡ 2)
    × (q'.read_cursor ≡ 100)
unfolding size Pool.size
insert-inside_example =
    insert-inside one [] later (1 ∷ 2 ∷ []) 5 one-IsValid (omega arith) (omega arith) (omega arith)
      refl

late_refused : out_of_window one 99 ≡ true
unfolding out_of_window
late_refused = refl

read_one_segment-IsFront_example :
    (q' : ReceiveQueue) × (free' : List ℕ) × (read_one_segment one 20480
      ≡ some (front_segment, 7 ∷ 8 ∷ 9 ∷ [], q'))
    × IsValid q' free'
    × (contents data_len q'.data_buffer ≡ [])
    × Emptied one_pool 0 q'.segments
    × (q'.read_cursor ≡ 103)
unfolding size
read_one_segment-IsFront_example =
    read_one_segment-IsFront one [] 0 front_segment 20480 one-IsValid one-IsFront refl (omega arith)
      (omega arith) (omega arith)
