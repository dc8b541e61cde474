-- ===== src/Net/Tcp/Checksum.antt =====
-- libraries/net/tcp/utils.cc: the checksum over the pseudo header, the header and the payload.
use peos.Prelude.{ℕ, ◌+◌, ◌%◌, ◌^◌, List, ◌∷◌, ◌++◌, length}
use peos.Net.Bytes.{bytes16, bytes32, sum_words, ones_complement}

-- `struct pseudo_header`, as it lies in memory.
abbrev pub pseudo_header : ℕ → ℕ → ℕ → ℕ → List ℕ
pseudo_header src_addr dest_addr protocol size =
    bytes32 src_addr ++ (bytes32 dest_addr ++ (0 ∷ protocol ∷ bytes16 size))

pub checksum : ℕ → ℕ → ℕ → List ℕ → List ℕ → ℕ
checksum src_addr dest_addr protocol data1 data2 = ones_complement (
    (sum_words (pseudo_header src_addr dest_addr protocol (length data1 + length data2))
      + sum_words data1
      + sum_words data2)
    % 2 ^ 64)
