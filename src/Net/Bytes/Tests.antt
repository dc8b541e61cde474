-- ===== src/Net/Bytes/Tests.antt =====
-- A sum of words folded and completed.
use peos.Prelude.{◌+◌, ◌^◌, ◌<◌, ◌≡◌, arith}
use peos.Net.Bytes.{fold_words, ones_complement}
use peos.Net.Bytes.Fold.{ones_complement-verifies}

ones_complement-verifies_example :
    (ones_complement 0x123456789 < 2 ^ 16)
    × (fold_words 5 (0x123456789 + ones_complement 0x123456789) ≡ 0xFFFF)
    × (ones_complement (0x123456789 + ones_complement 0x123456789) ≡ 0)
ones_complement-verifies_example = ones_complement-verifies 0x123456789 (omega arith)
