-- ===== src/Net/Bytes.antt =====
-- libraries/net/utils.cc and .h: byte order and the sum of words that the checksums are made of.
-- Memory is little-endian on the target, so a word in network order is its bytes from the high one on.
pub mod Fold
pub mod Words
mod Tests
use peos.Prelude.{
  ℕ, zero, suc, ◌+◌, ◌-◌, ◌*◌, ◌/◌, ◌%◌, ◌^◌, List, [], ◌∷◌, get_or, ltb, if◌then◌else◌,
}

-- `htons` and `ntohs`: the two bytes change places.
pub swap16 : ℕ → ℕ
swap16 w = w % 256 * 256 + w / 256 % 256

-- `htonl` and `ntohl`.
pub swap32 : ℕ → ℕ
swap32 w =
    w % 2 ^ 8 * 2 ^ 24
    + w / 2 ^ 8 % 2 ^ 8 * 2 ^ 16
    + w / 2 ^ 16 % 2 ^ 8 * 2 ^ 8
    + w / 2 ^ 24 % 2 ^ 8

-- A word in memory as the machine, which is little-endian, loads it.
unfoldable pub load16 : List ℕ → ℕ → ℕ
load16 bytes at_ = get_or bytes at_ 0 + get_or bytes (at_ + 1) 0 * 2 ^ 8

unfoldable pub load32 : List ℕ → ℕ → ℕ
load32 bytes at_ = load16 bytes at_ + load16 bytes (at_ + 2) * 2 ^ 16

-- A word in network order, as it lies in memory.
abbrev pub bytes16 : ℕ → List ℕ
bytes16 w = w / 256 % 256 ∷ w % 256 ∷ []

abbrev pub bytes32 : ℕ → List ℕ
bytes32 w = w / 2 ^ 24 % 256 ∷ w / 2 ^ 16 % 256 ∷ w / 2 ^ 8 % 256 ∷ w % 256 ∷ []

-- `sum_words` over the bytes: words of 32 bits, then the two bytes and the one byte left over. The
-- last byte stands in a word of its own with its upper byte zero: `htons(byte << 8)` is the byte.
pub sum_words : List ℕ → ℕ
sum_words (a ∷ b ∷ c ∷ d ∷ rest) = a + b * 2 ^ 8 + c * 2 ^ 16 + d * 2 ^ 24 + sum_words rest
sum_words (a ∷ b ∷ c ∷ []) = a + b * 2 ^ 8 + c
sum_words (a ∷ b ∷ []) = a + b * 2 ^ 8
sum_words (a ∷ []) = a
sum_words [] = 0

-- The loop of the checksums: `while (sum > 0xFFFF) sum = (sum >> 16) + (sum & 0xFFFF)`.
pub fold_words : ℕ → ℕ → ℕ
fold_words zero sum = sum
fold_words (suc fuel) sum =
    let further = fold_words fuel (sum / 2 ^ 16 + sum % 2 ^ 16) in
    if ltb 0xFFFF sum then further else sum

-- `~(uint16_t)sum` after the loop. A 64-bit sum needs five rounds at most.
pub ones_complement : ℕ → ℕ
ones_complement sum = 0xFFFF - fold_words 5 sum % 2 ^ 16
