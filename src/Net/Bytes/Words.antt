-- ===== src/Net/Bytes/Words.antt =====
-- A word laid down in network order is loaded and swapped back to itself.
use peos.Prelude.{ℕ, ◌+◌, ◌*◌, ◌/◌, ◌%◌, ◌^◌, ◌<◌, ◌≡◌, List, arith, get_or}
use peos.Net.Bytes.{load16, load32, swap16, swap32}

pub swap16_order : (w : ℕ) → w < 2 ^ 16 → swap16 (w / 256 % 256 + w % 256 * 2 ^ 8) ≡ w
unfolding swap16
swap16_order w h = omega arith

pub swap32_order :
    (w : ℕ)
    → w < 2 ^ 32
    → swap32
        (w / 2 ^ 24 % 256 + w / 2 ^ 16 % 256 * 2 ^ 8 + (w / 2 ^ 8 % 256 + w % 256 * 2 ^ 8) * 2 ^ 16)
      ≡ w
unfolding swap32
swap32_order w h = omega arith

-- A loaded word, swapped, is the number that its bytes are in network order.
pub swap16-load16 :
    (bytes : List ℕ) (i : ℕ)
    → ((j : ℕ) → get_or bytes j 0 < 256)
    → swap16 (load16 bytes i) ≡ get_or bytes i 0 * 256 + get_or bytes (i + 1) 0
unfolding swap16 load16
swap16-load16 bytes i h = omega (arith, h i, h (i + 1))

pub swap32-load32 :
    (bytes : List ℕ) (i : ℕ)
    → ((j : ℕ) → get_or bytes j 0 < 256)
    → swap32 (load32 bytes i)
      ≡ (get_or bytes i 0 * 256 + get_or bytes (i + 1) 0) * 2 ^ 16
        + (get_or bytes (i + 2) 0 * 256 + get_or bytes (i + 2 + 1) 0)
unfolding swap32 load32 load16
swap32-load32 bytes i h = omega (arith, h i, h (i + 1), h (i + 2), h (i + 2 + 1))
