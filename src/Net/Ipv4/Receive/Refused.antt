-- ===== src/Net/Ipv4/Receive/Refused.antt =====
-- The packets that are dropped, by what stands in their bytes.
use peos.Prelude.{
  ℕ, ◌+◌, ◌*◌, ◌/◌, ◌%◌, ◌^◌, ◌<◌, ◌≡◌, ◌≢◌, ◌⊎◌, ap, ◌∙◌, false, none, some, List, length, arith,
  get_or, inl, inr,
}
use peos.Net.Bytes.{swap32}
use peos.Net.Bytes.Words.{swap16-load16, swap32-load32}
use peos.Net.Ipv4.Datagram.{Ipv4, load_header, is_recipient}
use peos.Net.Ipv4.Receive.{passes_checks, on_receive}
use peos.Net.Ipv4.Receive.Drops.{on_receive-drops}

abbrev pub byte : List ℕ → ℕ → ℕ
byte bytes i = get_or bytes i 0

-- The big-endian numbers from a place on.
abbrev pub word : List ℕ → ℕ → ℕ
word bytes i = byte bytes i * 256 + byte bytes (i + 1)

abbrev pub long_word : List ℕ → ℕ → ℕ
long_word bytes i = word bytes i * 2 ^ 16 + word bytes (i + 2)

-- What is wrong with a packet: it is not of version 4, says that it is shorter than its header or longer
-- than it came, has no time to live, or goes to another host.
pub data Refused (s : Ipv4) (bytes : List ℕ) : Type 0 where
  other_version : byte bytes 0 / 16 ≢ 4 → Refused s bytes
  too_short : word bytes 2 < byte bytes 0 % 16 * 4 → Refused s bytes
  too_long : length bytes < word bytes 2 → Refused s bytes
  no_time : byte bytes 8 ≡ 0 → Refused s bytes
  other_host : is_recipient s (long_word bytes 16) ≡ false → Refused s bytes

-- The same of the header as it was loaded.
failed :
    (bytes : List ℕ)
    → ((j : ℕ) → get_or bytes j 0 < 256)
    → (byte bytes 0 / 16 ≢ 4)
      ⊎ ((word bytes 2 < byte bytes 0 % 16 * 4)
          ⊎ ((length bytes < word bytes 2) ⊎ (byte bytes 8 ≡ 0)))
    → passes_checks (load_header bytes) bytes ≡ false
unfolding passes_checks load_header
failed bytes h r = ground (arith, swap16-load16 bytes 2 h)

at_dest :
    (bytes : List ℕ)
    → ((j : ℕ) → get_or bytes j 0 < 256)
    → swap32 (load_header bytes).dest_addr ≡ long_word bytes 16
unfolding load_header
at_dest bytes h = swap32-load32 bytes 16 h

-- A packet longer than a header with something wrong in its bytes is dropped and the state stays as it was.
pub on_receive-Refused :
    (s : Ipv4) (bytes : List ℕ)
    → ((j : ℕ) → get_or bytes j 0 < 256)
    → 20 < length bytes
    → Refused s bytes
    → on_receive s bytes ≡ some (none, s)
on_receive-Refused s bytes h long (other_version e) =
    on_receive-drops s bytes long (inl (failed bytes h (inl e)))
on_receive-Refused s bytes h long (too_short e) =
    on_receive-drops s bytes long (inl (failed bytes h (inr (inl e))))
on_receive-Refused s bytes h long (too_long e) =
    on_receive-drops s bytes long (inl (failed bytes h (inr (inr (inl e)))))
on_receive-Refused s bytes h long (no_time e) =
    on_receive-drops s bytes long (inl (failed bytes h (inr (inr (inr e)))))
on_receive-Refused s bytes h long (other_host e) =
    on_receive-drops s bytes long (inr (inr (ap (is_recipient s) (at_dest bytes h) ∙ e)))
