-- ===== src/Support/Utils/Copies.antt =====
-- What strncpy and memset leave in memory.
use peos.Prelude.{
  ℕ, zero, suc, ◌+◌, ◌≤◌, ◌<◌, ◌≡◌, refl, ap, ◌∙◌, ◌⊎◌, inl, List, [], ◌∷◌, arith, get_or,
}
use peos.Prelude.Array.{update, update_self, update_ne}
use peos.Support.Utils.{memset, strncpy}

memset-apart :
    (memory : ℕ → ℕ) (ptr value len i : ℕ)
    → (i < ptr) ⊎ (ptr + len ≤ i)
    → memset memory ptr value len i ≡ memory i
unfolding memset
memset-apart memory ptr value zero i h = refl
memset-apart memory ptr value (suc len) i h =
    memset-apart (update memory ptr value) (suc ptr) value len i (ground arith)
    ∙ update_ne memory ptr i value (ground arith)

memset-inside :
    (memory : ℕ → ℕ) (ptr value len k : ℕ) → k < len → memset memory ptr value len (ptr + k) ≡ value
unfolding memset
memset-inside memory ptr value zero k h = elim h [ ]
memset-inside memory ptr value (suc len) zero h =
    memset-apart (update memory ptr value) (suc ptr) value len (ptr + 0) (inl (omega arith))
    ∙ ap (update memory ptr value) {y = ptr} (omega arith)
    ∙ update_self memory ptr value
memset-inside memory ptr value (suc len) (suc k) h =
    ap (memset (update memory ptr value) (suc ptr) value len) {x = ptr + suc k} {y = suc ptr + k}
      (omega arith)
    ∙ memset-inside (update memory ptr value) (suc ptr) value len k (omega arith)

strncpy-apart :
    (memory : ℕ → ℕ) (dest : ℕ) (src : List ℕ) (len i : ℕ)
    → (i < dest) ⊎ (dest + len ≤ i)
    → strncpy memory dest src len i ≡ memory i
unfolding strncpy
strncpy-apart memory dest src zero i h = refl
strncpy-apart memory dest [] (suc len) i h =
    memset-apart (update memory dest 0) (suc dest) 0 len i (ground arith)
    ∙ update_ne memory dest i 0 (ground arith)
strncpy-apart memory dest (c ∷ src) (suc len) i h =
    strncpy-apart (update memory dest c) (suc dest) src len i (ground arith)
    ∙ update_ne memory dest i c (ground arith)

strncpy-inside :
    (memory : ℕ → ℕ) (dest : ℕ) (src : List ℕ) (len k : ℕ)
    → k < len
    → strncpy memory dest src len (dest + k) ≡ get_or src k 0
unfolding strncpy memset
strncpy-inside memory dest src zero k h = elim h [ ]
strncpy-inside memory dest [] (suc len) k h = memset-inside memory dest 0 (suc len) k h
strncpy-inside memory dest (c ∷ src) (suc len) zero h =
    strncpy-apart (update memory dest c) (suc dest) src len (dest + 0) (inl (omega arith))
    ∙ ap (update memory dest c) {y = dest} (omega arith)
    ∙ update_self memory dest c
strncpy-inside memory dest (c ∷ src) (suc len) (suc k) h =
    ap (strncpy (update memory dest c) (suc dest) src len) {x = dest + suc k} {y = suc dest + k}
      (omega arith)
    ∙ strncpy-inside (update memory dest c) (suc dest) src len k (omega arith)

-- `strncpy` writes just `len` bytes: those of the string, and zeros behind its end.
pub strncpy-copied :
    (memory : ℕ → ℕ) (dest : ℕ) (src : List ℕ) (len : ℕ)
    → ((k : ℕ) → k < len → strncpy memory dest src len (dest + k) ≡ get_or src k 0)
      × ((i : ℕ) → (i < dest) ⊎ (dest + len ≤ i) → strncpy memory dest src len i ≡ memory i)
strncpy-copied memory dest src len =
    (λ k h. strncpy-inside memory dest src len k h, λ i h. strncpy-apart memory dest src len i h)
