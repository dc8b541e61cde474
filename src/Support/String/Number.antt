-- ===== src/Support/String/Number.antt =====
-- Numbers written as text: the digits that `append` writes are those of the number.
use native.Mathlib.Nat.{div-add-mod', mod-lt, div-lt_self, div-le_self, mod-eq_of_lt}
use peos.Prelude.{
  ℕ, zero, suc, ◌+◌, ◌-◌, ◌*◌, ◌/◌, ◌%◌, ◌≤◌, ◌<◌, ◌≡◌, refl, ap, ap₂, subst, sym, ◌∙◌, ◌≢◌, ◌⊎◌,
  inl, inr, Bool, true, false, some, arith, ◌==◌, ne→==_false, if◌then◌else◌, leb, ℕ_discrete,
  replicate, length-replicate,
}
use peos.Prelude.Int.{negsuc}
use peos.Prelude.Array.{update, update_self, update_ne}
use peos.Support.String.{
  String, digit_as_char, divisions, number_width, append_padding, write_digits, append_number,
}
use peos.Support.String.Text.{Appended, append-Appended, Appended-then, Appended-nil}

-- The digit that a character stands for.
abbrev pub digit_value : ℕ → ℕ
digit_value c = if leb c 57 then c - 48 else c - 55

-- The number that `n` digits from `start` on read as.
abbrev pub read_number : ℕ → (ℕ → ℕ) → ℕ → ℕ → ℕ
read_number radix f start zero = 0
read_number radix f start (suc n) =
    read_number radix f start n * radix + digit_value (f (start + n))

digit_value-digit_as_char :
    (radix d : ℕ)
    → (radix ≡ 10) ⊎ (radix ≡ 16)
    → d < radix
    → digit_value (digit_as_char d radix) ≡ d
unfolding digit_as_char
digit_value-digit_as_char radix d r h = ground arith

read_number-ext :
    (radix : ℕ) (f g : ℕ → ℕ) (start n : ℕ)
    → ((i : ℕ) → start ≤ i → i < start + n → f i ≡ g i)
    → read_number radix f start n ≡ read_number radix g start n
read_number-ext radix f g start zero h = refl
read_number-ext radix f g start (suc n) h =
    ap₂ (λ x y. x * radix + digit_value y)
      (read_number-ext radix f g start n (λ i a b. h i a (omega arith)))
      (h (start + n) (omega arith) (omega arith))

-- `value` has `n` digits.
pub data HasDigits (radix : ℕ) : ℕ → ℕ → Type 0 where
  one_digit : {value : ℕ} → value < radix → HasDigits radix value 1
  digit_more :
      {value n : ℕ}
      → (value / radix ≢ 0)
      → HasDigits radix (value / radix) n
      → HasDigits radix value (suc n)

pub divisions-HasDigits :
    (fuel radix value : ℕ)
    → 1 < radix
    → value ≤ fuel
    → HasDigits radix value (suc (divisions fuel radix (value / radix)))
unfolding divisions
divisions-HasDigits zero radix value r h = one_digit (omega arith)
divisions-HasDigits (suc fuel) radix value r h = elim (ℕ_discrete (value / radix) 0) [
  | yes e ↦ rw e (one_digit (below e))
  | no p ↦ rw (ne→==_false (value / radix) 0 p) (
      digit_more p (
        divisions-HasDigits fuel radix (value / radix) r (elim (ℕ_discrete value 0) [
          | yes z ↦ absurd (p (omega (arith, div-le_self value radix, z)))
          | no z ↦ omega (arith, div-lt_self {n = value} {k = radix} (omega arith) r)
        ])))
]
  where
    below : value / radix ≡ 0 → value < radix
    below e =
        subst (λ t. t < radix) {x = value % radix}
          (omega (arith, div-add-mod' value radix, ap (λ t. t * radix) e))
          (mod-lt value (omega arith))

if-at : (b : Bool) (f g : ℕ → ℕ) (i c : ℕ) → f i ≡ c → g i ≡ c → (if b then f else g) i ≡ c
if-at true f g i c h k = h
if-at false f g i c h k = k

-- Only the places of the digits are written.
pub write_digits-apart :
    (radix start n value : ℕ) (f : ℕ → ℕ) (i : ℕ)
    → (i < start) ⊎ (start + n ≤ i)
    → write_digits radix start n value f i ≡ f i
unfolding write_digits
write_digits-apart radix start zero value f i h = refl
write_digits-apart radix start (suc n) value f i h =
    let c = digit_as_char (value % radix) radix in
    let kept : update f (start + n) c i ≡ f i = update_ne f (start + n) i c (ground arith) in
    if-at (value / radix == 0) (update f (start + n) c)
      (write_digits radix start n (value / radix) (update f (start + n) c)) i (f i) kept
      (write_digits-apart radix start n (value / radix) (update f (start + n) c) i (ground arith)
        ∙ kept)

above_one : (radix : ℕ) → (radix ≡ 10) ⊎ (radix ≡ 16) → 1 < radix
above_one radix r = ground arith

-- The last digit is read back.
last-read :
    (radix value place : ℕ) (f : ℕ → ℕ)
    → (radix ≡ 10) ⊎ (radix ≡ 16)
    → f place ≡ digit_as_char (value % radix) radix
    → digit_value (f place) ≡ value % radix
last-read radix value place f r h =
    ap digit_value h
    ∙ digit_value-digit_as_char radix (value % radix) r
        (mod-lt value (omega (arith, above_one radix r)))

write_digits-reads :
    (radix start value n : ℕ) (f : ℕ → ℕ)
    → (radix ≡ 10) ⊎ (radix ≡ 16)
    → HasDigits radix value n
    → read_number radix (write_digits radix start n value f) start n ≡ value
unfolding write_digits
write_digits-reads radix start value n f r (one_digit h) =
    let c = digit_as_char (value % radix) radix in
    let w = update f (start + 0) c in
    let read = last-read radix value (start + 0) (if value / radix == 0 then w else w) r (
      if-at (value / radix == 0) w w (start + 0) c (update_self f (start + 0) c)
        (update_self f (start + 0) c)) in
    omega (arith, read, mod-eq_of_lt h)
write_digits-reads radix start value n f r (digit_more {n = m} more d) =
    let c = digit_as_char (value % radix) radix in
    let w = update f (start + m) c in
    let rest = write_digits radix start m (value / radix) w in
    let front = write_digits-reads radix start (value / radix) m w r d in
    let read = last-read radix value (start + m) rest r (
      write_digits-apart radix start m (value / radix) w (start + m) (inr (omega arith))
      ∙ update_self f (start + m) c) in
    let goes_on : ℕ → ℕ = if false then w else rest in
    subst (λ g. read_number radix g start (suc m) ≡ value) {x = goes_on}
      (ap (λ b. if b then w else rest) (sym (ne→==_false (value / radix) 0 more)))
      (ap₂ (λ x y. x * radix + y) front read ∙ div-add-mod' value radix)

append_padding-Appended :
    (max_len padding n : ℕ) (s : String)
    → s.position + n < max_len
    → (s' : String) × (append_padding max_len padding n s ≡ some s')
      × Appended max_len s (replicate n padding) s'
unfolding append_padding
append_padding-Appended max_len padding zero s h = (s, refl, Appended-nil max_len s)
append_padding-Appended max_len padding (suc n) s h =
    let (s', e, a, _) = append-Appended max_len s padding (omega arith) in
    let (s'', e', b) = append_padding-Appended max_len padding n s' (omega (arith, a.longer, h)) in
    (s'', rw (e, e'), Appended-then max_len a b)

-- How many digits the number has.
abbrev pub digits : ℕ → ℕ → ℕ
digits radix value = number_width radix value (negsuc 0)

-- A number that fits is appended in as many characters as it has digits, which read as the number; the
-- text before it is kept.
pub append_number-reads :
    (max_len : ℕ) (s : String) (value radix padding : ℕ)
    → (radix ≡ 10) ⊎ (radix ≡ 16)
    → s.position + digits radix value < max_len
    → (s' : String) × (append_number max_len s value (negsuc 0) radix padding ≡ some s')
      × (s'.position ≡ s.position + digits radix value)
      × (read_number radix s'.storage s.position (digits radix value) ≡ value)
      × ((i : ℕ) → i < s.position → s'.storage i ≡ s.storage i)
unfolding append_number number_width
append_number-reads max_len s value radix padding r h =
    let n = digits radix value in
    let (s', e, a) = append_padding-Appended max_len padding n s h in
    (
      record s' { storage = write_digits radix s.position n value s'.storage },
      rw e refl,
      omega (arith, a.longer, length-replicate n padding),
      write_digits-reads radix s.position value n s'.storage r
          (divisions-HasDigits value radix value (above_one radix r) (omega arith)),
      λ i k. write_digits-apart radix s.position n value s'.storage i (inl k) ∙ a.below i k,
    )
