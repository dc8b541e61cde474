-- ===== src/Support/String/Text.antt =====
-- The text that a string holds, and what appending, truncating and copying do to it.
use peos.Prelude.{
  ℕ, zero, suc, ◌+◌, ◌-◌, ◌≤◌, ◌<◌, ◌≡◌, refl, ap, ap₂, subst, sym, ◌∙◌, ◌++◌, min, none, some,
  List, [], ◌∷◌, arith, length, take, lt→ltb, le→ltb_false, lt→leb_false, le→leb, append-nil,
  length-append, append_assoc, dec_lt, dec_le,
}
use peos.Prelude.Array.{update, update_self, update_ne}
use peos.Support.String.{
  String, append, append_text, append_some, string_from, copy_from, copy, assign, size,
}

-- `n` characters from `i` on.
abbrev pub chars : (ℕ → ℕ) → ℕ → ℕ → List ℕ
chars f i zero = []
chars f i (suc n) = f i ∷ chars f (suc i) n

abbrev pub text : String → List ℕ
text s = chars s.storage 0 s.position

pub length-chars : (f : ℕ → ℕ) (i n : ℕ) → length (chars f i n) ≡ n
length-chars f i zero = refl
length-chars f i (suc n) = ap suc (length-chars f (suc i) n)

pub chars-update : (f : ℕ → ℕ) (i n w c : ℕ) → i + n ≤ w → chars (update f w c) i n ≡ chars f i n
chars-update f i zero w c h = refl
chars-update f i (suc n) w c h =
    ap₂ ◌∷◌ (update_ne f w i c (omega arith)) (chars-update f (suc i) n w c (omega arith))

pub chars-snoc : (f : ℕ → ℕ) (i n : ℕ) → chars f i (suc n) ≡ chars f i n ++ (f (i + n) ∷ [])
chars-snoc f i zero = ap (λ t. f t ∷ []) (omega arith)
chars-snoc f i (suc n) = ap (◌∷◌ (f i)) (
    chars-snoc f (suc i) n
    ∙ ap (λ t. chars f (suc i) n ++ (f t ∷ [])) {x = suc i + n} (omega arith))

chars-last : (f : ℕ → ℕ) (n : ℕ) → chars f 0 (n + 1) ≡ chars f 0 n ++ (f n ∷ [])
chars-last f n =
    ap (chars f 0) {x = n + 1} {y = suc n} (omega arith)
    ∙ chars-snoc f 0 n
    ∙ ap (λ t. chars f 0 n ++ (f t ∷ [])) {x = 0 + n} (omega arith)

-- What has become of `s` when the characters `cs` are appended.
pub record Appended (max_len : ℕ) (s : String) (cs : List ℕ) (s' : String) : Type 0 where
  pub text_of : text s' ≡ text s ++ cs
  pub longer : s'.position ≡ s.position + length cs
  pub below : (i : ℕ) → i < s.position → s'.storage i ≡ s.storage i

pub IsTerminated : String → Type 0
IsTerminated s = s.storage s.position ≡ 0

module _ (max_len : ℕ) where
  pub append-Appended :
      (s : String) (c : ℕ)
      → s.position + 1 < max_len
      → (s' : String) × (append max_len s c ≡ some s')
        × Appended max_len s (c ∷ []) s'
        × IsTerminated s'
  unfolding append IsTerminated
  append-Appended s c h = (
    record {
      storage = update (update s.storage s.position c) (s.position + 1) 0;
      position = s.position + 1;
    },
    rw (lt→ltb (s.position + 1) max_len h),
    record {
      text_of =
          chars-last (update (update s.storage s.position c) (s.position + 1) 0) s.position
          ∙ ap₂ (λ t u. t ++ (u ∷ []))
              (chars-update (update s.storage s.position c) 0 s.position (s.position + 1) 0
                  (omega arith)
                ∙ chars-update s.storage 0 s.position s.position c (omega arith))
              (update_ne (update s.storage s.position c) (s.position + 1) s.position 0 (omega arith)
                ∙ update_self s.storage s.position c);
      longer = refl;
      below = λ i k.
          update_ne (update s.storage s.position c) (s.position + 1) i 0 (omega arith)
          ∙ update_ne s.storage s.position i c (omega arith);
    },
    update_self (update s.storage s.position c) (s.position + 1) 0,
  )

  pub append-refused : (s : String) (c : ℕ) → max_len ≤ s.position + 1 → append max_len s c ≡ none
  unfolding append
  append-refused s c h = rw (le→ltb_false (s.position + 1) max_len h)

  pub Appended-then :
      {s s' s'' : String} {bs cs : List ℕ}
      → Appended max_len s bs s'
      → Appended max_len s' cs s''
      → Appended max_len s (bs ++ cs) s''
  Appended-then {s = s} {bs = bs} {cs = cs} a b = record {
    text_of = b.text_of ∙ ap (λ t. t ++ cs) a.text_of ∙ append_assoc (text s) bs cs;
    longer = omega (arith, a.longer, b.longer, length-append bs cs);
    below = λ i h. b.below i (omega (arith, a.longer, h)) ∙ a.below i h;
  }

  pub Appended-nil : (s : String) → Appended max_len s [] s
  Appended-nil s = record {
    text_of = sym (append-nil (text s));
    longer = omega arith;
    below = λ i h. refl;
  }

  pub append_text-Appended :
      (s : String) (cs : List ℕ)
      → s.position + length cs < max_len
      → (s' : String) × (append_text max_len s cs ≡ some s') × Appended max_len s cs s'
  unfolding append_text
  append_text-Appended s [] h = (s, refl, Appended-nil s)
  append_text-Appended s (c ∷ cs) h =
      let (s', e, a, _) = append-Appended s c (omega arith) in
      let (s'', e', b) = append_text-Appended s' cs (omega (arith, a.longer, h)) in
      (s'', rw (e, e'), Appended-then a b)

  pub append_text-refused :
      (s : String) (cs : List ℕ)
      → s.position < max_len
      → max_len ≤ s.position + length cs
      → append_text max_len s cs ≡ none
  unfolding append_text
  append_text-refused s [] h k = absurd (omega arith)
  append_text-refused s (c ∷ cs) h k = elim (dec_lt (s.position + 1) max_len) [
    | yes p ↦
        let (s', e, a, _) = append-Appended s c p in
        rw e (append_text-refused s' cs (omega (arith, a.longer)) (omega (arith, a.longer)))
    | no p ↦ rw (append-refused s c (omega arith))
  ]

  take-nil : (n : ℕ) → ◌≡◌ {A = List ℕ} [] (take n [])
  take-nil zero = refl
  take-nil (suc n) = refl

  append_some-Appended :
      (max_length count : ℕ) (s : String) (cs : List ℕ)
      → s.position + (max_length - count) < max_len
      → (s' : String) × (append_some max_len max_length count s cs ≡ some s')
        × Appended max_len s (take (max_length - count) cs) s'
  unfolding append_some
  append_some-Appended max_length count s [] h = (
    s,
    refl,
    subst (λ t. Appended max_len s t s) (take-nil (max_length - count)) (Appended-nil s),
  )
  append_some-Appended max_length count s (c ∷ cs) h = elim (dec_le max_length count) [
    | yes p ↦ (
      s,
      rw (le→leb max_length count p) refl,
      subst (λ t. Appended max_len s (take t (c ∷ cs)) s) {x = 0} (omega arith) (Appended-nil s),
    )
    | no p ↦
        let (s', e, a, _) = append-Appended s c (omega arith) in
        let (s'', e', b) =
          append_some-Appended max_length (count + 1) s' cs (omega (arith, a.longer, h)) in
        (
          s'',
          rw (lt→leb_false max_length count (omega arith), e, e') refl,
          subst (λ t. Appended max_len s (take t (c ∷ cs)) s'') {x = suc (max_length - (count + 1))}
              (omega arith) (Appended-then a b),
        )
  ]

  -- A truncated copy of the characters, whatever the array held.
  pub string_from-text :
      (storage : ℕ → ℕ) (other : List ℕ) (max_length : ℕ)
      → 0 < max_len
      → (s : String) × (string_from max_len storage other max_length ≡ some s)
        × (text s ≡ take (min max_length (max_len - 1)) other)
  unfolding string_from
  string_from-text storage other max_length h =
      let empty : String = record { storage = storage; position = 0 } in
      let (s, e, a) =
        append_some-Appended (min max_length (max_len - 1)) 0 empty other (omega arith) in
      (
        s,
        e,
        a.text_of ∙ ap (λ t. take t other) {x = min max_length (max_len - 1) - 0} (omega arith),
      )

  copy_from-Appended :
      (other : String) (i n : ℕ) (s : String)
      → s.position + n < max_len
      → (s' : String) × (copy_from max_len other i n s ≡ some s')
        × Appended max_len s (chars other.storage i n) s'
  unfolding copy_from
  copy_from-Appended other i zero s h = (s, refl, Appended-nil s)
  copy_from-Appended other i (suc n) s h =
      let (s', e, a, _) = append-Appended s (other.storage i) (omega arith) in
      let (s'', e', b) = copy_from-Appended other (suc i) n s' (omega (arith, a.longer, h)) in
      (s'', rw (e, e'), Appended-then a b)

  pub copy-text :
      (storage : ℕ → ℕ) (other : String)
      → other.position < max_len
      → (s : String) × (copy max_len storage other ≡ some s) × (text s ≡ text other)
  unfolding copy size
  copy-text storage other h =
      let empty : String = record { storage = storage; position = 0 } in
      let (s, e, a) = copy_from-Appended other 0 other.position empty (omega arith) in
      (s, e, a.text_of)

  pub assign-text :
      (s other : String)
      → other.position < max_len
      → (s' : String) × (assign max_len s other ≡ some s') × (text s' ≡ text other)
  unfolding assign size
  assign-text s other h =
      let empty : String = record s { position = 0 } in
      let (s', e, a) = copy_from-Appended other 0 other.position empty (omega arith) in
      (s', e, a.text_of)
