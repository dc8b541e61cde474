-- ===== src/Support/Format/Texts.antt =====
-- A format whose flags are texts: what it makes of its parts.
use peos.Prelude.{
  ℕ, ◌+◌, ◌<◌, ◌≡◌, refl, ap, sym, ◌∙◌, ◌≢◌, ◌++◌, some, List, [], ◌∷◌, map, arith, length,
  length-append, ==_iff, ne→==_false, ◌==◌, if◌then◌else◌, ℕ_discrete, append-nil,
}
use peos.Support.String.{String, append}
use peos.Support.String.Text.{
  Appended, append-Appended, append_text-Appended, Appended-then, Appended-nil,
}
use peos.Support.Format.{text_arg, fmt_scan, fmt_expect, fill_flag, fill_flags, str, format}

-- A text with its `%` doubled.
abbrev pub escape : List ℕ → List ℕ
escape [] = []
escape (c ∷ cs) = if c == 37 then 37 ∷ 37 ∷ escape cs else c ∷ escape cs

-- The format of literal parts, each with a flag for a text behind it, and a last part.
abbrev pub format_of : List (List ℕ × List ℕ) → List ℕ → List ℕ
format_of [] last = escape last
format_of (p ∷ parts) last = escape p.0 ++ (37 ∷ 115 ∷ format_of parts last)

abbrev pub filled : List (List ℕ × List ℕ) → List ℕ → List ℕ
filled [] last = last
filled (p ∷ parts) last = p.0 ++ p.1 ++ filled parts last

module _ (max_len : ℕ) where
  fmt_scan-plain :
      (out out' : String) (c : ℕ) (t : List ℕ)
      → c ≢ 37
      → append max_len out c ≡ some out'
      → fmt_scan max_len out (c ∷ t) ≡ fmt_scan max_len out' t
  unfolding fmt_scan
  fmt_scan-plain out out' c [] p e = rw (ne→==_false c 37 p, e) refl
  fmt_scan-plain out out' c (d ∷ t) p e = rw (ne→==_false c 37 p, e) refl

  fmt_scan-percent :
      (out out' : String) (t : List ℕ)
      → append max_len out 37 ≡ some out'
      → fmt_scan max_len out (37 ∷ 37 ∷ t) ≡ fmt_scan max_len out' t
  unfolding fmt_scan
  fmt_scan-percent out out' t e = rw e refl

  -- A literal part is appended, and then what follows it decides.
  fmt_scan-escape :
      (out : String) (l t r : List ℕ)
      → ((o : String) → fmt_scan max_len o t ≡ some (o, r))
      → out.position + length l < max_len
      → (out' : String) × (fmt_scan max_len out (escape l ++ t) ≡ some (out', r))
        × Appended max_len out l out'
  fmt_scan-escape out [] t r stop h = (out, stop out, Appended-nil max_len out)
  fmt_scan-escape out (c ∷ l) t r stop h =
      let (o, e, a, _) = append-Appended max_len out c (omega arith) in
      let (out', e', b) = fmt_scan-escape o l t r stop (omega (arith, a.longer, h)) in
      (
        out',
        elim (ℕ_discrete c 37) [
          | yes p ↦
              ap (λ q. fmt_scan max_len out ((if q then 37 ∷ 37 ∷ escape l else c ∷ escape l) ++ t))
                ((==_iff c 37).1 p)
              ∙ fmt_scan-percent out o (escape l ++ t) (ap (append max_len out) (sym p) ∙ e)
              ∙ e'
          | no p ↦
              ap (λ q. fmt_scan max_len out ((if q then 37 ∷ 37 ∷ escape l else c ∷ escape l) ++ t))
                (ne→==_false c 37 p)
              ∙ fmt_scan-plain out o c (escape l ++ t) p e
              ∙ e'
        ],
        Appended-then max_len a b,
      )

  fmt_scan-flag :
      (out : String) (fmt : List ℕ) → fmt_scan max_len out (37 ∷ 115 ∷ fmt) ≡ some (out, 115 ∷ fmt)
  unfolding fmt_scan
  fmt_scan-flag out fmt = refl

  fmt_scan-end : (out : String) → fmt_scan max_len out [] ≡ some (out, [])
  unfolding fmt_scan
  fmt_scan-end out = refl

  fill_flag-text :
      (s : String) (l str fmt : List ℕ)
      → s.position + length l + length str < max_len
      → (s' : String) × Appended max_len s (l ++ str) s'
        × (fill_flag max_len
              (record { storage = s; fmt_pos = escape l ++ (37 ∷ 115 ∷ fmt) })
              (text_arg str)
            ≡ some (record { storage = s'; fmt_pos = fmt }))
  unfolding fill_flag fmt_expect
  fill_flag-text s l str fmt h =
      let (o, e, a) =
        fmt_scan-escape s l (37 ∷ 115 ∷ fmt) (115 ∷ fmt) (λ o. fmt_scan-flag o fmt) (omega arith) in
      let (s', e', b) = append_text-Appended max_len o str (omega (arith, a.longer, h)) in
      (s', Appended-then max_len a b, rw (e, e') refl)

  str-literal :
      (s : String) (l : List ℕ)
      → s.position + length l < max_len
      → (s' : String) × Appended max_len s l s'
        × (str max_len (record { storage = s; fmt_pos = escape l })
            ≡ some (record { storage = s'; fmt_pos = [] }))
  unfolding str
  str-literal s l h =
      let (s', e, a) = fmt_scan-escape s l [] [] fmt_scan-end h in
      (s', a, rw (ap (fmt_scan max_len s) (sym (append-nil (escape l))) ∙ e) refl)

  -- A format with flags for texts appends its literal parts with the texts between them, when all of
  -- it fits; `%%` stands for `%`, and none of the format is left.
  pub format-filled :
      (s : String) (parts : List (List ℕ × List ℕ)) (last : List ℕ)
      → s.position + length (filled parts last) < max_len
      → (s' : String) × Appended max_len s (filled parts last) s'
        × (format max_len s (format_of parts last) (map (λ p. text_arg (p.1)) parts)
            ≡ some (record { storage = s'; fmt_pos = [] }))
  unfolding format fill_flags
  format-filled s [] last h = str-literal s last h
  format-filled s (p ∷ parts) last h =
      let room : s.position + length ((p.0 ++ p.1) ++ filled parts last) < max_len = h in
      let both = length-append (p.0) (p.1) in
      let all = length-append (p.0 ++ p.1) (filled parts last) in
      let (o, a, e) =
        fill_flag-text s (p.0) (p.1) (format_of parts last) (omega (arith, both, all, room)) in
      let (s', b, e') = format-filled o parts last (omega (arith, a.longer, both, all, room)) in
      (s', Appended-then max_len a b, rw e e')
