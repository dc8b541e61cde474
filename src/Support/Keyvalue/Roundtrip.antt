-- ===== src/Support/Keyvalue/Roundtrip.antt =====
-- Attributes written as a line and parsed again.
use peos.Prelude.{
  ℕ, zero, suc, ◌<◌, ◌≡◌, refl, ap, fun_ext, ◌∙◌, ◌≢◌, ◌++◌, Option, none, some, List, [], ◌∷◌,
  arith, length, ne→==_false,
}
use peos.Prelude.Fault.{◌>>=◌}
use peos.Support.Pool.{Pool}
use peos.Support.Pool
use peos.Support.Keyvalue.{Attribute, attribs_len, parse, parse_key, parse_value, before, with_key}

-- Neither a space nor an equals sign.
abbrev pub Plain : List ℕ → Type 0
Plain [] = Unit
Plain (c ∷ cs) = (c ≢ 61) × (c ≢ 32) × Plain cs

-- Each name and value, as `name=value` and a space.
abbrev pub line_of : List (List ℕ × List ℕ) → List ℕ
line_of [] = []
line_of (p ∷ pairs) = p.0 ++ (61 ∷ (p.1 ++ (32 ∷ line_of pairs)))

abbrev pub AllPlain : List (List ℕ × List ℕ) → Type 0
AllPlain [] = Unit
AllPlain (p ∷ pairs) = Plain (p.0) × Plain (p.1) × AllPlain pairs

-- The pairs put into the pool one after the other.
abbrev pub emplace_all : Pool Attribute → List (List ℕ × List ℕ) → Option (Pool Attribute)
emplace_all attribs [] = some attribs
emplace_all attribs (p ∷ pairs) = do
  (_, attribs') ←
      Pool.emplace_anywhere attribs_len attribs (record { name = p.0; value = some (p.1) })
  emplace_all attribs' pairs

parse_key-Plain : (k rest : List ℕ) → Plain k → parse_key (k ++ (61 ∷ rest)) ≡ (some k, rest)
unfolding parse_key
parse_key-Plain [] rest h = refl
parse_key-Plain (c ∷ k) rest (p, q, h) =
    rw (ne→==_false c 61 p, ne→==_false c 32 q) (ap (before c) (parse_key-Plain k rest h))

parse_value-Plain : (v rest : List ℕ) → Plain v → parse_value (v ++ (32 ∷ rest)) ≡ (some v, rest)
unfolding parse_value
parse_value-Plain [] rest h = refl
parse_value-Plain (c ∷ v) rest (p, q, h) =
    rw (ne→==_false c 61 p, ne→==_false c 32 q) (ap (before c) (parse_value-Plain v rest h))

key_of_nothing : (k s' : List ℕ) → parse_key [] ≡ (some k, s') → ⊥
unfolding parse_key
key_of_nothing k s' h = let e : none ≡ some k = ap (λ (r : Option (List ℕ) × List ℕ). r.0) h in cc

parse-round :
    (fuel : ℕ) (attribs : Pool Attribute) (s s' s'' k : List ℕ) (v : Option (List ℕ))
    → parse_key s ≡ (some k, s')
    → parse_value s' ≡ (v, s'')
    → parse (suc fuel) attribs s ≡ (do
      (_, attribs') ← Pool.emplace_anywhere attribs_len attribs (record { name = k; value = v })
      parse fuel attribs' s'')
unfolding parse
parse-round fuel attribs [] s' s'' k v h e = absurd (key_of_nothing k s' h)
parse-round fuel attribs (c ∷ s) s' s'' k v h e =
    ap (with_key (parse fuel) attribs) h
    ∙ ap
        (λ (r : Option (List ℕ) × List ℕ).
          Pool.emplace_anywhere attribs_len attribs (record { name = k; value = r.0 })
          >>= (λ x. parse fuel (x.1) (r.1)))
        e

parse-end : (fuel : ℕ) (attribs : Pool Attribute) → parse (suc fuel) attribs [] ≡ some attribs
unfolding parse
parse-end fuel attribs = refl

-- With fuel for each of them, parsing the line that pairs make, of texts without spaces and equals signs,
-- puts them into the pool as they stand, in order, or fails where putting them there fails.
pub parse-line_of :
    (fuel : ℕ) (attribs : Pool Attribute) (pairs : List (List ℕ × List ℕ))
    → length pairs < fuel
    → AllPlain pairs
    → parse fuel attribs (line_of pairs) ≡ emplace_all attribs pairs
parse-line_of zero attribs pairs h q = elim h [ ]
parse-line_of (suc fuel) attribs [] h q = parse-end fuel attribs
parse-line_of (suc fuel) attribs (p ∷ pairs) h (key, value, q) =
    parse-round fuel attribs (line_of (p ∷ pairs)) (p.1 ++ (32 ∷ line_of pairs)) (line_of pairs)
      (p.0) (some (p.1)) (parse_key-Plain (p.0) (p.1 ++ (32 ∷ line_of pairs)) key)
      (parse_value-Plain (p.1) (line_of pairs) value)
    ∙ ap
        (λ f.
          Pool.emplace_anywhere attribs_len attribs (record { name = p.0; value = some (p.1) })
          >>= f)
        (fun_ext (λ r. parse-line_of fuel (r.1) pairs (omega (arith, h)) q))
