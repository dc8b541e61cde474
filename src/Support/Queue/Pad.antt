-- ===== src/Support/Queue/Pad.antt =====
-- `replace`: writing at an offset from the front, which first lengthens the queue with `T()`.
use native.Mathlib.Nat.{add-mod_right}
use peos.Prelude.{
  ℕ, zero, suc, ◌+◌, ◌-◌, ◌%◌, ◌≤◌, ◌<◌, ◌≡◌, refl, ap, sym, ◌∙◌, true, some, List, [], ◌∷◌, ◌++◌,
  arith, length, set, leb, le→ltb_false, le→leb, lt→leb_false, max, dec_le,
}
use peos.Prelude.Int.{pos, ◌+ℤ◌, +ℤ-pos}
use peos.Prelude.Array.{update}
use peos.Support.Queue.{Queue, size, push_back, reaches_end, fill, store, slot, replace}
use peos.Support.Queue.Window.{window, window-set}
use peos.Support.Queue.Fifo.{IsValid, contents, length-contents, push_back-contents, push_back-full}

-- The list with `v` at index `i`, lengthened by `default` up to there.
abbrev pub set_grow {ℓ} : {A : Type ℓ} → A → List A → ℕ → A → List A
set_grow d [] zero v = v ∷ []
set_grow d [] (suc i) v = d ∷ set_grow d [] i v
set_grow d (x ∷ xs) zero v = v ∷ xs
set_grow d (x ∷ xs) (suc i) v = x ∷ set_grow d xs i v

module _ {ℓ} {A : Type ℓ} (max_len : ℕ) (default : A) where
  set_grow-snoc :
      (xs : List A) (i : ℕ) (v : A)
      → length xs ≤ i
      → set_grow default (xs ++ (default ∷ [])) i v ≡ set_grow default xs i v
  set_grow-snoc [] zero v h = refl
  set_grow-snoc [] (suc i) v h = refl
  set_grow-snoc (x ∷ xs) zero v h = elim h [ ]
  set_grow-snoc (x ∷ xs) (suc i) v h = ap (◌∷◌ x) (set_grow-snoc xs i v (omega arith))

  set_grow-set :
      (xs : List A) (i : ℕ) (v : A) → i < length xs → set_grow default xs i v ≡ set xs i v
  set_grow-set [] i v h = elim h [ ]
  set_grow-set (x ∷ xs) zero v h = refl
  set_grow-set (x ∷ xs) (suc i) v h = ap (◌∷◌ x) (set_grow-set xs i v (omega arith))

  pub length-set_grow :
      (xs : List A) (i : ℕ) (v : A) → length (set_grow default xs i v) ≡ max (length xs) (suc i)
  length-set_grow [] zero v = omega arith
  length-set_grow [] (suc i) v = omega (arith, length-set_grow [] i v)
  length-set_grow (x ∷ xs) zero v = omega arith
  length-set_grow (x ∷ xs) (suc i) v = omega (arith, length-set_grow xs i v)

  reaches_end_lem :
      (q : Queue A) (i : ℕ)
      → q.read_idx ≤ q.write_idx
      → reaches_end max_len default q (pos i) ≡ leb (size q) i
  unfolding reaches_end size ◌+ℤ◌
  reaches_end_lem q i h = ground arith

  -- What the loop of `replace` has done when it stops.
  record Filled (q : Queue A) (i : ℕ) (p : Queue A) : Type ℓ where
    valid : IsValid max_len p
    long : size p ≡ max (size q) (suc i)
    padded :
        (v : A)
        → set_grow default (contents max_len p) i v ≡ set_grow default (contents max_len q) i v

  fill_lem :
      (fuel : ℕ) (q : Queue A) (i : ℕ)
      → max_len < fuel + size q
      → IsValid max_len q
      → i < max_len
      → Filled q i (fill max_len default fuel q (pos i))
  unfolding fill
  fill_lem zero q i f v h = record { valid = v; long = omega arith; padded = λ w. refl }
  fill_lem (suc fuel) q i f v h = elim (dec_le (size q) i) [
    | yes short ↦
        let pushed = push_back-contents max_len q default v (omega arith) in
        let rest = fill_lem fuel (push_back max_len q default).1 i (omega arith) pushed.2 h in
        rw (reaches_end_lem q i v.ordered, le→leb _ _ short, pushed.0)
          (record {
            valid = rest.valid;
            long = omega (arith, rest.long);
            padded = λ w.
                rest.padded w
                ∙ ap (λ xs. set_grow default xs i w) pushed.1
                ∙ set_grow-snoc (contents max_len q) i w (omega (arith, length-contents max_len q));
          })
    | no enough ↦
        rw (reaches_end_lem q i v.ordered, lt→leb_false (size q) i (omega arith))
          (record { valid = v; long = omega arith; padded = λ w. refl })
  ]

  store_lem :
      (p : Queue A) (i : ℕ) (v : A)
      → p.read_idx ≤ p.write_idx
      → i ≤ size p
      → store max_len default p (pos i) v
        ≡ some (true, record p { items = update p.items ((p.read_idx + i) % max_len) v })
  unfolding store size slot
  store_lem p i v o h =
      rw (+ℤ-pos p.read_idx i, le→ltb_false (p.write_idx + 0) (p.read_idx + i + 0) (omega arith))

  -- On a valid queue, `replace` at an offset below the capacity succeeds: the contents are lengthened with
  -- the default value up to the offset, the value stands there, and the queue is valid.
  pub replace-contents :
      (q : Queue A) (i : ℕ) (v : A)
      → IsValid max_len q
      → i < max_len
      → (p : Queue A) × (replace max_len default q (pos i) v ≡ some (true, p))
        × (contents max_len p ≡ set_grow default (contents max_len q) i v)
        × IsValid max_len p
  unfolding replace size
  replace-contents q i v valid h = (
    record p { items = update p.items ((p.read_idx + i) % max_len) v },
    store_lem p i v d.valid.ordered (omega (arith, d.long)),
    window-set max_len p.items p.read_idx n i v (omega (arith, d.valid.fits))
          (omega (arith, d.long))
        ∙ sym (
            set_grow-set (contents max_len p) i v
              (omega (arith, length-contents max_len p, d.long)))
        ∙ d.padded v,
    record {
      room = valid.room;
      ordered = d.valid.ordered;
      fits = d.valid.fits;
      small = d.valid.small;
    },
  )
    where
      d : Filled q i (fill max_len default (suc max_len) q (pos i))
      d = fill_lem (suc max_len) q i (omega arith) valid h

      p : Queue A
      p = fill max_len default (suc max_len) q (pos i)

      n : ℕ
      n = p.write_idx - p.read_idx

  fill-full :
      (q : Queue A) (o : ℕ)
      → q.read_idx ≤ q.write_idx
      → size q ≡ max_len
      → fill max_len default (suc max_len) q (pos o) ≡ q
  unfolding fill
  fill-full q o h e =
      ground (arith, reaches_end_lem q o h, push_back-full max_len q default (omega arith))

  -- The bound of `replace` lets one offset too many through: on a full queue, the offset `_MaxLen`
  -- is accepted, and the write lands on the front value.
  pub replace-full :
      (q : Queue A) (v : A)
      → IsValid max_len q
      → size q ≡ max_len
      → (p : Queue A) × (replace max_len default q (pos max_len) v ≡ some (true, p))
        × (contents max_len p ≡ set (contents max_len q) 0 v)
  unfolding replace size
  replace-full q v valid e = (
    record q { items = update q.items ((q.read_idx + max_len) % max_len) v },
    rw (fill-full q max_len valid.ordered e) (store_lem q max_len v valid.ordered (omega arith)),
    ap (λ t. window max_len (update q.items t v) q.read_idx (q.write_idx - q.read_idx)) round
        ∙ window-set max_len q.items q.read_idx (q.write_idx - q.read_idx) 0 v (omega arith)
            (omega (arith, valid.room)),
  )
    where
      round : (q.read_idx + max_len) % max_len ≡ (q.read_idx + 0) % max_len
      round = add-mod_right q.read_idx max_len ∙ ap (λ t. t % max_len) (omega arith)
