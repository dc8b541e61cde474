-- ===== src/Support/Queue/Fifo.antt =====
-- A queue behaves as the list of its values, oldest first.
use native.Mathlib.Nat.{div-add-mod', mod-lt}
use peos.Prelude.{
  ℕ, suc, ◌+◌, ◌-◌, ◌*◌, ◌/◌, ◌%◌, ◌≤◌, ◌<◌, ◌≡◌, refl, ap, ap₂, ◌∙◌, true, false, List, [], ◌∷◌,
  ◌++◌, arith, length, get_elem?, some,
}
use peos.Prelude.Array.{update, update_self}
use peos.Support.Queue.{Queue, size, begin, clear, index, front, normalize, push_back, pop_front}
use peos.Support.Queue.Window.{
  window, length-window, get_elem?-window, window-sub, window-update, window-snoc,
}

-- The indices do not run away: `normalize` keeps them below three times the capacity.
pub record IsValid {ℓ} {A : Type ℓ} (max_len : ℕ) (q : Queue A) : Type 0 where
  pub room : 0 < max_len
  pub ordered : q.read_idx ≤ q.write_idx
  pub fits : q.write_idx ≤ q.read_idx + max_len
  pub small : q.write_idx ≤ 2 * max_len

module _ {ℓ} {A : Type ℓ} (max_len : ℕ) where
  abbrev pub contents : Queue A → List A
  contents q = window max_len q.items q.read_idx (q.write_idx - q.read_idx)

  -- `normalize` leaves the contents alone.
  contents-normalize :
      (q : Queue A) → q.read_idx ≤ q.write_idx → contents (normalize max_len q) ≡ contents q
  unfolding normalize
  contents-normalize q h =
      ap (window max_len q.items (q.read_idx - k * max_len)) (omega (arith, below))
      ∙ window-sub max_len q.items q.read_idx k (q.write_idx - q.read_idx) below
    where
      k : ℕ
      k = q.read_idx / max_len

      below : k * max_len ≤ q.read_idx
      below = omega (arith, div-add-mod' q.read_idx max_len)

  normalize-IsValid :
      (q : Queue A)
      → 0 < max_len
      → q.read_idx ≤ q.write_idx
      → q.write_idx ≤ q.read_idx + max_len
      → IsValid max_len (normalize max_len q) × (size (normalize max_len q) ≡ size q)
  unfolding normalize size
  normalize-IsValid q m o f = (
    record {
      room = m;
      ordered = omega arith;
      fits = omega arith;
      small = omega (arith, low, rest);
    },
    omega (arith, low, rest),
  )
    where
      low : q.read_idx / max_len * max_len + q.read_idx % max_len ≡ q.read_idx
      low = div-add-mod' q.read_idx max_len

      rest : q.read_idx % max_len < max_len
      rest = mod-lt q.read_idx m

  pub push_back-full : (q : Queue A) (x : A) → max_len ≤ size q → push_back max_len q x ≡ (false, q)
  unfolding push_back size
  push_back-full q x h = ground arith

  appended : Queue A → A → Queue A
  appended q x = record q {
    items = update q.items (q.write_idx % max_len) x;
    write_idx = q.write_idx + 1;
  }

  push_back-room :
      (q : Queue A) (x : A)
      → size q < max_len
      → push_back max_len q x ≡ (true, normalize max_len (appended q x))
  unfolding push_back size appended
  push_back-room q x h = ground arith

  contents-appended :
      (q : Queue A) (x : A)
      → IsValid max_len q
      → size q < max_len
      → contents (appended q x) ≡ contents q ++ (x ∷ [])
  unfolding appended size
  contents-appended q x v h =
      ap (window max_len (update q.items (q.write_idx % max_len) x) q.read_idx)
        {y = suc (q.write_idx - q.read_idx)} (omega arith)
      ∙ window-snoc max_len (update q.items (q.write_idx % max_len) x) q.read_idx n
      ∙ ap₂ ◌++◌
          (window-update max_len q.items q.read_idx n q.write_idx x (omega arith) (omega arith))
          (ap (λ (a : A). a ∷ [])
            (ap (λ t. update q.items (q.write_idx % max_len) x (t % max_len)) (omega arith)
              ∙ update_self q.items (q.write_idx % max_len) x))
    where
      n : ℕ
      n = q.write_idx - q.read_idx

  -- On a valid queue below its capacity, `push_back` stores the value at the end of the contents; the
  -- size grows by one and the queue is valid.
  pub push_back-contents :
      (q : Queue A) (x : A)
      → IsValid max_len q
      → size q < max_len
      → ((push_back max_len q x).0 ≡ true)
        × (contents (push_back max_len q x).1 ≡ contents q ++ (x ∷ []))
        × IsValid max_len (push_back max_len q x).1
        × (size (push_back max_len q x).1 ≡ suc (size q))
  push_back-contents q x v h = rw (push_back-room q x h) (
    refl,
    contents-normalize (appended q x) (unfold appended in omega arith) ∙ contents-appended q x v h,
    near.0,
    near.1 ∙ unfold appended size in omega arith,
  )
    where
      near :
          IsValid max_len (normalize max_len (appended q x))
          × (size (normalize max_len (appended q x)) ≡ size (appended q x))
      near =
          normalize-IsValid (appended q x) v.room (unfold appended in omega arith)
            (unfold appended size in omega arith)

  -- On a valid queue that is not empty, `pop_front` hands over the first value and leaves the others; the
  -- size falls by one and the queue is valid.
  pub pop_front-contents :
      (q : Queue A)
      → IsValid max_len q
      → 0 < size q
      → (contents q ≡ (pop_front max_len q).0 ∷ contents (pop_front max_len q).1)
        × IsValid max_len (pop_front max_len q).1
        × (suc (size (pop_front max_len q).1) ≡ size q)
  unfolding pop_front size
  pop_front-contents q v h = (
    ap (window max_len q.items q.read_idx) {y = suc (q.write_idx - (q.read_idx + 1))} (omega arith)
        ∙ ap
            (λ t.
              q.items (q.read_idx % max_len)
              ∷ window max_len q.items t (q.write_idx - (q.read_idx + 1)))
            (omega arith),
    record { room = v.room; ordered = omega arith; fits = omega arith; small = v.small },
    omega arith,
  )

  pub length-contents : (q : Queue A) → length (contents q) ≡ size q
  unfolding size
  length-contents q = length-window max_len q.items q.read_idx (q.write_idx - q.read_idx)

  -- The value at index `begin() + i`.
  pub index-contents :
      (q : Queue A) (i : ℕ)
      → i < size q
      → get_elem? (contents q) i ≡ some (index max_len q (begin q + i))
  unfolding size index begin
  index-contents q i h = get_elem?-window max_len q.items q.read_idx (q.write_idx - q.read_idx) i h

  pub clear-contents :
      (q : Queue A) → 0 < max_len → (contents (clear q) ≡ []) × IsValid max_len (clear q)
  unfolding clear
  clear-contents q h =
      (refl, record { room = h; ordered = omega arith; fits = omega arith; small = omega arith })

  pub front-pop_front : (q : Queue A) → (pop_front max_len q).0 ≡ front max_len q
  unfolding pop_front front
  front-pop_front q = refl

  pub size-le : (q : Queue A) → IsValid max_len q → size q ≤ max_len
  unfolding size
  size-le q v = omega (arith, v.fits)
