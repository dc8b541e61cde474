-- ===== src/Support/Queue/Window.antt =====
-- Runs of slots of a circular array, read from an index that is reduced at each access.
use native.Mathlib.Nat.{add-zero, add-mod_right}
use peos.Prelude.{
  ℕ, zero, suc, ◌+◌, ◌-◌, ◌*◌, ◌%◌, ◌≤◌, ◌<◌, ◌≡◌, refl, ap, ap₂, subst, ◌∙◌, ◌≢◌, List, [], ◌∷◌,
  ◌++◌, arith, length, set, take, drop, min, get_elem?, some,
}
use peos.Prelude.Array.{update, update_self, update_ne}
use peos.Prelude.Modular.{mod-ne, mod-sub-mul}

module _ {ℓ} {A : Type ℓ} (max_len : ℕ) where
  -- `n` values from index `h` on.
  abbrev pub window : (ℕ → A) → ℕ → ℕ → List A
  window f h zero = []
  window f h (suc n) = f (h % max_len) ∷ window f (suc h) n

  pub length-window : (f : ℕ → A) (h n : ℕ) → length (window f h n) ≡ n
  length-window f h zero = refl
  length-window f h (suc n) = ap suc (length-window f (suc h) n)

  -- Moving the start down by a multiple of the capacity changes nothing.
  pub window-sub :
      (f : ℕ → A) (h k n : ℕ) → k * max_len ≤ h → window f (h - k * max_len) n ≡ window f h n
  window-sub f h k zero p = refl
  window-sub f h k (suc n) p =
      ap₂ ◌∷◌ (ap f (mod-sub-mul h k max_len p))
        (ap (λ t. window f t n) (omega arith) ∙ window-sub f (suc h) k n (omega arith))

  -- A write further on in the same round is not seen.
  pub window-update :
      (f : ℕ → A) (h n w : ℕ) (x : A)
      → h + n ≤ w
      → w < h + max_len
      → window (update f (w % max_len) x) h n ≡ window f h n
  window-update f h zero w x p q = refl
  window-update f h (suc n) w x p q =
      ap₂ ◌∷◌ (update_ne f (w % max_len) (h % max_len) x apart)
        (window-update f (suc h) n w x (omega arith) (omega arith))
    where
      apart : w % max_len ≢ h % max_len
      apart =
          subst (λ t. t % max_len ≢ h % max_len) {x = h + (w - h)} (omega arith)
            (mod-ne h (w - h) max_len (omega arith) (omega arith))

  pub window-snoc :
      (f : ℕ → A) (h n : ℕ) → window f h (suc n) ≡ window f h n ++ (f ((h + n) % max_len) ∷ [])
  window-snoc f h zero = ap (λ t. f (t % max_len) ∷ []) (omega arith)
  window-snoc f h (suc n) = ap (◌∷◌ (f (h % max_len))) (
      window-snoc f (suc h) n
      ∙ ap (λ t. window f (suc h) n ++ (f (t % max_len) ∷ [])) (omega arith))

  -- A write inside the window sets that value.
  pub window-set :
      (f : ℕ → A) (h n i : ℕ) (x : A)
      → n ≤ max_len
      → i < n
      → window (update f ((h + i) % max_len) x) h n ≡ set (window f h n) i x
  window-set f h zero i x p q = elim q [ ]
  window-set f h (suc n) zero x p q = ap₂ ◌∷◌ (rw add-zero (update_self f (h % max_len) x)) (
      ap (λ t. window (update f t x) (suc h) n) round
      ∙ window-update f (suc h) n (h + max_len) x (omega arith) (omega arith))
    where
      round : (h + 0) % max_len ≡ (h + max_len) % max_len
      round = omega (arith, add-mod_right h max_len, ap (λ t. t % max_len) (add-zero h))
  window-set f h (suc n) (suc i) x p q =
      ap₂ ◌∷◌
        (update_ne f ((h + suc i) % max_len) (h % max_len) x
          (mod-ne h (suc i) max_len (omega arith) (omega arith)))
        (ap (λ t. window (update f (t % max_len) x) (suc h) n) (omega arith)
          ∙ window-set f (suc h) n i x (omega arith) (omega arith))

  pub window-drop : (f : ℕ → A) (h n k : ℕ) → drop k (window f h n) ≡ window f (h + k) (n - k)
  window-drop f h n zero = ap₂ (window f) (omega arith) (omega arith)
  window-drop f h zero (suc k) = ap (window f (h + suc k)) {x = 0} (omega arith)
  window-drop f h (suc n) (suc k) =
      window-drop f (suc h) n k ∙ ap₂ (window f) (omega arith) (omega arith)

  pub window-take : (f : ℕ → A) (h n k : ℕ) → take k (window f h n) ≡ window f h (min k n)
  window-take f h n zero = ap (window f h) {x = 0} (omega arith)
  window-take f h zero (suc k) = ap (window f h) {x = 0} (omega arith)
  window-take f h (suc n) (suc k) =
      ap (◌∷◌ (f (h % max_len))) (window-take f (suc h) n k)
      ∙ ap (window f h) {x = suc (min k n)} (omega arith)

  pub get_elem?-window :
      (f : ℕ → A) (h n i : ℕ) → i < n → get_elem? (window f h n) i ≡ some (f ((h + i) % max_len))
  get_elem?-window f h zero i p = elim p [ ]
  get_elem?-window f h (suc n) zero p = ap (λ t. some (f (t % max_len))) (omega arith)
  get_elem?-window f h (suc n) (suc i) p =
      get_elem?-window f (suc h) n i (omega arith) ∙ ap (λ t. some (f (t % max_len))) (omega arith)
