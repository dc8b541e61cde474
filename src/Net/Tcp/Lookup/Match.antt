-- ===== src/Net/Tcp/Lookup/Match.antt =====
-- The search for the connection that matches a segment best.
use peos.Prelude.{
  ℕ, ◌≤◌, ◌≡◌, refl, ap, sym, ◌∙◌, true, false, Option, none, some, List, [], ◌∷◌, arith, ◌==◌,
  ne→==_false, inl, inr, ◌⊎◌, Bool-cases, ==_iff, subst, dec_lt, lt→ltb,
}
use peos.Support.Pool.{Pool, end_sentinel}
use peos.Support.Pool
use peos.Support.Pool.FreeList.{elem}
use peos.Support.Pool.Inv.{Inv, valid_iff, at-some}
use peos.Support.Pool.Indices.{indices_iff}
use peos.Net.Tcp.Definitions.{Endpoint}
use peos.Net.Tcp.Env.{Connection, connections_len}
use peos.Net.Tcp.Connection.{compare}
use peos.Net.Tcp.Lookup.{beats, best_of, find_best_match}

module _ (p : Pool Connection) (remote local : Endpoint) where
  -- The score of the connection in a slot, as the search sees it.
  abbrev pub Scores : ℕ → Option ℕ → Type 0
  Scores i score = (c : Connection) × (Pool.at p i ≡ some c) × (compare c remote local ≡ score)

  -- No slot of the list has a score over the one given.
  abbrev Unbeaten : List ℕ → Option ℕ → Type 0
  Unbeaten is best =
      (j : ℕ) → elem j is ≡ true → (score : Option ℕ) → Scores j score → beats score best ≡ false

  -- The result is the index so far, with the score so far, or a slot of the list with its own score.
  record Best (is : List ℕ) (best : Option ℕ) (it result : ℕ) : Type 0 where
    top : Option ℕ
    unbeaten : Unbeaten is top
    above : beats best top ≡ false
    origin :
        ((result ≡ it) × (top ≡ best))
        ⊎ ((elem result is ≡ true) × ((n : ℕ) × (top ≡ some n)) × Scores result top)

  beats_trans : (a b c : Option ℕ) → beats b a ≡ true → beats a c ≡ true → beats b c ≡ true
  beats_trans none b none h k = cc
  beats_trans none b (some c) h k = cc k
  beats_trans (some a) none c h k = cc h
  beats_trans (some a) (some b) none h k = refl
  beats_trans (some a) (some b) (some c) h k = ground arith

  not_beaten : (a b c : Option ℕ) → beats b a ≡ true → beats b c ≡ false → beats a c ≡ false
  not_beaten a b c h k = elim (Bool-cases (beats a c)) [
    | inl e ↦ cc (k, beats_trans a b c h e)
    | inr e ↦ e
  ]

  not_over : (a b c : Option ℕ) → beats b a ≡ false → beats a c ≡ false → beats b c ≡ false
  not_over none none c h k = refl
  not_over none (some b) c h k = cc h
  not_over (some a) none c h k = refl
  not_over (some a) (some b) none h k = cc k
  not_over (some a) (some b) (some c) h k = ground arith

  -- The head's own score, and what the rest is about.
  Unbeaten-cons :
      (i : ℕ) (is : List ℕ) (score top : Option ℕ)
      → Scores i score
      → beats score top ≡ false
      → Unbeaten is top
      → Unbeaten (i ∷ is) top
  Unbeaten-cons i is score top h b u j e other k = elim (Bool-cases (j == i)) [
    | inl s ↦ subst (λ t. beats t top ≡ false) (same ((==_iff j i).0 s)) b
    | inr s ↦ u j (ground arith) other k
  ]
    where
      same : j ≡ i → score ≡ other
      same e = cc (h.1, h.2, k.1, k.2, e)

  not_self : (a : Option ℕ) → beats a a ≡ false
  not_self none = refl
  not_self (some a) = ground arith

  beats-some : (a b : Option ℕ) → beats a b ≡ true → (n : ℕ) × (a ≡ some n)
  beats-some none b h = cc h
  beats-some (some a) b h = (a, refl)

  elem_head : (i : ℕ) (is : List ℕ) → elem i (i ∷ is) ≡ true
  elem_head i is = ground arith

  elem_tail : (i j : ℕ) (is : List ℕ) → elem j is ≡ true → elem j (i ∷ is) ≡ true
  elem_tail i j is h = ground arith

  -- The head beats the best so far.
  taken :
      (i : ℕ) (is : List ℕ) (score best : Option ℕ) (it result : ℕ)
      → Scores i score
      → beats score best ≡ true
      → Best is score i result
      → Best (i ∷ is) best it result
  taken i is score best it result h e r = record {
    top = r.top;
    unbeaten = Unbeaten-cons i is score r.top h r.above r.unbeaten;
    above = not_beaten best score r.top e r.above;
    origin = elim r.origin [
      | inl (here, same) ↦
          let some_score = beats-some score best e in
          inr (
            ap (λ t. elem t (i ∷ is)) here ∙ elem_head i is,
            (some_score.0, same ∙ some_score.1),
            (h.0, ap (Pool.at p) here ∙ h.1, h.2 ∙ sym same),
          )
      | inr (there, n, own) ↦ inr (elem_tail i result is there, n, own)
    ];
  }

  passed :
      (i : ℕ) (is : List ℕ) (score best : Option ℕ) (it result : ℕ)
      → Scores i score
      → beats score best ≡ false
      → Best is best it result
      → Best (i ∷ is) best it result
  passed i is score best it result h e r = record {
    top = r.top;
    unbeaten = Unbeaten-cons i is score r.top h (not_over best score r.top e r.above) r.unbeaten;
    above = r.above;
    origin = elim r.origin [
      | inl same ↦ inl same
      | inr (there, n, own) ↦ inr (elem_tail i result is there, n, own)
    ];
  }

  best_of-Best :
      (is : List ℕ) (best : Option ℕ) (it : ℕ)
      → ((j : ℕ) → elem j is ≡ true → (c : Connection) × (Pool.at p j ≡ some c))
      → (result : ℕ) × (best_of p remote local is best it ≡ some result) × Best is best it result
  unfolding best_of
  best_of-Best [] best it h = (
    it,
    refl,
    record { top = best; unbeaten = λ j e. cc e; above = not_self best; origin = inl (refl, refl) },
  )
  best_of-Best (i ∷ is) best it h =
      let (c, ec) = h i (elem_head i is) in
      let score = compare c remote local in
      elim (Bool-cases (beats score best)) [
        | inl e ↦
            let (result, er, r) = best_of-Best is score i (λ j k. h j (elem_tail i j is k)) in
            (result, rw (ec, e) er, taken i is score best it result (c, ec, refl) e r)
        | inr e ↦
            let (result, er, r) = best_of-Best is best it (λ j k. h j (elem_tail i j is k)) in
            (result, rw (ec, e) er, passed i is score best it result (c, ec, refl) e r)
      ]

  -- In a table under the invariant the search succeeds. If it gives the sentinel, no connection matches.
  -- Otherwise it gives a connection that matches, and no connection matches in more fields.
  pub find_best_match-most_specific :
      (free : List ℕ)
      → Inv connections_len p free
      → (result : ℕ) × (find_best_match p remote local ≡ some result)
        × (((result ≡ end_sentinel)
              × ((j : ℕ)
                  → Pool.valid p j ≡ true
                  → (score : Option ℕ) → Scores j score
                  → score ≡ none))
            ⊎ ((Pool.valid p result ≡ true)
                × ((n : ℕ) × Scores result (some n)
                    × ((j : ℕ) → Pool.valid p j ≡ true → (m : ℕ) → Scores j (some m) → m ≤ n))))
  unfolding find_best_match
  find_best_match-most_specific free v =
      let (it, e, r) =
        best_of-Best (Pool.indices p) none p.watermark
          (λ j h. at-some connections_len p free v j ((indices_iff p j).0 h)) in
      let others = λ (j : ℕ) (h : Pool.valid p j ≡ true) (s : Option ℕ) (k : Scores j s).
        r.unbeaten j ((indices_iff p j).1 h) s k in
      elim r.origin [
        | inl (at_end, none_top) ↦ (
          end_sentinel,
          rw (e, (==_iff it p.watermark).1 at_end) refl,
          inl (refl, λ j h s k. unmatched s r.top none_top (others j h s k)),
        )
        | inr (there, (n, top), own) ↦
            let is_valid = (indices_iff p it).0 there in
            let below = ((valid_iff connections_len p free v it).0 is_valid).0 in
            (
              it,
              rw (e, ne→==_false it p.watermark (omega (arith, below))) refl,
              inr (
                is_valid,
                (
                  n,
                  (own.0, own.1, own.2 ∙ top),
                  λ j h m k. no_more m n r.top top (others j h (some m) k),
                ),
              ),
            )
      ]
    where
      unmatched : (s top : Option ℕ) → top ≡ none → beats s top ≡ false → s ≡ none
      unmatched none top e h = refl
      unmatched (some m) top e h = cc (h, ap (beats (some m)) e)

      no_more : (m n : ℕ) (top : Option ℕ) → top ≡ some n → beats (some m) top ≡ false → m ≤ n
      no_more m n top e h = elim (dec_lt n m) [
        | yes more ↦ cc (h, ap (beats (some m)) e, lt→ltb n m more)
        | no le ↦ omega (arith, le)
      ]
