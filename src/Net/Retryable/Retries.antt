-- ===== src/Net/Retryable/Retries.antt =====
-- The operation is called five times at most.
use peos.Prelude.{
  ℕ, ◌+◌, ◌≤◌, ◌≡◌, refl, true, false, List, [], ◌∷◌, arith, if◌then◌else◌, Bool-cases, ◌⊎◌, inl,
  inr, dec_lt, lt→ltb, le→ltb_false,
}
use peos.Prelude.Int.{ℤ, pos, ◌-ℤ◌, ltb_ℤ}
use peos.Net.Retryable.{Retryable, tick, retry}

-- How often the operation is called over the ticks, while the probe is alive.
unfoldable pub calls : Retryable → List ℤ → ℕ
calls r [] = 0
calls r (dt ∷ dts) =
    let t = tick r dt in
    let rest = calls t.left dts in (if t.called then 1 else 0) + (if t.alive then rest else 0)

-- The outcomes of a tick: it waits, it calls the operation, or it gives up.
tick_cases :
    (r : Retryable) (dt : ℤ)
    → (((tick r dt).called ≡ false)
        × ((tick r dt).alive ≡ true)
        × ((tick r dt).left.retries ≡ r.retries))
      ⊎ (((tick r dt).called ≡ true)
          × ((tick r dt).alive ≡ true)
          × (r.retries ≤ 4)
          × ((tick r dt).left.retries ≡ r.retries + 1))
      ⊎ (((tick r dt).called ≡ false) × ((tick r dt).alive ≡ false))
unfolding tick retry
tick_cases r dt = elim (Bool-cases (ltb_ℤ (pos 0) (r.retry_timer -ℤ dt))) [
  | inl wait ↦ inl (rw wait (refl, refl, refl))
  | inr up ↦ elim (dec_lt 4 r.retries) [
    | yes many ↦ inr (inr (rw (up, lt→ltb 4 r.retries many) (refl, refl)))
    | no few ↦ inr (
        inl (
          rw (up, le→ltb_false 4 r.retries (omega (arith, few)))
            (refl, refl, omega (arith, few), refl)))
  ]
]

-- Over any ticks, as long as the probe is not reset, the operation is called at most as often as there are
-- tries left of five.
pub calls_le : (r : Retryable) (dts : List ℤ) → r.retries ≤ 5 → calls r dts + r.retries ≤ 5
unfolding calls
calls_le r [] h = omega arith
calls_le r (dt ∷ dts) h = by_case (tick_cases r dt) (calls_le (tick r dt).left dts)
  where
    by_case :
        (((tick r dt).called ≡ false)
            × ((tick r dt).alive ≡ true)
            × ((tick r dt).left.retries ≡ r.retries))
          ⊎ (((tick r dt).called ≡ true)
              × ((tick r dt).alive ≡ true)
              × (r.retries ≤ 4)
              × ((tick r dt).left.retries ≡ r.retries + 1))
          ⊎ (((tick r dt).called ≡ false) × ((tick r dt).alive ≡ false))
        → ((tick r dt).left.retries ≤ 5 → calls (tick r dt).left dts + (tick r dt).left.retries ≤ 5)
        → calls r (dt ∷ dts) + r.retries ≤ 5
    by_case (inl (c, a, e)) k = rw (c, a) (omega (arith, e, k (omega (arith, e))))
    by_case (inr (inl (c, a, l, e))) k = rw (c, a) (omega (arith, e, l, k (omega (arith, e, l))))
    by_case (inr (inr (c, a))) k = rw (c, a) (omega (arith, h))
