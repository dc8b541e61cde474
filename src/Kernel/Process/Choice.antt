-- ===== src/Kernel/Process/Choice.antt =====
-- The scheduler's choice: the process of the running queue that ran the longest time ago.
use mathlib.Core.Option
use peos.Prelude.{
  ℕ, zero, suc, ◌-◌, ◌^◌, ◌≤◌, ◌<◌, ◌≡◌, ◌⊎◌, refl, ap, sym, ◌∙◌, subst, true, false, some, List,
  [], ◌∷◌, arith, inl, inr, length, ltb, ◌==◌, if◌then◌else◌, Bool-cases, ==_iff, ne→==_false,
  ltb→lt,
}
use peos.Support.Pool.{Pool, end_sentinel}
use peos.Support.Pool
use peos.Support.Pool.Inv.{valid_at, valid_iff}
use peos.Support.Pool.FreeList.{elem, Below, length-le, elem-Below}
use peos.Kernel.Process.{
  Process, Sched, processes_len, Queue, running, ◌>>=◌, pure, lift, least, decide_next_process,
}
use peos.Kernel.Process.Links.{Chain}
use peos.Kernel.Process.Queues.{next_at, prev_at, links_of}
use peos.Kernel.Process.Queued.{Queued, all-Below, below}

-- When a process last ran.
abbrev pub tick_at : Pool Process → ℕ → ℕ
tick_at ps i = Option.get_or (Option.map (λ (p : Process). p.last_tick) (Pool.at ps i)) 0

-- `r` is the outcome for the nodes `xs`, after the least tick `t` so far at `m`.
abbrev Outcome : Pool Process → List ℕ → ℕ → ℕ → ℕ → Type 0
Outcome ps xs t m r =
    ((r ≡ m) × ((j : ℕ) → elem j xs ≡ true → t ≤ tick_at ps j))
    ⊎ ((elem r xs ≡ true)
        × (tick_at ps r < t)
        × ((j : ℕ) → elem j xs ≡ true → tick_at ps r ≤ tick_at ps j))

least-Outcome :
    (ps : Pool Process) (prev : ℕ → ℕ) (xs : List ℕ) (fuel back node t m : ℕ)
    → Chain (next_at ps) prev back node xs
    → Below end_sentinel xs
    → ((j : ℕ) → elem j xs ≡ true → (p : Process) × (Pool.at ps j ≡ some p))
    → length xs ≤ fuel
    → (r : ℕ) × (least fuel ps node t m ≡ some r) × Outcome ps xs t m r
unfolding least
least-Outcome ps prev [] zero back node t m c b h le =
    (m, rw ((==_iff node end_sentinel).1 c) refl, inl (refl, λ j e. cc e))
least-Outcome ps prev [] (suc fuel) back node t m c b h le =
    (m, rw ((==_iff node end_sentinel).1 c) refl, inl (refl, λ j e. cc e))
least-Outcome ps prev (x ∷ xs) zero back node t m c b h le = absurd (omega arith)
least-Outcome ps prev (x ∷ xs) (suc fuel) back node t m c b h le =
    let (p, e) = h x (rw ((==_iff x x).1 refl) refl) in
    let at_node : Pool.at ps node ≡ some p = ap (Pool.at ps) c.0 ∙ e in
    let tick : tick_at ps x ≡ p.last_tick =
      ap (λ o. Option.get_or (Option.map (λ (q : Process). q.last_tick) o) 0) e in
    let chain : Chain (next_at ps) prev x p.next_process xs =
      subst (λ n. Chain (next_at ps) prev x n xs) (links_of ps x p e).0 c.2 in
    let later = λ (t' m' : ℕ).
      least-Outcome ps prev xs fuel x p.next_process t' m' chain b.1 (λ j k. h j (tail_in j k))
        (omega arith) in
    elim (Bool-cases (ltb p.last_tick t)) [
      | inl lt ↦
          let (r, did, o) = later p.last_tick node in
          (
            r,
            rw (ne→==_false node end_sentinel (omega (arith, c.0, b.0)), at_node, lt) did,
            lower p tick lt o,
          )
      | inr ge ↦
          let (r, did, o) = later t m in
          (
            r,
            rw (ne→==_false node end_sentinel (omega (arith, c.0, b.0)), at_node, ge) did,
            higher p tick ge o,
          )
    ]
  where
    tail_in : (j : ℕ) → elem j xs ≡ true → elem j (x ∷ xs) ≡ true
    tail_in j k = ground arith

    all_of :
        (bound : ℕ)
        → bound ≤ tick_at ps x
        → ((j : ℕ) → elem j xs ≡ true → bound ≤ tick_at ps j)
        → (j : ℕ) → elem j (x ∷ xs) ≡ true
        → bound ≤ tick_at ps j
    all_of bound le h j k = elim (Bool-cases (j == x)) [
      | inl e ↦ subst (λ z. bound ≤ tick_at ps z) (sym ((==_iff j x).0 e)) le
      | inr n ↦ h j (rw n at k)
    ]

    lower :
        {r : ℕ} (p : Process)
        → tick_at ps x ≡ p.last_tick
        → ltb p.last_tick t ≡ true
        → Outcome ps xs p.last_tick node r
        → Outcome ps (x ∷ xs) t m r
    lower {r} p tick lt (inl (e, h)) =
        let r_x : x ≡ r = sym (e ∙ c.0) in
        inr (
          subst
            (λ z.
              (elem z (x ∷ xs) ≡ true)
              × (tick_at ps z < t)
              × ((j : ℕ) → elem j (x ∷ xs) ≡ true → tick_at ps z ≤ tick_at ps j))
            r_x
            (
              rw ((==_iff x x).1 refl) refl,
              omega (arith, tick, ltb→lt p.last_tick t lt),
              all_of (tick_at ps x) (omega arith) (λ j k. omega (arith, h j k, tick)),
            ))
    lower {r} p tick lt (inr (e, l, h)) = inr (
      tail_in r e,
      omega (arith, l, ltb→lt p.last_tick t lt),
      all_of (tick_at ps r) (omega (arith, l, tick)) h,
    )

    higher :
        {r : ℕ} (p : Process)
        → tick_at ps x ≡ p.last_tick
        → ltb p.last_tick t ≡ false
        → Outcome ps xs t m r
        → Outcome ps (x ∷ xs) t m r
    higher p tick ge (inl (e, h)) = inl (e, all_of t (ground arith) h)
    higher {r} p tick ge (inr (e, l, h)) =
        inr (tail_in r e, l, all_of (tick_at ps r) (ground arith) h)

-- In a table whose queues are linked, the choice is made: with no process running it is the idle process,
-- and otherwise a running process that ran before each of the others, or at the same time. The ticks
-- have 64 bits, and the highest is not yet reached. Nothing changes.
pub decide_next_process-least :
    (s : Sched) (free : List ℕ) (lists : Queue → List ℕ)
    → Queued s free lists
    → ((j : ℕ) → elem j (lists running) ≡ true → tick_at s.processes j < 2 ^ 64 - 1)
    → (pid : ℕ) × (decide_next_process s ≡ some (pid, s))
      × (((lists running ≡ []) × (pid ≡ s.idle_process))
          ⊎ ((elem pid (lists running) ≡ true)
              × ((j : ℕ)
                  → elem j (lists running) ≡ true
                  → tick_at s.processes pid ≤ tick_at s.processes j)))
unfolding decide_next_process
decide_next_process-least s free lists v early =
    let (r, did, o) =
      least-Outcome s.processes (prev_at s.processes) (lists running) (2 ^ 16) end_sentinel
        s.running_head (2 ^ 64 - 1) end_sentinel (v.chain running) (below s free lists v running)
        (λ j k. let (p, e, _, _) = v.members running j k in (p, e))
        (omega (arith, length-le 128 (lists running) small (v.distinct running))) in
    chosen r did o
  where
    small : Below 128 (lists running)
    small = all-Below 128 (lists running) (λ i m.
        let (p, e, _, _) = v.members running i m in
        omega (
          arith,
          ((valid_iff processes_len s.processes free v.inv i).0
              (valid_at processes_len s.processes free v.inv i p e)).0,
          v.inv.bounded,
        ))

    none_running : (xs : List ℕ) → ((j : ℕ) → elem j xs ≡ true → ⊥) → xs ≡ []
    none_running [] h = refl
    none_running (x ∷ xs) h = absurd (h x (rw ((==_iff x x).1 refl) refl))

    chosen :
        (r : ℕ)
        → least (2 ^ 16) s.processes s.running_head (2 ^ 64 - 1) end_sentinel ≡ some r
        → Outcome s.processes (lists running) (2 ^ 64 - 1) end_sentinel r
        → (pid : ℕ) × ((lift (least (2 ^ 16) s.processes s.running_head (2 ^ 64 - 1) end_sentinel)
                >>= (λ m. pure (if m == end_sentinel then s.idle_process else m)))
              s
            ≡ some (pid, s))
          × (((lists running ≡ []) × (pid ≡ s.idle_process))
              ⊎ ((elem pid (lists running) ≡ true)
                  × ((j : ℕ)
                      → elem j (lists running) ≡ true
                      → tick_at s.processes pid ≤ tick_at s.processes j)))
    chosen r did (inl (e, h)) = (
      s.idle_process,
      rw (did, (==_iff r end_sentinel).1 e) refl,
      inl (none_running (lists running) (λ j k. omega (arith, h j k, early j k)), refl),
    )
    chosen r did (inr (e, l, h)) = (
      r,
      rw (did, ne→==_false r end_sentinel (omega (arith, elem-Below r 128 (lists running) small e)))
          refl,
      inr (e, h),
    )
