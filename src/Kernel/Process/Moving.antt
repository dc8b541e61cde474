-- ===== src/Kernel/Process/Moving.antt =====
-- The steps of moving a process from its queue to the front of the other one.
use mathlib.Core.Option
use peos.Prelude.{
  ℕ, ◌≡◌, ◌≢◌, ◌⊎◌, refl, ap, ap₂, sym, ◌∙◌, subst, true, false, some, List, ◌∷◌, arith, inl, inr,
  ◌==◌, if◌then◌else◌, Bool-cases, ==_iff, ne→==_false,
}
use peos.Support.Pool.{Pool, end_sentinel}
use peos.Support.Pool
use peos.Support.Pool.Inv.{Inv}
use peos.Support.Pool.Emplace.{Filled}
use peos.Support.Pool.FreeList.{elem, Distinct, Below, not-elem-Below, elem-Below}
use peos.Kernel.Process.{
  Process, Sched, processes_len, Queue, head_of, with_head, M, ◌>>◌, update_proc, enqueue_front,
  dequeue,
}
use peos.Kernel.Process.Links.{
  Chain, without, relink, Chain-agree, Chain-next, Chain-prev, Chain-no_loop,
}
use peos.Kernel.Process.Move.{
  Apart, Apart-sym, moved-from, moved-to, head_in, elem-without, without-Distinct,
}
use peos.Kernel.Process.Queues.{
  next_at, prev_at, bare, bare_at, Handle, enqueue_front-Relinked, dequeue-Relinked,
  update_proc-Filled, kept, links_of, head_same, Handle-kept,
}
use peos.Kernel.Process.Queued.{
  other, is_suspended, Queued, index_small, all-Below, head_with, head_with_other, other_with,
  below, apart, Handle-of,
}

-- What moving a process leaves alone.
pub record Same (s s' : Sched) : Type 0 where
  pub current : s'.current_pid ≡ s.current_pid
  pub idle : s'.idle_process ≡ s.idle_process
  pub ticks : s'.tick_count ≡ s.tick_count

-- The state with one queue that has lost a process, or gained it.
pub record Between (s : Sched) (free : List ℕ) (q : Queue) (xs ys : List ℕ) (s' : Sched)
    : Type 0 where
  pub inv : Inv processes_len s'.processes free
  pub chain : Chain (next_at s'.processes) (prev_at s'.processes) end_sentinel (head_of q s') xs
  pub chain_other :
      Chain (next_at s'.processes) (prev_at s'.processes) end_sentinel (head_of (other q) s') ys
  pub rest : (j : ℕ) → bare_at s'.processes j ≡ bare_at s.processes j
  pub same : Same s s'

module _ (s : Sched) (free : List ℕ) (lists : Queue → List ℕ) (v : Queued s free lists) (q : Queue)
    (pid : ℕ) (inside : elem pid (lists q) ≡ true) where
  dequeue-Between :
      (s' : Sched) × (dequeue pid q s ≡ some (tt, s'))
      × Between s free q (without pid (lists q)) (lists (other q)) s'
  dequeue-Between =
      let (p, e, _, _) = v.members q pid inside in
      let (n_p, p_p) = links_of s.processes pid p e in
      let (ps, did, r) =
        dequeue-Relinked s free q pid p v.inv e
          (subst (Handle s.processes) p_p
            (Handle-of s free lists v q (prev_at s.processes pid) before))
          (subst (Handle s.processes) n_p
            (Handle-of s free lists v q (next_at s.processes pid) after))
          (λ l. loop.1 (p_p ∙ l)) (λ l. loop.0 (n_p ∙ l)) in
      let (c, c') =
        moved-from (next_at s.processes) (prev_at s.processes) (head_of q s) (head_of (other q) s)
          pid (lists q) (lists (other q)) (v.chain q) (v.chain (other q)) (v.distinct q)
          (below s free lists v q) (below s free lists v (other q)) (apart s free lists v q)
          inside in
      let agree : (xs : List ℕ) (head head' : ℕ)
          → head ≡ head'
          → Chain (relink (next_at s.processes) (prev_at s.processes pid) (next_at s.processes pid))
              (relink (prev_at s.processes) (next_at s.processes pid) (prev_at s.processes pid))
              end_sentinel head xs
          → Chain (next_at ps) (prev_at ps) end_sentinel head' xs =
        λ xs head head' same k.
          subst (λ h. Chain (next_at ps) (prev_at ps) end_sentinel h xs) same
            (Chain-agree _ (next_at ps) _ (prev_at ps) end_sentinel head xs
              (λ j _.
                r.nexts j ∙ ap₂ (λ a b. relink (next_at s.processes) a b j) (sym p_p) (sym n_p))
              (λ j _.
                r.prevs j ∙ ap₂ (λ a b. relink (prev_at s.processes) a b j) (sym n_p) (sym p_p))
              k) in
      elim (Bool-cases (head_of q s == pid)) [
        | inl t ↦
            let head : (if head_of q s == pid then next_at s.processes pid else head_of q s)
                ≡ head_of q (with_head q p.next_process (record s { processes = ps })) =
              rw t (n_p ∙ sym (head_with q p.next_process (record s { processes = ps }))) in
            (
              with_head q p.next_process (record s { processes = ps }),
              did ∙ rw t refl,
              record {
                inv = r.inv;
                chain = agree (without pid (lists q)) _ _ head c;
                chain_other =
                    agree (lists (other q)) _ _
                      (sym (
                        other_with q p.next_process (record s { processes = ps })
                        ∙ head_same (other q) s ps))
                      c';
                rest = r.rest;
                same = record { current = refl; idle = refl; ticks = refl };
              },
            )
        | inr f ↦
            let head : (if head_of q s == pid then next_at s.processes pid else head_of q s)
                ≡ head_of q (record s { processes = ps }) =
              rw f (sym (head_same q s ps)) in
            (
              record s { processes = ps },
              did ∙ rw f refl,
              record {
                inv = r.inv;
                chain = agree (without pid (lists q)) _ _ head c;
                chain_other = agree (lists (other q)) _ _ (sym (head_same (other q) s ps)) c';
                rest = r.rest;
                same = record { current = refl; idle = refl; ticks = refl };
              },
            )
      ]
    where
      loop : (next_at s.processes pid ≢ pid) × (prev_at s.processes pid ≢ pid)
      loop =
          Chain-no_loop (next_at s.processes) (prev_at s.processes) end_sentinel (head_of q s) pid
            (lists q) (v.chain q) inside
            (not-elem-Below end_sentinel end_sentinel (lists q) (below s free lists v q)
              (omega arith))
            (v.distinct q) (below s free lists v q)

      before :
          (prev_at s.processes pid ≡ end_sentinel)
          ⊎ (elem (prev_at s.processes pid) (lists q) ≡ true)
      before =
          elim (Chain-prev (next_at s.processes) (prev_at s.processes) end_sentinel (head_of q s)
            pid (lists q) (v.chain q) inside) [ inl (_, e) ↦ inl e | inr e ↦ inr e ]

      after :
          (next_at s.processes pid ≡ end_sentinel)
          ⊎ (elem (next_at s.processes pid) (lists q) ≡ true)
      after =
          Chain-next (next_at s.processes) (prev_at s.processes) end_sentinel (head_of q s) pid
            (lists q) (v.chain q) inside

  -- The body of `proc_suspend` and of `proc_resume`.
  abbrev pub move : M (Unit {0})
  move = do
    dequeue pid q
    enqueue_front pid (other q)
    update_proc pid (λ p. record p { suspended = is_suspended (other q) })

  pub record Moved (s' : Sched) : Type 0 where
    pub moved_inv : Inv processes_len s'.processes free
    pub moved_chain :
        Chain
          (next_at s'.processes)
          (prev_at s'.processes)
          end_sentinel
          (head_of q s')
          (without pid (lists q))
    pub moved_chain_other :
        Chain
          (next_at s'.processes)
          (prev_at s'.processes)
          end_sentinel
          (head_of (other q) s')
          (pid ∷ lists (other q))
    pub moved_here :
        (p : Process) × (Pool.at s'.processes pid ≡ some p)
        × (p.suspended ≡ is_suspended (other q))
        × (p.terminating ≡ false)
    pub moved_rest : (j : ℕ) → j ≢ pid → bare_at s'.processes j ≡ bare_at s.processes j
    pub moved_same : Same s s'

  pub move-Moved : (s' : Sched) × (move s ≡ some (tt, s')) × Moved s'
  move-Moved =
      let (p, e, _, t) = v.members q pid inside in
      let (s1, did, b) = dequeue-Between in
      let (p1, e1, same1) = kept s.processes s1.processes pid p (b.rest pid) e in
      let lt = index_small s1.processes free pid p1 b.inv e1 in
      let (ps, did', r) =
        enqueue_front-Relinked s1 free (other q) pid p1 b.inv
          (head_handle s1 (b.rest) b.chain_other) e1 in
      let s2 : Sched = with_head (other q) pid (record s1 { processes = ps }) in
      let (p2, e2, same2) = kept s1.processes ps pid p1 (r.rest pid) e1 in
      let (ps', did'', inv', filled) =
        update_proc-Filled s2 free pid p2 (λ p. record p { suspended = is_suspended (other q) })
          r.inv e2 in
      let gone = without-Distinct pid (lists q) (v.distinct q) in
      let (c', c) =
        moved-to (next_at s1.processes) (prev_at s1.processes) (head_of q s1) (head_of (other q) s1)
          pid (without pid (lists q)) (lists (other q)) b.chain b.chain_other (v.distinct (other q))
          (below_without gone) (below s free lists v (other q)) (apart_without) gone.1
          (apart s free lists v q pid inside) lt in
      (
        record s2 { processes = ps' },
        rw (did, did', did'') refl,
        record {
          moved_inv = inv';
          moved_chain =
              subst (λ h. Chain (next_at ps') (prev_at ps') end_sentinel h (without pid (lists q)))
                (sym (
                  head_same q s2 ps'
                  ∙ head_with_other q pid (record s1 { processes = ps })
                  ∙ head_same q s1 ps))
                (final ps ps' p2 e2 filled r.nexts r.prevs (head_of q s1) (without pid (lists q))
                  c);
          moved_chain_other =
              subst (λ h. Chain (next_at ps') (prev_at ps') end_sentinel h (pid ∷ lists (other q)))
                (sym (
                  head_same (other q) s2 ps'
                  ∙ head_with (other q) pid (record s1 { processes = ps })))
                (final ps ps' p2 e2 filled r.nexts r.prevs pid (pid ∷ lists (other q)) c');
          moved_here = (
            record p2 { suspended = is_suspended (other q) },
            filled pid ∙ rw ((==_iff pid pid).1 refl) refl,
            refl,
            ap (λ x. x.terminating) (same2 ∙ same1) ∙ t,
          );
          moved_rest = λ j ne.
              ap (Option.map bare) (filled j ∙ rw (ne→==_false pid j (λ z. ne (sym z))) refl)
              ∙ r.rest j
              ∙ b.rest j;
          moved_same = record {
            current = b.same.current;
            idle = b.same.idle;
            ticks = b.same.ticks;
          };
        },
      )
    where
      -- The flag of a process does not touch its links.
      final :
          (ps ps' : Pool Process) (p2 : Process)
          → Pool.at ps pid ≡ some p2
          → Filled ps pid (record p2 { suspended = is_suspended (other q) }) ps'
          → {next prev : ℕ → ℕ} → ((j : ℕ) → next_at ps j ≡ next j)
          → ((j : ℕ) → prev_at ps j ≡ prev j)
          → (head : ℕ) (xs : List ℕ) → Chain next prev end_sentinel head xs
          → Chain (next_at ps') (prev_at ps') end_sentinel head xs
      final ps ps' p2 e2 filled {next} {prev} hn hp head xs k =
          Chain-agree next (next_at ps') prev (prev_at ps') end_sentinel head xs
            (λ j _. by_slot (λ p. p.next_process) refl j ∙ hn j)
            (λ j _. by_slot (λ p. p.prev_process) refl j ∙ hp j) k
        where
          by_slot :
              (f : Process → ℕ)
              → f (record p2 { suspended = is_suspended (other q) }) ≡ f p2
              → (j : ℕ)
              → Option.get_or (Option.map f (Pool.at ps' j)) end_sentinel
                ≡ Option.get_or (Option.map f (Pool.at ps j)) end_sentinel
          by_slot f keep j = rw (filled j) (elim (Bool-cases (pid == j)) [
            | inl z ↦ rw (z, sym (ap (Pool.at ps) ((==_iff pid j).0 z)) ∙ e2) keep
            | inr n ↦ rw n refl
          ])

      below_without :
          Distinct (without pid (lists q)) × (elem pid (without pid (lists q)) ≡ false)
          → Below end_sentinel (without pid (lists q))
      below_without _ = all-Below end_sentinel (without pid (lists q)) (λ i m.
          elem-Below i end_sentinel (lists q) (below s free lists v q)
            (elem-without i pid (lists q) m))

      apart_without : Apart (lists (other q)) (without pid (lists q))
      apart_without =
          Apart-sym (without pid (lists q)) (lists (other q))
            (λ j m. apart s free lists v q j (elem-without j pid (lists q) m))

      head_handle :
          (s1 : Sched)
          → ((j : ℕ) → bare_at s1.processes j ≡ bare_at s.processes j)
          → Chain
              (next_at s1.processes)
              (prev_at s1.processes)
              end_sentinel
              (head_of (other q) s1)
              (lists (other q))
          → Handle s1.processes (head_of (other q) s1)
      head_handle s1 r c =
          Handle-kept s.processes s1.processes (head_of (other q) s1) (r (head_of (other q) s1)) (
            Handle-of s free lists v (other q) (head_of (other q) s1) (
              head_in (next_at s1.processes) (prev_at s1.processes) (head_of (other q) s1)
                (lists (other q)) c))
