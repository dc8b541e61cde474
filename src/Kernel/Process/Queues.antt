-- ===== src/Kernel/Process/Queues.antt =====
-- The queues: a process is moved from the one to the other, and each stays linked.
use mathlib.Core.Option
use peos.Prelude.{
  ℕ, ◌≡◌, ◌≢◌, ◌⊎◌, refl, ap, sym, ◌∙◌, false, Option, none, some, List, inl, inr, ◌==◌,
  if◌then◌else◌, Bool-cases, ==_iff,
}
use peos.Prelude.Array.{update}
use peos.Support.Pool.{Pool, end_sentinel}
use peos.Support.Pool
use peos.Support.Pool.Inv.{Inv, valid_at}
use peos.Support.Pool.Store.{store_at-Filled}
use peos.Support.Pool.Emplace.{Filled}
use peos.Kernel.Process.{
  Process, Sched, processes_len, Queue, running, suspended, head_of, with_head, update_proc,
  update_linked, enqueue_front, dequeue,
}
use peos.Kernel.Process.Links.{relink, relink_ne}

abbrev pub next_at : Pool Process → ℕ → ℕ
next_at ps i =
    Option.get_or (Option.map (λ (p : Process). p.next_process) (Pool.at ps i)) end_sentinel

abbrev pub prev_at : Pool Process → ℕ → ℕ
prev_at ps i =
    Option.get_or (Option.map (λ (p : Process). p.prev_process) (Pool.at ps i)) end_sentinel

-- A process without its links.
abbrev pub bare : Process → Process
bare p = record p { prev_process = 0; next_process = 0 }

abbrev pub bare_at : Pool Process → ℕ → Option Process
bare_at ps i = Option.map bare (Pool.at ps i)

-- The table after links have changed to these, and nothing else.
pub record Relinked (free : List ℕ) (ps ps' : Pool Process) (next prev : ℕ → ℕ) : Type 0 where
  pub inv : Inv processes_len ps' free
  pub nexts : (j : ℕ) → next_at ps' j ≡ next j
  pub prevs : (j : ℕ) → prev_at ps' j ≡ prev j
  pub rest : (j : ℕ) → bare_at ps' j ≡ bare_at ps j

-- A handle of the table, or the sentinel.
abbrev pub Handle : Pool Process → ℕ → Type 0
Handle ps i = (i ≡ end_sentinel) ⊎ ((p : Process) × (Pool.at ps i ≡ some p))

pub update_proc-Filled :
    (s : Sched) (free : List ℕ) (i : ℕ) (p : Process) (f : Process → Process)
    → Inv processes_len s.processes free
    → Pool.at s.processes i ≡ some p
    → (ps : Pool Process) × (update_proc i f s ≡ some (tt, record s { processes = ps }))
      × Inv processes_len ps free
      × Filled s.processes i (f p) ps
unfolding update_proc
update_proc-Filled s free i p f inv e =
    let (ps, e', inv', filled, _) =
      store_at-Filled processes_len s.processes i (f p) free inv
        (valid_at processes_len s.processes free inv i p e) in
    (ps, rw (e, e') refl, inv', filled)

-- A slot filled with what is linked otherwise.
pub Filled-Relinked :
    (free : List ℕ) (ps ps' : Pool Process) (i next prev : ℕ) (p : Process)
    → Inv processes_len ps' free
    → Pool.at ps i ≡ some p
    → Filled ps i (record p { next_process = next; prev_process = prev }) ps'
    → Relinked free ps ps' (update (next_at ps) i next) (update (prev_at ps) i prev)
Filled-Relinked free ps ps' i next prev p inv e filled = record {
  inv = inv;
  nexts = λ j. rw (filled j) (by_slot (λ q. q.next_process) j);
  prevs = λ j. rw (filled j) (by_slot (λ q. q.prev_process) j);
  rest = λ j. rw (filled j) (same j);
}
  where
    new : Process
    new = record p { next_process = next; prev_process = prev }

    by_slot :
        (f : Process → ℕ) (j : ℕ)
        → Option.get_or (Option.map f (if i == j then some new else Pool.at ps j)) end_sentinel
          ≡ update (λ k. Option.get_or (Option.map f (Pool.at ps k)) end_sentinel) i (f new) j
    by_slot f j = elim (Bool-cases (i == j)) [ inl q ↦ rw q | inr n ↦ rw n ]

    same : (j : ℕ) → Option.map bare (if i == j then some new else Pool.at ps j) ≡ bare_at ps j
    same j = elim (Bool-cases (i == j)) [
      | inl q ↦ rw (q, sym (ap (Pool.at ps) ((==_iff i j).0 q)) ∙ e) refl
      | inr n ↦ rw n
    ]

-- The links of the second change, told by those before the first.
Relinked-trans :
    (free : List ℕ) (ps ps' ps'' : Pool Process) (next prev next' prev' next'' prev'' : ℕ → ℕ)
    → Relinked free ps ps' next prev
    → Relinked free ps' ps'' next' prev'
    → ((j : ℕ) → next' j ≡ next'' j)
    → ((j : ℕ) → prev' j ≡ prev'' j)
    → Relinked free ps ps'' next'' prev''
Relinked-trans free ps ps' ps'' next prev next' prev' next'' prev'' r r' hn hp = record {
  inv = r'.inv;
  nexts = λ j. r'.nexts j ∙ hn j;
  prevs = λ j. r'.prevs j ∙ hp j;
  rest = λ j. r'.rest j ∙ r.rest j;
}

-- A process stays in the table.
pub kept :
    (ps ps' : Pool Process) (i : ℕ) (p : Process)
    → bare_at ps' i ≡ bare_at ps i
    → Pool.at ps i ≡ some p
    → (p' : Process) × (Pool.at ps' i ≡ some p') × (bare p' ≡ bare p)
kept ps ps' i p r e = by_slot (Pool.at ps' i) refl
  where
    by_slot :
        (o : Option Process)
        → Pool.at ps' i ≡ o
        → (p' : Process) × (Pool.at ps' i ≡ some p') × (bare p' ≡ bare p)
    by_slot none q = cc (ap (Option.map bare) q, r, ap (Option.map bare) e)
    by_slot (some p') q = (
      p',
      q,
      ap (λ o. Option.get_or {A = Process} o (bare p))
          (sym (ap (Option.map bare) q) ∙ r ∙ ap (Option.map bare) e),
    )

pub Handle-kept :
    (ps ps' : Pool Process) (i : ℕ) → bare_at ps' i ≡ bare_at ps i → Handle ps i → Handle ps' i
Handle-kept ps ps' i r (inl e) = inl e
Handle-kept ps ps' i r (inr (p, e)) = let (p', e', _) = kept ps ps' i p r e in inr (p', e')

same-Relinked :
    (free : List ℕ) (ps : Pool Process)
    → Inv processes_len ps free
    → Relinked free ps ps (next_at ps) (prev_at ps)
same-Relinked free ps inv = record {
  inv = inv;
  nexts = λ j. refl;
  prevs = λ j. refl;
  rest = λ j. refl;
}

update_own : (f : ℕ → ℕ) (i v j : ℕ) → f i ≡ v → update f i v j ≡ f j
update_own f i v j e = elim (Bool-cases (i == j)) [
  | inl q ↦ rw q (sym e ∙ ap f ((==_iff i j).0 q))
  | inr n ↦ rw n
]

module _ (s : Sched) (free : List ℕ) (inv : Inv processes_len s.processes free) (i v : ℕ)
    (h : Handle s.processes i) where
  set_next-Relinked :
      (ps : Pool Process) × (update_linked i (λ other. record other { next_process = v }) s
        ≡ some (tt, record s { processes = ps }))
      × Relinked free s.processes ps (relink (next_at s.processes) i v) (prev_at s.processes)
  set_next-Relinked = elim (Bool-cases (i == end_sentinel)) [
    | inl q ↦ (s.processes, rw q refl, rw q (same-Relinked free s.processes inv))
    | inr n ↦ rw n (by_handle n h)
  ]
    where
      by_handle :
          (i == end_sentinel) ≡ false
          → Handle s.processes i
          → (ps : Pool Process) × (update_proc i (λ other. record other { next_process = v }) s
              ≡ some (tt, record s { processes = ps }))
            × Relinked free s.processes ps (update (next_at s.processes) i v) (prev_at s.processes)
      by_handle n (inl q) = cc (n, (==_iff i end_sentinel).1 q)
      by_handle n (inr (p, e)) =
          let (ps, e', inv', filled) =
            update_proc-Filled s free i p (λ other. record other { next_process = v }) inv e in
          let r = Filled-Relinked free s.processes ps i v p.prev_process p inv' e filled in
          (
            ps,
            e',
            record {
              inv = r.inv;
              nexts = r.nexts;
              prevs = λ j.
                  r.prevs j
                  ∙ update_own (prev_at s.processes) i p.prev_process j (
                      ap
                        (λ o.
                          Option.get_or (Option.map (λ (p : Process). p.prev_process) o)
                            end_sentinel)
                        e);
              rest = r.rest;
            },
          )

  set_prev-Relinked :
      (ps : Pool Process) × (update_linked i (λ other. record other { prev_process = v }) s
        ≡ some (tt, record s { processes = ps }))
      × Relinked free s.processes ps (next_at s.processes) (relink (prev_at s.processes) i v)
  set_prev-Relinked = elim (Bool-cases (i == end_sentinel)) [
    | inl q ↦ (s.processes, rw q refl, rw q (same-Relinked free s.processes inv))
    | inr n ↦ rw n (by_handle n h)
  ]
    where
      by_handle :
          (i == end_sentinel) ≡ false
          → Handle s.processes i
          → (ps : Pool Process) × (update_proc i (λ other. record other { prev_process = v }) s
              ≡ some (tt, record s { processes = ps }))
            × Relinked free s.processes ps (next_at s.processes) (update (prev_at s.processes) i v)
      by_handle n (inl q) = cc (n, (==_iff i end_sentinel).1 q)
      by_handle n (inr (p, e)) =
          let (ps, e', inv', filled) =
            update_proc-Filled s free i p (λ other. record other { prev_process = v }) inv e in
          let r = Filled-Relinked free s.processes ps i p.next_process v p inv' e filled in
          (
            ps,
            e',
            record {
              inv = r.inv;
              nexts = λ j.
                  r.nexts j
                  ∙ update_own (next_at s.processes) i p.next_process j (
                      ap
                        (λ o.
                          Option.get_or (Option.map (λ (p : Process). p.next_process) o)
                            end_sentinel)
                        e);
              prevs = r.prevs;
              rest = r.rest;
            },
          )

-- `enqueue_front` of a process that is not the head: it is the head now, and the old head leads back to it.
pub enqueue_front-Relinked :
    (s : Sched) (free : List ℕ) (q : Queue) (pid : ℕ) (p : Process)
    → Inv processes_len s.processes free
    → Handle s.processes (head_of q s)
    → Pool.at s.processes pid ≡ some p
    → (ps : Pool Process) × (enqueue_front pid q s
        ≡ some (tt, with_head q pid (record s { processes = ps })))
      × Relinked free s.processes ps
          (update (next_at s.processes) pid (head_of q s))
          (update (relink (prev_at s.processes) (head_of q s) pid) pid end_sentinel)
unfolding enqueue_front
enqueue_front-Relinked s free q pid p inv h e =
    let (ps, did, r) = set_prev-Relinked s free inv (head_of q s) pid h in
    let s1 : Sched = record s { processes = ps } in
    let (p1, e1, _) = kept s.processes ps pid p (r.rest pid) e in
    let (ps', did', inv', filled) =
      update_proc-Filled s1 free pid p1
        (λ p. record p { next_process = head_of q s; prev_process = end_sentinel }) r.inv e1 in
    let r' = Filled-Relinked free ps ps' pid (head_of q s) end_sentinel p1 inv' e1 filled in
    (
      ps',
      rw (did, did') refl,
      Relinked-trans free s.processes ps ps' _ _ _ _ _ _ r r'
          (λ j. update_agree (next_at ps) (next_at s.processes) pid (head_of q s) j (r.nexts j))
          (λ j.
            update_agree (prev_at ps) (relink (prev_at s.processes) (head_of q s) pid) pid
              end_sentinel j (r.prevs j)),
    )
  where
    update_agree : (f g : ℕ → ℕ) (i v j : ℕ) → f j ≡ g j → update f i v j ≡ update g i v j
    update_agree f g i v j e = elim (Bool-cases (i == j)) [ inl q ↦ rw q | inr n ↦ rw n e ]

pub head_same :
    (q : Queue) (s : Sched) (ps : Pool Process)
    → head_of q (record s { processes = ps }) ≡ head_of q s
head_same running s ps = refl
head_same suspended s ps = refl

pub links_of :
    (ps : Pool Process) (i : ℕ) (p : Process)
    → Pool.at ps i ≡ some p
    → (next_at ps i ≡ p.next_process) × (prev_at ps i ≡ p.prev_process)
links_of ps i p e = (
  ap (λ o. Option.get_or (Option.map (λ (p : Process). p.next_process) o) end_sentinel) e,
  ap (λ o. Option.get_or (Option.map (λ (p : Process). p.prev_process) o) end_sentinel) e,
)

-- `dequeue` links the neighbours of the process to each other, and moves the head on if it is the head.
pub dequeue-Relinked :
    (s : Sched) (free : List ℕ) (q : Queue) (pid : ℕ) (p : Process)
    → Inv processes_len s.processes free
    → Pool.at s.processes pid ≡ some p
    → Handle s.processes p.prev_process
    → Handle s.processes p.next_process
    → p.prev_process ≢ pid
    → p.next_process ≢ pid
    → (ps : Pool Process) × (dequeue pid q s
        ≡ some (
          tt,
          if head_of q s == pid
              then with_head q p.next_process (record s { processes = ps })
              else record s { processes = ps },
        ))
      × Relinked free s.processes ps
          (relink (next_at s.processes) p.prev_process p.next_process)
          (relink (prev_at s.processes) p.next_process p.prev_process)
unfolding dequeue
dequeue-Relinked s free q pid p inv e hp hn np nn =
    let (n_p, p_p) = links_of s.processes pid p e in
    let (ps, did, r) = set_next-Relinked s free inv p.prev_process p.next_process hp in
    let s1 : Sched = record s { processes = ps } in
    let (p1, e1, _) = kept s.processes ps pid p (r.rest pid) e in
    let n1 : p1.next_process ≡ p.next_process =
      sym (links_of ps pid p1 e1).0
      ∙ r.nexts pid
      ∙ relink_ne (next_at s.processes) p.prev_process p.next_process pid np
      ∙ n_p in
    let v1 : p1.prev_process ≡ p.prev_process = sym (links_of ps pid p1 e1).1 ∙ r.prevs pid ∙ p_p in
    let (ps', did', r') =
      set_prev-Relinked s1 free r.inv p.next_process p.prev_process
        (Handle-kept s.processes ps p.next_process (r.rest p.next_process) hn) in
    let (p2, e2, _) = kept ps ps' pid p1 (r'.rest pid) e1 in
    let n2 : p2.next_process ≡ p.next_process =
      sym (links_of ps' pid p2 e2).0 ∙ r'.nexts pid ∙ (links_of ps pid p1 e1).0 ∙ n1 in
    (
      ps',
      rw (e, did, e1, n1, v1, did', e2, head_same q s ps', n2)
          (elim (Bool-cases (head_of q s == pid)) [ inl t ↦ rw t refl | inr f ↦ rw f refl ]),
      Relinked-trans free s.processes ps ps' _ _ _ _ _ _ r r' r.nexts (λ j.
          relink_agree (prev_at ps) (prev_at s.processes) p.next_process p.prev_process j
            (r.prevs j)),
    )
  where
    relink_agree : (f g : ℕ → ℕ) (i v j : ℕ) → f j ≡ g j → relink f i v j ≡ relink g i v j
    relink_agree f g i v j e = elim (Bool-cases (i == end_sentinel)) [
      | inl q ↦ rw q e
      | inr m ↦ elim (Bool-cases (i == j)) [ inl q ↦ rw (m, q) | inr n ↦ rw (m, n) e ]
    ]
