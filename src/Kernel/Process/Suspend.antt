-- ===== src/Kernel/Process/Suspend.antt =====
-- Suspending and resuming a process: it goes from the one queue to the front of the other.

use peos.Prelude.{
  ℕ, ◌≡◌, ◌≢◌, ap, ◌∙◌, true, false, some, List, ◌∷◌, inl, inr, ◌==◌, Bool-cases, ==_iff,
}
use peos.Support.Pool.{Pool, end_sentinel}
use peos.Support.Pool
use peos.Support.Pool.FreeList.{elem, Distinct}
use peos.Kernel.Process.{
  Process, Sched, Queue, running, suspended, head_of, proc_suspend, proc_resume,
}
use peos.Kernel.Process.Links.{Chain, without}
use peos.Kernel.Process.Move.{elem-without, without-Distinct}
use peos.Kernel.Process.Queues.{next_at, prev_at, bare_at, kept}
use peos.Kernel.Process.Queued.{other, is_suspended, Queued, moved, apart}
use peos.Kernel.Process.Moving.{Same, Moved, move-Moved}

-- A process that was not moved is what it was.
stays :
    (s s' : Sched) (free : List ℕ) (lists : Queue → List ℕ) (v : Queued s free lists) (q : Queue)
    (i : ℕ)
    → bare_at s'.processes i ≡ bare_at s.processes i
    → elem i (lists q) ≡ true
    → (p : Process) × (Pool.at s'.processes i ≡ some p)
      × (p.suspended ≡ is_suspended q)
      × (p.terminating ≡ false)
stays s s' free lists v q i r m =
    let (p, e, f, t) = v.members q i m in
    let (p', e', b) = kept s.processes s'.processes i p r e in
    (p', e', ap (λ x. x.suspended) b ∙ f, ap (λ x. x.terminating) b ∙ t)

moved-Queued :
    (q : Queue) (s s' : Sched) (free : List ℕ) (lists : Queue → List ℕ) (v : Queued s free lists)
    (pid : ℕ) (inside : elem pid (lists q) ≡ true)
    → Moved s free lists v q pid inside s'
    → Queued s' free (moved pid q lists)
moved-Queued q s s' free lists v pid inside w = record {
  inv = w.moved_inv;
  chain = chains q w.moved_chain w.moved_chain_other;
  distinct = distincts q inside;
  members = members_of q w.moved_here inside;
}
  where
    chains :
        (q : Queue)
        → Chain
            (next_at s'.processes)
            (prev_at s'.processes)
            end_sentinel
            (head_of q s')
            (without pid (lists q))
        → Chain
            (next_at s'.processes)
            (prev_at s'.processes)
            end_sentinel
            (head_of (other q) s')
            (pid ∷ lists (other q))
        → (q' : Queue)
        → Chain
            (next_at s'.processes)
            (prev_at s'.processes)
            end_sentinel
            (head_of q' s')
            (moved pid q lists q')
    chains running c c' running = c
    chains running c c' suspended = c'
    chains suspended c c' running = c'
    chains suspended c c' suspended = c

    distincts :
        (q : Queue) → elem pid (lists q) ≡ true → (q' : Queue) → Distinct (moved pid q lists q')
    distincts running m running = (without-Distinct pid (lists running) (v.distinct running)).0
    distincts running m suspended = (apart s free lists v running pid m, v.distinct suspended)
    distincts suspended m running = (apart s free lists v suspended pid m, v.distinct running)
    distincts suspended m suspended =
        (without-Distinct pid (lists suspended) (v.distinct suspended)).0

    left :
        (q' : Queue) (i : ℕ)
        → elem i (without pid (lists q')) ≡ true
        → (p : Process) × (Pool.at s'.processes i ≡ some p)
          × (p.suspended ≡ is_suspended q')
          × (p.terminating ≡ false)
    left q' i m =
        stays s s' free lists v q' i
          (w.moved_rest i (λ z. cc (
            ap (λ t. elem t (without pid (lists q'))) z,
            m,
            (without-Distinct pid (lists q') (v.distinct q')).1,
          )))
          (elem-without i pid (lists q') m)

    front :
        (q' : Queue) (i : ℕ)
        → (p : Process) × (Pool.at s'.processes pid ≡ some p)
          × (p.suspended ≡ is_suspended q')
          × (p.terminating ≡ false)
        → elem i (pid ∷ lists q') ≡ true
        → (p : Process) × (Pool.at s'.processes i ≡ some p)
          × (p.suspended ≡ is_suspended q')
          × (p.terminating ≡ false)
    front q' i here m = elim (Bool-cases (i == pid)) [
      | inl z ↦
          let (p, e, f, t) = here in (p, ap (Pool.at s'.processes) ((==_iff i pid).0 z) ∙ e, f, t)
      | inr n ↦
          stays s s' free lists v q' i (w.moved_rest i (λ z. cc (n, (==_iff i pid).1 z)))
            (rw n at m)
    ]

    members_of :
        (q : Queue)
        → (p : Process) × (Pool.at s'.processes pid ≡ some p)
          × (p.suspended ≡ is_suspended (other q))
          × (p.terminating ≡ false)
        → elem pid (lists q) ≡ true
        → (q' : Queue) (i : ℕ) → elem i (moved pid q lists q') ≡ true
        → (p : Process) × (Pool.at s'.processes i ≡ some p)
          × (p.suspended ≡ is_suspended q')
          × (p.terminating ≡ false)
    members_of running here m running i e = left running i e
    members_of running here m suspended i e = front suspended i here e
    members_of suspended here m running i e = front running i here e
    members_of suspended here m suspended i e = left suspended i e

-- Suspending a process of the running queue succeeds. It goes to the front of the suspended queue, the
-- others keep their order, and no other process, nor which process is the current one, changes.
pub proc_suspend-Queued :
    (s : Sched) (free : List ℕ) (lists : Queue → List ℕ) (pid : ℕ)
    → Queued s free lists
    → elem pid (lists running) ≡ true
    → (s' : Sched) × (proc_suspend pid s ≡ some (tt, s'))
      × Queued s' free (moved pid running lists)
      × ((j : ℕ) → j ≢ pid → bare_at s'.processes j ≡ bare_at s.processes j)
      × Same s s'
unfolding proc_suspend
proc_suspend-Queued s free lists pid v inside =
    let (p, e, f, _) = v.members running pid inside in
    let (s', did, w) = move-Moved s free lists v running pid inside in
    (
      s',
      rw (e, f) did,
      moved-Queued running s s' free lists v pid inside w,
      w.moved_rest,
      w.moved_same,
    )

-- Resuming a process of the suspended queue is the same the other way round.
pub proc_resume-Queued :
    (s : Sched) (free : List ℕ) (lists : Queue → List ℕ) (pid : ℕ)
    → Queued s free lists
    → elem pid (lists suspended) ≡ true
    → (s' : Sched) × (proc_resume pid s ≡ some (tt, s'))
      × Queued s' free (moved pid suspended lists)
      × ((j : ℕ) → j ≢ pid → bare_at s'.processes j ≡ bare_at s.processes j)
      × Same s s'
unfolding proc_resume
proc_resume-Queued s free lists pid v inside =
    let (p, e, f, _) = v.members suspended pid inside in
    let (s', did, w) = move-Moved s free lists v suspended pid inside in
    (
      s',
      rw (e, f) did,
      moved-Queued suspended s s' free lists v pid inside w,
      w.moved_rest,
      w.moved_same,
    )
