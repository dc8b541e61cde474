-- ===== src/Kernel/Process/Queued.antt =====
-- The two queues of processes as lists: what holds of them, and how a process moves between the lists.
use mathlib.Core.Option
use peos.Prelude.{
  ℕ, ◌<◌, ◌≡◌, ◌⊎◌, refl, ap, sym, ◌∙◌, Bool, true, false, some, List, [], ◌∷◌, arith, inl, inr,
  Bool-cases,
}
use peos.Support.Pool.{Pool, end_sentinel}
use peos.Support.Pool
use peos.Support.Pool.Inv.{Inv, valid_at, valid_iff}
use peos.Support.Pool.FreeList.{elem, Distinct, Below}
use peos.Kernel.Process.{
  Process, Sched, processes_len, Queue, running, suspended, head_of, with_head,
}
use peos.Kernel.Process.Links.{Chain, without}
use peos.Kernel.Process.Move.{Apart}
use peos.Kernel.Process.Queues.{next_at, prev_at, Handle}

abbrev pub other : Queue → Queue
other running = suspended
other suspended = running

abbrev pub is_suspended : Queue → Bool
is_suspended running = false
is_suspended suspended = true

-- Each queue is linked through its processes, once each. Those that run are not suspended, the others are,
-- and none of them is terminating.
pub record Queued (s : Sched) (free : List ℕ) (lists : Queue → List ℕ) : Type 0 where
  pub inv : Inv processes_len s.processes free
  pub chain :
      (q : Queue)
      → Chain (next_at s.processes) (prev_at s.processes) end_sentinel (head_of q s) (lists q)
  pub distinct : (q : Queue) → Distinct (lists q)
  pub members :
      (q : Queue) (i : ℕ)
      → elem i (lists q) ≡ true
      → (p : Process) × (Pool.at s.processes i ≡ some p)
        × (p.suspended ≡ is_suspended q)
        × (p.terminating ≡ false)

-- The process at the front of the other queue.
abbrev pub moved : ℕ → Queue → (Queue → List ℕ) → Queue → List ℕ
moved pid running lists running = without pid (lists running)
moved pid running lists suspended = pid ∷ lists suspended
moved pid suspended lists running = pid ∷ lists running
moved pid suspended lists suspended = without pid (lists suspended)

pub index_small :
    (ps : Pool Process) (free : List ℕ) (i : ℕ) (p : Process)
    → Inv processes_len ps free
    → Pool.at ps i ≡ some p
    → i < end_sentinel
index_small ps free i p inv e = omega (
  arith,
  ((valid_iff processes_len ps free inv i).0 (valid_at processes_len ps free inv i p e)).0,
  inv.bounded,
)

pub all-Below : (n : ℕ) (xs : List ℕ) → ((i : ℕ) → elem i xs ≡ true → i < n) → Below n xs
all-Below n [] h = tt
all-Below n (x ∷ xs) h = (h x (ground arith), all-Below n xs (λ i e. h i (ground arith)))

pub head_with : (q : Queue) (v : ℕ) (s : Sched) → head_of q (with_head q v s) ≡ v
head_with running v s = refl
head_with suspended v s = refl

pub head_with_other :
    (q : Queue) (v : ℕ) (s : Sched) → head_of q (with_head (other q) v s) ≡ head_of q s
head_with_other running v s = refl
head_with_other suspended v s = refl

pub other_with :
    (q : Queue) (v : ℕ) (s : Sched) → head_of (other q) (with_head q v s) ≡ head_of (other q) s
other_with running v s = refl
other_with suspended v s = refl

module _ (s : Sched) (free : List ℕ) (lists : Queue → List ℕ) (v : Queued s free lists) where
  pub below : (q : Queue) → Below end_sentinel (lists q)
  below q =
      all-Below end_sentinel (lists q) (λ i e.
        let (p, at_i, _, _) = v.members q i e in index_small s.processes free i p v.inv at_i)

  pub apart : (q : Queue) → Apart (lists q) (lists (other q))
  apart q j m = elim (Bool-cases (elem j (lists (other q)))) [
    | inr n ↦ n
    | inl t ↦
        let (p, e, f, _) = v.members q j m in
        let (p', e', f', _) = v.members (other q) j t in
        let same : p ≡ p' = ap (λ o. Option.get_or {A = Process} o p) (sym e ∙ e') in
        absurd (differ q (sym f ∙ ap (λ x. x.suspended) same ∙ f'))
  ]
    where
      differ : (q : Queue) → is_suspended q ≡ is_suspended (other q) → ⊥
      differ running e = cc
      differ suspended e = cc

  pub Handle-of :
      (q : Queue) (i : ℕ) → (i ≡ end_sentinel) ⊎ (elem i (lists q) ≡ true) → Handle s.processes i
  Handle-of q i (inl e) = inl e
  Handle-of q i (inr m) = let (p, e, _, _) = v.members q i m in inr (p, e)
