-- ===== src/Kernel/Process/Tests.antt =====
-- Two processes that run, and one that is suspended.
use peos.Prelude.{
  ℕ, ◌-◌, ◌^◌, ◌≤◌, ◌<◌, ◌≡◌, ◌≢◌, ◌⊎◌, refl, true, false, some, List, [], ◌∷◌, arith, inl, inr,
  ◌==◌, if◌then◌else◌, Bool-cases, ==_iff,
}
use peos.Support.Pool.{Pool, end_sentinel, fresh}
use peos.Support.Pool
use peos.Support.Pool.Inv.{Inv}
use peos.Support.Pool.FreeList.{elem, Distinct}
use peos.Kernel.Process.{
  Process, process, Sched, processes_len, Queue, running, suspended, proc_suspend, proc_resume,
  decide_next_process, least, head_of,
}
use peos.Kernel.Process.Links.{Chain}
use peos.Kernel.Process.Queues.{bare_at, next_at, prev_at}
use peos.Kernel.Process.Queued.{Queued, moved, is_suspended}
use peos.Kernel.Process.Moving.{Same}
use peos.Kernel.Process.Suspend.{proc_suspend-Queued, proc_resume-Queued}
use peos.Kernel.Process.Choice.{tick_at, decide_next_process-least}

abbrev first : Process
first = record (process 0 0 0 end_sentinel 1) { last_tick = 7 }

abbrev second : Process
second = record (process 1 1 0 0 end_sentinel) { last_tick = 4 }

abbrev asleep : Process
asleep = record (process 2 2 0 end_sentinel end_sentinel) { suspended = true }

abbrev three : Sched
three = record {
  processes = record {
    nodes = λ i. fresh (some (if i == 0 then first else (if i == 1 then second else asleep)));
    watermark = 3;
    free_list_head = end_sentinel;
    free_list_tail = end_sentinel;
    count = 3;
  };
  current_pid = 0;
  running_head = 0;
  suspended_head = 2;
  idle_process = 9;
  tick_count = 8;
  activated = [];
  destroyed = [];
}

abbrev queues : Queue → List ℕ
queues running = 0 ∷ 1 ∷ []
queues suspended = 2 ∷ []

three-Inv : Inv processes_len three.processes []
three-Inv = record {
  linked = refl;
  tail_last = refl;
  distinct = tt;
  below = tt;
  bounded = omega arith;
  indexed = omega arith;
  counted = refl;
  taken = λ i lt _.
      (refl, refl, ((if i == 0 then first else (if i == 1 then second else asleep)), refl));
}

three-Queued : Queued three [] queues
unfolding Pool.at Pool.valid
three-Queued = record {
  inv = three-Inv;
  chain = chains;
  distinct = distincts;
  members = λ q i m. members_of q i m;
}
  where
    chains :
        (q : Queue)
        → Chain
            (next_at three.processes)
            (prev_at three.processes)
            end_sentinel
            (head_of q three)
            (queues q)
    chains running = (refl, refl, (refl, refl, refl))
    chains suspended = (refl, refl, refl)

    distincts : (q : Queue) → Distinct (queues q)
    distincts running = (refl, (refl, tt))
    distincts suspended = (refl, tt)

    members_of :
        (q : Queue) (i : ℕ)
        → elem i (queues q) ≡ true
        → (p : Process) × (Pool.at three.processes i ≡ some p)
          × (p.suspended ≡ is_suspended q)
          × (p.terminating ≡ false)
    members_of running i m = elim (Bool-cases (i == 0)) [
      | inl e ↦ rw ((==_iff i 0).0 e) (first, refl, refl, refl)
      | inr n ↦ elim (Bool-cases (i == 1)) [
        | inl e ↦ rw ((==_iff i 1).0 e) (second, refl, refl, refl)
        | inr k ↦ cc (rw (n, k) at m)
      ]
    ]
    members_of suspended i m = elim (Bool-cases (i == 2)) [
      | inl e ↦ rw ((==_iff i 2).0 e) (asleep, refl, refl, refl)
      | inr n ↦ cc (rw n at m)
    ]

proc_suspend-Queued_example :
    (s' : Sched) × (proc_suspend 1 three ≡ some (tt, s'))
    × Queued s' [] (moved 1 running queues)
    × ((j : ℕ) → j ≢ 1 → bare_at s'.processes j ≡ bare_at three.processes j)
    × Same three s'
proc_suspend-Queued_example = proc_suspend-Queued three [] queues 1 three-Queued refl

woken-Queued :
    (s' : Sched) × (proc_resume 2 three ≡ some (tt, s'))
    × Queued s' [] (moved 2 suspended queues)
    × ((j : ℕ) → j ≢ 2 → bare_at s'.processes j ≡ bare_at three.processes j)
    × Same three s'
woken-Queued = proc_resume-Queued three [] queues 2 three-Queued refl

early : (j : ℕ) → elem j (queues running) ≡ true → tick_at three.processes j < 2 ^ 64 - 1
unfolding Pool.at Pool.valid
early j m = elim (Bool-cases (j == 0)) [
  | inl e ↦ rw ((==_iff j 0).0 e) (omega arith)
  | inr n ↦ elim (Bool-cases (j == 1)) [
    | inl e ↦ rw ((==_iff j 1).0 e) (omega arith)
    | inr k ↦ cc (rw (n, k) at m)
  ]
]

decide_next_process-least_example :
    (pid : ℕ) × (decide_next_process three ≡ some (pid, three))
    × (((queues running ≡ []) × (pid ≡ 9))
        ⊎ ((elem pid (queues running) ≡ true)
            × ((j : ℕ)
                → elem j (queues running) ≡ true
                → tick_at three.processes pid ≤ tick_at three.processes j)))
decide_next_process-least_example = decide_next_process-least three [] queues three-Queued early

picks_second : decide_next_process three ≡ some (1, three)
unfolding decide_next_process Pool.at Pool.valid least
picks_second = refl
