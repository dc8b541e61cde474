-- ===== src/Kernel/Process.antt =====
-- kernel/process.cc and kernel/process_private.h: the table of processes, the queues of those that run and
-- those that are suspended, and the scheduler. An operation goes up to the switch to another process; what
-- follows a switch in the code runs when the process is chosen again. `none` is a failed assertion, an
-- access outside the table, or a loop that does not end.
pub mod Links
pub mod Move
pub mod Queues
pub mod Queued
pub mod Moving
pub mod Suspend
pub mod Choice
mod Tests
use peos.Prelude.{
  ℕ, zero, suc, ◌+◌, ◌-◌, ◌%◌, ◌^◌, Bool, true, false, not, ◌&&◌, Option, none, some, List, [], ◌∷◌,
  ◌++◌, ltb, ◌==◌, if◌then◌else◌,
}
use peos.Prelude.Int.{ℤ, pos, negsuc, ◌-ℤ◌, ltb_ℤ}
use peos.Prelude.Fault
use peos.Prelude.Stateful.{Action}
pub use peos.Prelude.Stateful.{◌>>=◌, ◌>>◌, pure, lift, assert, get, modify}
use peos.Support.Pool.{Pool, end_sentinel}
use peos.Support.Pool

pub record Process : Type 0 where
  pub space_handle : ℕ
  pub file_context : ℕ
  pub flags : ℕ
  pub suspended : Bool
  pub terminating : Bool
  pub exit_status : ℤ
  pub unblock_status : ℤ
  pub prev_process : ℕ
  pub next_process : ℕ
  pub waiting_process : Option ℕ
  pub last_tick : ℕ
  pub suspension_timeout : ℤ

-- The constructor. It leaves the links as the memory has them.
abbrev pub process : ℕ → ℕ → ℕ → ℕ → ℕ → Process
process space_handle file_context flags prev next = record {
  space_handle = space_handle;
  file_context = file_context;
  flags = flags;
  suspended = false;
  terminating = false;
  exit_status = pos 0;
  unblock_status = pos 0;
  prev_process = prev;
  next_process = next;
  waiting_process = none;
  last_tick = 0;
  suspension_timeout = negsuc 0;
}

pub record Sched : Type 0 where
  pub processes : Pool Process
  pub current_pid : ℕ
  pub running_head : ℕ
  pub suspended_head : ℕ
  pub idle_process : ℕ
  pub tick_count : ℕ
  -- The processes switched to, and the contexts and spaces given back; the newest last.
  pub activated : List ℕ
  pub destroyed : List (ℕ × ℕ)

abbrev pub processes_len : ℕ
processes_len = 128

-- Which of the two heads a queue operation is given.
pub data Queue : Type 0 where
  running suspended : Queue

abbrev pub head_of : Queue → Sched → ℕ
head_of running s = s.running_head
head_of suspended s = s.suspended_head

abbrev pub first_or_second {ℓ} : {A : Type ℓ} → Queue → A → A → A
first_or_second running a b = a
first_or_second suspended a b = b

abbrev pub with_head : Queue → ℕ → Sched → Sched
with_head q pid s = record s {
  running_head = first_or_second q pid s.running_head;
  suspended_head = first_or_second q s.suspended_head pid;
}

abbrev pub M : Type 0 → Type 0
M A = Action Sched A

-- `processes[pid]`, read, and changed in place.
abbrev pub proc : ℕ → M Process
proc pid s = lift (Pool.at s.processes pid) s

unfoldable pub update_proc : ℕ → (Process → Process) → M (Unit {0})
update_proc pid f s = Fault.◌>>=◌ (Pool.at s.processes pid) (λ p.
    Fault.◌>>=◌ (Pool.store_at s.processes pid (f p))
      (λ ps. some (tt, record s { processes = ps })))

-- An assignment to a process unless the handle is the sentinel.
abbrev pub update_linked : ℕ → (Process → Process) → M (Unit {0})
update_linked pid f = if not (pid == end_sentinel) then update_proc pid f else pure tt

unfoldable pub enqueue_front : ℕ → Queue → M (Unit {0})
enqueue_front pid q = do
  s ← get
  update_linked (head_of q s) (λ p. record p { prev_process = pid })
  update_proc pid (λ p. record p { next_process = head_of q s; prev_process = end_sentinel })
  modify (with_head q pid)

unfoldable pub dequeue : ℕ → Queue → M (Unit {0})
dequeue pid q = do
  p ← proc pid
  update_linked p.prev_process (λ other. record other { next_process = p.next_process })
  p' ← proc pid
  update_linked p'.next_process (λ other. record other { prev_process = p'.prev_process })
  s ← get
  p'' ← proc pid
  if head_of q s == pid then modify (with_head q p''.next_process) else pure tt

pub proc_enqueue : ℕ → M (Unit {0})
proc_enqueue pid = enqueue_front pid running

unfoldable pub proc_suspend : ℕ → M (Unit {0})
proc_suspend pid = do
  p ← proc pid
  if p.suspended then pure tt else (do
    dequeue pid running
    enqueue_front pid suspended
    update_proc pid (λ p. record p { suspended = true }))

unfoldable pub proc_resume : ℕ → M (Unit {0})
proc_resume pid = do
  p ← proc pid
  if not p.suspended then pure tt else (do
    dequeue pid suspended
    enqueue_front pid running
    update_proc pid (λ p. record p { suspended = false }))

-- The loop of `decide_next_process` from a node on, with the least tick so far and its process. A list
-- without a cycle has fewer than `2 ^ 16` nodes.
unfoldable pub least : ℕ → Pool Process → ℕ → ℕ → ℕ → Option ℕ
least zero ps node minimum_tick minimum_pid =
    if node == end_sentinel then some minimum_pid else none
least (suc fuel) ps node minimum_tick minimum_pid =
    if node == end_sentinel
    then some minimum_pid
    else (Fault.◌>>=◌ (Pool.at ps node) (λ p.
        least fuel ps p.next_process
          (if ltb p.last_tick minimum_tick then p.last_tick else minimum_tick)
          (if ltb p.last_tick minimum_tick then node else minimum_pid)))

unfoldable pub decide_next_process : M ℕ
decide_next_process = do
  s ← get
  minimum_pid ← lift (least (2 ^ 16) s.processes s.running_head (2 ^ 64 - 1) end_sentinel)
  pure (if minimum_pid == end_sentinel then s.idle_process else minimum_pid)

unfoldable pub switch_process : ℕ → M (Unit {0})
switch_process pid = do
  s ← get
  update_proc pid (λ p. record p { last_tick = s.tick_count })
  if s.current_pid == pid
      then pure tt
      else modify (λ s. record s { current_pid = pid; activated = s.activated ++ pid ∷ [] })

abbrev pub proc_current_pid : Sched → Option ℕ
proc_current_pid s = if not (s.current_pid == end_sentinel) then some s.current_pid else none

unfoldable pub proc_switch : ℕ → M (Unit {0})
proc_switch pid = do
  s ← get
  if not (s.current_pid == end_sentinel) && (s.current_pid == pid) then pure tt else (do
    p ← proc pid
    assert (not p.suspended)
    chosen ← (if p.terminating then decide_next_process else pure pid)
    switch_process chosen)

-- `proc_yield` up to the switch. What it returns is the `unblock_status` of the process when it runs again.
unfoldable pub proc_yield : M (Unit {0})
proc_yield = do
  modify (λ s. record s { tick_count = (s.tick_count + 1) % 2 ^ 64 })
  s ← get
  (if Pool.valid s.processes s.current_pid
      then update_proc s.current_pid (λ p. record p { last_tick = s.tick_count })
      else pure tt)
  pid ← decide_next_process
  proc_switch pid

unfoldable pub yield_status : M ℤ
yield_status = do s ← get; p ← proc s.current_pid; pure p.unblock_status

unfoldable pub proc_block : ℕ → M (Unit {0})
proc_block pid = do proc_suspend pid; proc_yield

unfoldable pub proc_unblock_and_switch : ℕ → ℤ → M (Unit {0})
proc_unblock_and_switch pid status = do
  s ← get
  if Pool.valid s.processes pid
      then (do
        update_proc pid (λ p. record p { unblock_status = status })
        proc_resume pid
        proc_switch pid)
      else pure tt

-- `process::exit`.
unfoldable pub exit : ℕ → ℤ → M (Unit {0})
exit pid status = do
  update_proc pid (λ p. record p { terminating = true; exit_status = status })
  p ← proc pid
  resume_waiting p.waiting_process
  where
    resume_waiting : Option ℕ → M (Unit {0})
    resume_waiting none = pure tt
    resume_waiting (some waiting) = proc_resume waiting

unfoldable pub proc_kill : ℕ → ℤ → M (Unit {0})
proc_kill pid exit_status = do
  s ← get
  assert (not (pid == s.idle_process))
  if not (Pool.valid s.processes pid) then pure tt else (do
    p ← proc pid
    dequeue pid (if p.suspended then suspended else running)
    exit pid exit_status)

-- `process::destroy` gives the file context and the space back, before the slot is erased.
unfoldable pub destroy_process : ℕ → M (Unit {0})
destroy_process pid = do
  p ← proc pid
  s ← get
  ps ← lift (Pool.erase s.processes pid)
  modify (λ s. record s {
    processes = ps;
    destroyed = s.destroyed ++ (p.file_context, p.space_handle) ∷ [];
  })

-- `syscall_exit` up to the switch, after which it does not run again.
unfoldable pub syscall_exit : ℤ → M (Unit {0})
syscall_exit exit_status = do
  s ← get
  pid ← lift (proc_current_pid s)
  proc_kill pid exit_status
  proc_yield

unfoldable pub syscall_kill : ℕ → M ℕ
syscall_kill pid = do proc_kill pid (pos 123); pure 1

-- How `syscall_wait` goes on: it has returned, or it waits, and goes on with `wait_resumed` when the
-- process that it waits for has been killed.
pub data Waited : Type 0 where
  returned : (status : ℕ) → Waited
  waiting : Waited

unfoldable pub syscall_wait : ℕ → M Waited
syscall_wait pid = do
  s ← get
  if not (Pool.valid s.processes pid) then pure (returned 0) else by_current (proc_current_pid s)
  where
    by_current : Option ℕ → M Waited
    by_current none = pure (returned 1)
    by_current (some parent_pid) = do
      p ← proc pid
      if p.terminating then (do destroy_process pid; pure (returned 1)) else (do
        proc_suspend parent_pid
        update_proc pid (λ p. record p { waiting_process = some parent_pid })
        proc_yield
        pure waiting)

unfoldable pub wait_resumed : ℕ → M Waited
wait_resumed pid = do p ← proc pid; assert p.terminating; destroy_process pid; pure (returned 1)

unfoldable pub syscall_set_timeout : ℤ → M (Unit {0})
syscall_set_timeout timeout = do s ← get; set_of (proc_current_pid s)
  where
    set_of : Option ℕ → M (Unit {0})
    set_of none = pure tt
    set_of (some pid) = update_proc pid (λ p. record p { suspension_timeout = timeout })

unfoldable pub syscall_get_timeout : M ℤ
syscall_get_timeout = do s ← get; timeout_of (proc_current_pid s)
  where
    timeout_of : Option ℕ → M ℤ
    timeout_of none = pure (pos 0)
    timeout_of (some pid) = do p ← proc pid; pure p.suspension_timeout

-- `ETIMEOUT`.
abbrev pub etimeout : ℤ
etimeout = negsuc 206

-- How a timer tick goes on: it is done, or it stands at a process that it has just switched to, and goes on
-- from there when the process that it interrupted runs again.
pub data Tick : Type 0 where
  done : Tick
  switched : (at_process : ℕ) → Tick

-- The loop of `on_timer_tick`. The next process is read after a process has been woken up.
unfoldable pub tick_from : ℕ → ℤ → ℕ → M Tick
tick_from zero delta_ms node = lift none
tick_from (suc fuel) delta_ms node =
    let next = (do p ← proc node; tick_from fuel delta_ms p.next_process) in
    if node == end_sentinel then (do proc_yield; pure done) else (do
      p ← proc node
      if ltb_ℤ (pos 0) p.suspension_timeout
          then (do
            update_proc node
                (λ p. record p { suspension_timeout = p.suspension_timeout -ℤ delta_ms })
            p' ← proc node
            if ltb_ℤ (pos 0) p'.suspension_timeout then next else (do
              before ← get
              proc_unblock_and_switch node etimeout
              after ← get
              if before.current_pid == after.current_pid then next else pure (switched node)))
          else next)

unfoldable pub on_timer_tick : ℤ → M Tick
on_timer_tick delta_ms = do s ← get; tick_from (2 ^ 16) delta_ms s.suspended_head
