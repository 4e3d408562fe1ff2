-- ===== src/Kernel/Sched.antt =====
-- kernel/sched.c: choosing the next task, switching to it, and the wait queues.
pub mod Pick
pub mod Starvation
pub mod Wait
use scepter.Base.{
  ℕ, List, [], ◌∷◌, ◌++◌, Bool, true, false, not, ◌&&◌, ◌||◌, Option, none, some, ◌==◌, ◌!=◌,
  if◌then◌else◌, suc, zero,
}
use scepter.Base.Int.{ℤ, pos, ltb_ℤ, eqb_ℤ}
use scepter.Kernel.{
  Task, TaskState, running, ready, blocked, Sys, Queue, Waiter, is_running, is_ready, is_blocked,
  find_task, update_task, set_state, same_queue,
}

-- The value of `best_other` when no other task is READY.
abbrev pub no_other : ℤ
no_other = pos 1000

-- The first loop of `pick_next_task`: the least nice value of the READY tasks but the current.
unfoldable pub best_loop : (current : ℕ) → ℤ → List Task → ℤ
best_loop current best [] = best
best_loop current best (t ∷ ts) =
    best_loop current
      (if not (is_ready t.state) || t.pid == current
        then best
        else if ltb_ℤ t.priority best
        then t.priority
        else best)
      ts

-- The second loop: the first eligible task behind the current one. The search for the current
-- task stands behind the test that skips every task that is not READY.
unfoldable pub next_loop : (current : ℕ) → ℤ → (found_current : Bool) → List Task → Option Task
next_loop current best found [] = none
next_loop current best found (t ∷ ts) =
    let rest = next_loop current best found ts in
    let rest' = next_loop current best (found || t.pid == current) ts in
    if not (is_ready t.state) || not (eqb_ℤ t.priority best)
    then rest
    else if found
    then some t
    else rest'

-- The third loop: the first eligible task of the list.
unfoldable pub wrap_loop : (current : ℕ) → ℤ → List Task → Option Task
wrap_loop current best [] = none
wrap_loop current best (t ∷ ts) =
    if is_ready t.state && eqb_ℤ t.priority best && t.pid != current
    then some t
    else wrap_loop current best ts

abbrev pub or_else {ℓ} : {A : Type ℓ} → Option A → Option A → Option A
or_else none o = o
or_else (some a) o = some a

-- What `pick_next_task` decides: to keep the current task, to run another, or to idle.
pub data Choice : Type 0 where
  keep : Choice
  switch : Task → Choice
  idle : Choice

unfoldable pub pick_next_task : Task → List Task → Choice
unfolding best_loop next_loop wrap_loop
pick_next_task cur tasks =
    let best = best_loop cur.pid no_other tasks in
    if eqb_ℤ best no_other && is_running cur.state
    then keep
    else if not (eqb_ℤ best no_other) && is_running cur.state && ltb_ℤ cur.priority best
    then keep
    else elim (or_else (next_loop cur.pid best false tasks) (wrap_loop cur.pid best tasks)) [
      | some t ↦ switch t
      | none ↦ if is_ready cur.state then keep else idle
    ]

abbrev pub kernel_pid : ℕ
kernel_pid = 0

-- The state in which `schedule` leaves a task that it takes the CPU from.
abbrev pub preempt : (next : ℕ) → Task → Task
preempt next t =
    if is_running t.state
    then set_state (if t.pid == kernel_pid && next != kernel_pid then blocked else ready) t
    else t

unfoldable pub switch_to : Sys → ℕ → Sys
switch_to s next = record s {
  tasks = update_task next (set_state running) (update_task s.current (preempt next) s.tasks);
  current = next;
}

-- The switch of stacks and page tables has no part in the model.
unfoldable pub schedule : Sys → Sys
schedule s = elim (find_task s.current s.tasks) [
  | none ↦ s
  | some cur ↦ elim (pick_next_task cur s.tasks) [
    | keep ↦ s
    | switch t ↦ switch_to s t.pid
    | idle ↦
        let s' = record s { tasks = update_task kernel_pid (set_state running) s.tasks } in
        if s.current == kernel_pid then s' else switch_to s' kernel_pid
  ]
]

-- `sleep_on`, up to the point where the CPU goes to another task.
unfoldable pub sleep_on : Queue → Sys → Sys
sleep_on q s = schedule (record s {
  tasks = update_task s.current (set_state blocked) s.tasks;
  waiters = s.waiters ++ (record { queue = q; sleeper = s.current } ∷ []);
})

abbrev pub rouse : Task → Task
rouse t = if is_blocked t.state then set_state ready t else t

-- `wake_up`: every sleeper of the queue becomes READY, and the queue is emptied.
unfoldable pub wake_sleepers : Queue → List Waiter → List Task → List Task
wake_sleepers q [] ts = ts
wake_sleepers q (w ∷ ws) ts =
    wake_sleepers q ws (if same_queue w.queue q then update_task w.sleeper rouse ts else ts)

unfoldable pub without_queue : Queue → List Waiter → List Waiter
without_queue q [] = []
without_queue q (w ∷ ws) =
    if same_queue w.queue q then without_queue q ws else w ∷ without_queue q ws

unfoldable pub wake_up : Queue → Sys → Sys
unfolding wake_sleepers without_queue
wake_up q s = record s {
  tasks = wake_sleepers q s.waiters s.tasks;
  waiters = without_queue q s.waiters;
}

-- `n` periodic calls of `schedule`.
unfoldable pub ticks : ℕ → Sys → Sys
ticks zero s = s
ticks (suc n) s = schedule (ticks n s)
