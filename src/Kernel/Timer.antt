-- ===== src/Kernel/Timer.antt =====
-- kernel/sched.c: `timer_tick`, the interval timers.
pub mod Expiry
use scepter.Base.Int.{pos}
use scepter.Kernel.Signal.Send.{with_task, send_signal}
use scepter.Kernel.Sched.{kernel_pid}
use scepter.Kernel.{Sys, Task, find_task}
use scepter.Kernel.Signal.{sigprof, sigalrm, sigvtalrm}
use scepter.Base.{ℕ, Bool, some, List, ◌∷◌, ◌==◌, ◌-◌, [], ◌!=◌, if◌then◌else◌, none, not, ltb}

-- One interval timer: where a task keeps its ticks and its interval, and its signal.
pub record Timer : Type 0 where
  pub remaining : Task → ℕ
  pub interval : Task → ℕ
  pub set_remaining : ℕ → Task → Task
  pub signal : ℕ

abbrev pub real_timer : Timer
real_timer = record {
  remaining = λ t. t.itimer_remaining;
  interval = λ t. t.itimer_interval;
  set_remaining = λ n t. record t { itimer_remaining = n };
  signal = sigalrm;
}

abbrev pub virtual_timer : Timer
virtual_timer = record {
  remaining = λ t. t.vtimer_remaining;
  interval = λ t. t.vtimer_interval;
  set_remaining = λ n t. record t { vtimer_remaining = n };
  signal = sigvtalrm;
}

abbrev pub prof_timer : Timer
prof_timer = record {
  remaining = λ t. t.ptimer_remaining;
  interval = λ t. t.ptimer_interval;
  set_remaining = λ n t. record t { ptimer_remaining = n };
  signal = sigprof;
}

-- A tick of one timer of the task `t`.
unfoldable pub tick_one : Timer → Task → Sys → Sys
tick_one timer t s =
    let n = timer.remaining t - 1 in
    let s1 = with_task t.pid (timer.set_remaining n) s in
    let s2 = (send_signal t.pid (pos timer.signal) s1).1 in
    if not (ltb 0 (timer.remaining t))
    then s
    else if n != 0
    then s1
    else if ltb 0 (timer.interval t)
    then with_task t.pid (timer.set_remaining (timer.interval t)) s2
    else s2

-- ITIMER_REAL counts for every task. No tick changes another task's timers.
unfoldable pub tick_all : List Task → Sys → Sys
unfolding tick_one
tick_all [] s = s
tick_all (t ∷ ts) s = tick_all ts (tick_one real_timer t s)

-- The timers of the current task.
unfoldable pub tick_current : (in_user : Bool) → Task → Sys → Sys
unfolding tick_one
tick_current in_user t s =
    if t.pid == kernel_pid
    then s
    else tick_one prof_timer t (if in_user then tick_one virtual_timer t s else s)

unfoldable pub timer_tick : (in_user : Bool) → Sys → Sys
unfolding tick_all tick_current
timer_tick in_user s =
    let s' = tick_all s.tasks s in
    elim (find_task s.current s'.tasks) [ none ↦ s' | some t ↦ tick_current in_user t s' ]
