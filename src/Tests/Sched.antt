-- ===== src/Tests/Sched.antt =====
-- kernel/sched.c at a few tasks.
use scepter.Kernel.Sched.Wait.{woken, on_queue, wake_up_lem}
use scepter.Base.Int.{ℤ, pos}
use scepter.Kernel.{
  find_task, Sys, Task, TaskState, other, update_task, running, blocked, ready, wait_of, same_queue,
}
use scepter.Kernel.Sched.Starvation.{Leads, first_runs, second_runs, ticks_starve}
use scepter.Kernel.Sched.{
  wake_up, ticks, pick_next_task, wake_sleepers, best_loop, next_loop, wrap_loop, switch, keep,
}
use scepter.Kernel.Sched.Pick.{Justified, pick_next_task-Justified}
use scepter.Base.{ℕ, ◌≡◌, refl, arith, ◌∷◌, [], ◌⊎◌, false, some, if◌then◌else◌, List, option_map}

abbrev pub task_with : ℕ → ℤ → TaskState → Task
task_with pid priority state = record {
  pid = pid;
  ppid = 1;
  pgid = 1;
  priority = priority;
  state = state;
  pending = 0;
  blocked_mask = 0;
  sig_handlers = [];
  sig_hmask = [];
  sig_hflags = [];
  sig_active = false;
  sig_delivered = 0;
  saved_ip = 0;
  saved_sp = 0;
  saved_flags = 0;
  saved_blocked = 0;
  stop_sig = 0;
  stop_reported = false;
  continued = false;
  itimer_remaining = 0;
  itimer_interval = 0;
  vtimer_remaining = 0;
  vtimer_interval = 0;
  ptimer_remaining = 0;
  ptimer_interval = 0;
}

abbrev kernel_task : Task
kernel_task = task_with 0 (pos 0) blocked

-- Three shells of one priority, the third waiting for the CPU.
abbrev third : Task
third = task_with 3 (pos 0) ready

abbrev three : List Task
three = kernel_task ∷ task_with 1 (pos 0) running ∷ task_with 2 (pos 0) ready ∷ third ∷ []

takes_second :
    pick_next_task (task_with 1 (pos 0) running) three ≡ switch (task_with 2 (pos 0) ready)
unfolding pick_next_task best_loop next_loop wrap_loop
takes_second = refl

prefers_nice :
    pick_next_task
      (task_with 1 (pos 0) running)
      (kernel_task ∷ task_with 1 (pos 0) running ∷ task_with 2 (pos 1) ready ∷ [])
    ≡ keep
unfolding pick_next_task best_loop next_loop wrap_loop
prefers_nice = refl

pick_next_task-Justified_example :
    Justified
      (task_with 1 (pos 0) running)
      three
      (pick_next_task (task_with 1 (pos 0) running) three)
pick_next_task-Justified_example =
    pick_next_task-Justified (task_with 1 (pos 0) running) three
      (omega arith, (omega arith, (omega arith, (omega arith, tt))))

abbrev first : Task
first = task_with 1 (pos 0) ready

abbrev second : Task
second = task_with 2 (pos 0) ready

leads : Leads kernel_task first second (third ∷ [])
leads = record {
  kernel = refl;
  kernel_sleeps = refl;
  apart = λ e. absurd (omega arith);
  user_a = λ e. absurd (omega arith);
  user_b = λ e. absurd (omega arith);
  level = refl;
  nice = omega arith;
  others = ((λ _. omega arith), (λ e. absurd (omega arith)), (λ e. absurd (omega arith)), tt);
}

ticks_starve_example :
    (ticks 100 (first_runs kernel_task first second (third ∷ []) [] leads)
      ≡ first_runs kernel_task first second (third ∷ []) [] leads)
    ⊎ (ticks 100 (first_runs kernel_task first second (third ∷ []) [] leads)
        ≡ second_runs kernel_task first second (third ∷ []) [] leads)
ticks_starve_example = ticks_starve kernel_task first second (third ∷ []) [] leads 100

-- Tasks 1 and 3 sleep on queue 5, task 2 on another.
abbrev sleepers : Sys
sleepers = record {
  tasks = kernel_task ∷ task_with 1 (pos 0) blocked ∷ task_with 2 (pos 0) blocked ∷ third ∷ [];
  current = 0;
  waiters =
      record { queue = other 5; sleeper = 1 }
      ∷ record { queue = wait_of 2; sleeper = 2 }
      ∷ record { queue = other 5; sleeper = 3 }
      ∷ [];
}

wakes_first : find_task 1 (wake_up (other 5) sleepers).tasks ≡ some first
unfolding wake_up wake_sleepers update_task find_task
wakes_first = refl

wake_up_lem_example :
    (find_task 1 (wake_up (other 5) sleepers).tasks
      ≡ option_map (woken (on_queue 1 (other 5) sleepers.waiters)) (find_task 1 sleepers.tasks))
    × (on_queue 1 (wait_of 2) (wake_up (other 5) sleepers).waiters ≡ (
        if same_queue (other 5) (wait_of 2)
        then false
        else on_queue 1 (wait_of 2) sleepers.waiters))
wake_up_lem_example = wake_up_lem (other 5) (wait_of 2) 1 sleepers
