-- ===== src/Kernel/Sched/Starvation.antt =====
-- kernel/sched.c: `pick_next_task` with several tasks of one priority.
use scepter.Base.Int.{ℤ, ◌≤ℤ◌, ◌<ℤ◌, ltb_ℤ}
use scepter.Base.{
  ℕ, ◌≡◌, refl, List, ◌∷◌, ◌⊎◌, none, [], false, arith, ◌≢◌, true, if◌then◌else◌, not, ◌==◌, ◌||◌,
  Bool-cases, inl, inr, zero, ◌∙◌, ap, suc,
}
use scepter.Kernel.{
  Task, running, ready, blocked, is_ready, TaskState, Waiter, set_state, Sys, find_task,
  update_task,
}
use scepter.Kernel.Sched.{
  best_loop, next_loop, kernel_pid, pick_next_task, switch, no_other, schedule, switch_to, ticks,
}

module _ (p : ℤ) (a b : ℕ) where
  -- No READY task of the list is better than `p`, and none has pid `a` or `b`.
  abbrev pub NoBetter : List Task → Type 0
  NoBetter [] = Unit {0}
  NoBetter (t ∷ ts) =
      (is_ready t.state ≡ true → p ≤ℤ t.priority) × (t.pid ≢ a) × (t.pid ≢ b) × NoBetter ts

  best_loop-NoBetter : (cur : ℕ) (ts : List Task) → NoBetter ts → best_loop cur p ts ≡ p
  unfolding best_loop
  best_loop-NoBetter cur [] h = refl
  best_loop-NoBetter cur (t ∷ ts) (least, not_a, not_b, h) =
      rw skipped (best_loop-NoBetter cur ts h)
    where
      skipped :
          (if not (is_ready t.state) || t.pid == cur
            then p
            else if ltb_ℤ t.priority p
            then t.priority
            else p)
          ≡ p
      skipped = elim (Bool-cases (is_ready t.state)) [
        | inl yes_ready ↦ rw yes_ready (ground (arith, least yes_ready))
        | inr not_ready ↦ rw not_ready
      ]

  next_loop-NoBetter :
      (cur : ℕ) (ts : List Task)
      → (cur ≡ a) ⊎ (cur ≡ b)
      → NoBetter ts
      → next_loop cur p false ts ≡ none
  unfolding next_loop
  next_loop-NoBetter cur [] two h = refl
  next_loop-NoBetter cur (t ∷ ts) two (least, not_a, not_b, h) =
      ground (arith, next_loop-NoBetter cur ts two h)

-- The list of tasks: the idle kernel task, two tasks and the others.
abbrev pub line_up :
    Task → (sa : TaskState) → Task → (sb : TaskState) → Task → List Task → List Task
line_up k sa a sb b rest = k ∷ set_state sa a ∷ set_state sb b ∷ rest

-- Two runnable tasks of the best priority stand first behind the kernel task.
pub record Leads (k a b : Task) (rest : List Task) : Type 0 where
  pub kernel : k.pid ≡ kernel_pid
  pub kernel_sleeps : k.state ≡ blocked
  pub apart : a.pid ≢ b.pid
  pub user_a : a.pid ≢ kernel_pid
  pub user_b : b.pid ≢ kernel_pid
  pub level : b.priority ≡ a.priority
  pub nice : a.priority <ℤ no_other
  pub others : NoBetter a.priority a.pid b.pid rest

module _ (k a b : Task) (rest : List Task) (ws : List Waiter) (h : Leads k a b rest) where
  pick_second :
      pick_next_task (set_state running a) (line_up k running a ready b rest)
      ≡ switch (set_state ready b)
  unfolding pick_next_task
  pick_second = ground (
    arith,
    best_loop-NoBetter a.priority a.pid b.pid a.pid rest h.others,
    next_loop-NoBetter a.priority a.pid b.pid a.pid rest (inl refl) h.others,
  )

  pick_first :
      pick_next_task (set_state running b) (line_up k ready a running b rest)
      ≡ switch (set_state ready a)
  unfolding pick_next_task
  pick_first = ground (
    arith,
    best_loop-NoBetter a.priority a.pid b.pid b.pid rest h.others,
    next_loop-NoBetter a.priority a.pid b.pid b.pid rest (inr refl) h.others,
  )

  abbrev pub first_runs : Sys
  first_runs = record { tasks = line_up k running a ready b rest; current = a.pid; waiters = ws }

  abbrev pub second_runs : Sys
  second_runs = record { tasks = line_up k ready a running b rest; current = b.pid; waiters = ws }

  schedule_first : schedule first_runs ≡ second_runs
  unfolding schedule switch_to find_task update_task
  schedule_first = ground (arith, pick_second)

  schedule_second : schedule second_runs ≡ first_runs
  unfolding schedule switch_to find_task update_task
  schedule_second = ground (arith, pick_first)

  -- Round robin fails for three tasks: while the first two tasks of the best priority stay
  -- runnable, any number of calls of `schedule` from the timer only hands the CPU back and forth
  -- between them; every other task, READY at the same priority or not, stays as it is.
  pub ticks_starve :
      (n : ℕ) → (ticks n first_runs ≡ first_runs) ⊎ (ticks n first_runs ≡ second_runs)
  unfolding ticks
  ticks_starve zero = inl refl
  ticks_starve (suc n) = elim (ticks_starve n) [
    | inl e ↦ inr (ap schedule e ∙ schedule_first)
    | inr e ↦ inl (ap schedule e ∙ schedule_second)
  ]
