-- ===== src/Kernel/Signal/Send/Wakes.antt =====
-- kernel/signal.c: `send_signal` and the target's state.
use scepter.Kernel.Tasks.{find_task-pid}
use scepter.Fs.Errno.{count}
use scepter.Base.Int.{ℤ, pos_part}
use scepter.Kernel.Sched.Wait.{woken, woken_state, on_queue, wake_up_lem}
use scepter.Kernel.Signal.{sigcont, sig_default_terminates, bad_signum}
use scepter.Kernel.Signal.Send.Pending.{find_task-with_task}
use scepter.Kernel.Sched.{wake_up}
use scepter.Kernel.Signal.Send.{
  with_task, wake_parent, post_signal, post, send_signal, continue_task, restart,
}
use scepter.Kernel.{
  Sys, Task, Queue, find_task, TaskState, is_stopped, ready, wait_of, is_blocked, running, blocked,
  zombie, stopped,
}
use scepter.Base.{
  ℕ, Bool, ◌==◌, ◌&&◌, some, Bool-cases, ==_refl, if◌then◌else◌, ap, ◌∙◌, refl, ◌||◌, Option, inr,
  option_map, Option-cases, ◌≡◌, ◌!=◌, inl, sym, true, true≢false, false,
}

-- The state of a task that gets a signal; `queued` says that it sleeps on its own wait queue.
abbrev pub state_after : (sig : ℕ) → Task → (queued : Bool) → TaskState
state_after sig t queued =
    if is_stopped t.state
    then (if sig == sigcont || sig_default_terminates sig then ready else t.state)
    else if is_blocked t.state && queued
    then ready
    else t.state

abbrev pub state_of : ℕ → Sys → Option TaskState
state_of p s = option_map (λ t. t.state) (find_task p s.tasks)

found_with :
    (f : Task → Task) (p : ℕ) (s : Sys) (t : Task)
    → ((t : Task) → (f t).pid ≡ t.pid)
    → find_task p s.tasks ≡ some t
    → find_task p (with_task p f s).tasks ≡ some (f t)
found_with f p s t keep found = find_task-with_task p p f s keep ∙ rw (found, ==_refl p) refl

state_of-wake_up :
    (p : ℕ) (w : Queue) (s : Sys) (t : Task)
    → find_task p s.tasks ≡ some t
    → state_of p (wake_up w s) ≡ some (woken (on_queue p w s.waiters) t).state
state_of-wake_up p w s t found =
    ap (option_map (λ t. t.state))
      ((wake_up_lem w w p s).0 ∙ ap (option_map (woken (on_queue p w s.waiters))) found)

-- Waking the parent cannot change a task that is READY.
state_of-wake_parent :
    (p : ℕ) (u : Task) (s : Sys) (t : Task)
    → find_task p s.tasks ≡ some t
    → t.state ≡ ready
    → state_of p (wake_parent u s) ≡ some ready
state_of-wake_parent p u s t found is_it = elim (Option-cases (find_task u.ppid s.tasks)) [
  | inl e ↦ rw (wake_parent, e, found) (ap some is_it)
  | inr (v, e) ↦ elim (Bool-cases (v.pid != u.pid)) [
    | inr same ↦ rw (wake_parent, e, same, found) (ap some is_it)
    | inl apart ↦
        rw (wake_parent, e, apart)
          (state_of-wake_up p (wait_of v.pid) s t found
            ∙ ap some (still (on_queue p (wait_of v.pid) s.waiters)))
  ]
]
  where
    still : (b : Bool) → (woken b t).state ≡ ready
    still true = ap woken_state is_it
    still false = is_it

blocked_state : (st : TaskState) → is_blocked st ≡ true → woken_state st ≡ ready
blocked_state running e = absurd (true≢false (sym e))
blocked_state ready e = refl
blocked_state blocked e = refl
blocked_state zombie e = absurd (true≢false (sym e))
blocked_state stopped e = absurd (true≢false (sym e))

module _ (sig : ℕ) (s : Sys) (t : Task) (found : find_task t.pid s.tasks ≡ some t) where
  abbrev posted : Sys
  posted = with_task t.pid (post sig) s

  found_posted : find_task t.pid posted.tasks ≡ some (post sig t)
  found_posted = found_with (post sig) t.pid s t (λ t. refl) found

  abbrev queued : Bool
  queued = on_queue t.pid (wait_of t.pid) s.waiters

  -- Behind the post, for a task at its own t.pid.
  state_of-post_signal : state_of t.pid (post_signal sig t s) ≡ some (state_after sig t queued)
  unfolding post_signal
  state_of-post_signal = elim (Bool-cases (is_stopped t.state)) [
    | inl halted ↦ elim (Bool-cases (sig == sigcont)) [
      | inl continues ↦
          rw (halted, continues)
            (state_of-wake_parent t.pid t (with_task t.pid continue_task posted)
              (continue_task (post sig t))
              (found_with continue_task t.pid posted (post sig t) (λ t. refl) found_posted) refl)
      | inr other_signal ↦ elim (Bool-cases (sig_default_terminates sig)) [
        | inl kills ↦
            rw (halted, other_signal, kills)
              (ap (option_map (λ t. t.state))
                (found_with restart t.pid posted (post sig t) (λ t. refl) found_posted))
        | inr spares ↦ rw (halted, other_signal, spares, not_blocked t.state halted) kept
      ]
    ]
    | inr going ↦ elim (Bool-cases (is_blocked t.state)) [
      | inl waits ↦ elim (Bool-cases (sig == sigcont)) [
        | inl continues ↦ rw (going, continues, waits) (rising waits)
        | inr other_signal ↦ rw (going, other_signal, waits) (rising waits)
      ]
      | inr runs ↦ elim (Bool-cases (sig == sigcont)) [
        | inl continues ↦ rw (going, continues, runs) kept
        | inr other_signal ↦ rw (going, other_signal, runs) kept
      ]
    ]
  ]
    where
      kept : state_of t.pid posted ≡ some t.state
      kept = ap (option_map (λ t. t.state)) found_posted

      not_blocked : (x : TaskState) → is_stopped x ≡ true → is_blocked x ≡ false
      not_blocked running h = refl
      not_blocked ready h = refl
      not_blocked blocked h = absurd (true≢false (sym h))
      not_blocked zombie h = refl
      not_blocked stopped h = refl

      rising :
          is_blocked t.state ≡ true
          → state_of t.pid (wake_up (wait_of t.pid) posted)
            ≡ some (if queued then ready else t.state)
      rising waits =
          state_of-wake_up t.pid (wait_of t.pid) posted (post sig t) found_posted
          ∙ ap some (woken_to queued)
        where
          woken_to : (b : Bool) → (woken b (post sig t)).state ≡ (if b then ready else t.state)
          woken_to true = blocked_state t.state waits
          woken_to false = refl

-- A signal makes its target READY if the target is stopped and the signal is SIGCONT or
-- terminates by default, or if the target is BLOCKED on its own wait queue; otherwise the target's
-- state stays, also if the target is BLOCKED on the wait queue of a pipe.
pub send_signal-state :
    (pid : ℕ) (signum : ℤ) (s : Sys) (t : Task)
    → bad_signum signum ≡ false
    → find_task pid s.tasks ≡ some t
    → ((send_signal pid signum s).0 ≡ count 0)
      × (state_of pid (send_signal pid signum s).1
          ≡ some (state_after (pos_part signum) t (on_queue pid (wait_of pid) s.waiters)))
unfolding send_signal
send_signal-state pid signum s t good found =
    rw (good, found)
      (refl, rw (sym own) (state_of-post_signal (pos_part signum) s t (rw (sym own) at found)))
  where
    own : t.pid ≡ pid
    own = find_task-pid pid s.tasks found
