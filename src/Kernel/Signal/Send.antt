-- ===== src/Kernel/Signal/Send.antt =====
-- kernel/signal.c: sending signals to a task or to many.
pub mod Pending
pub mod Kill
pub mod Wakes
use scepter.Kernel.Sched.{wake_up}
use scepter.Kernel.Signal.{sigcont, bad_signum, sig_default_terminates}
use scepter.Fs.Errno.{Ret, count, fail, minus_one, esrch, einval}
use scepter.Base.Bits.{set_bit}
use scepter.Kernel.{Sys, Task, find_task, update_task, ready, is_stopped, wait_of, is_blocked}
use scepter.Base.Int.{ℤ, sub_ℕ, eqb_ℤ, pos, neg_part, negsuc, ltb_ℤ, pos_part}
use scepter.Base.{
  ℕ, Bool, [], true, ◌==◌, ltb, List, ◌^◌, none, ◌-◌, ◌!=◌, ◌&&◌, some, ◌∷◌, false, if◌then◌else◌,
}

abbrev pub post : ℕ → Task → Task
post sig t = record t { pending = set_bit t.pending sig }

-- A stopped task that must handle a signal that terminates it.
abbrev pub restart : Task → Task
restart t = record t { state = ready; stop_sig = 0; stop_reported = false }

abbrev pub continue_task : Task → Task
continue_task t = record t { state = ready; stop_sig = 0; stop_reported = false; continued = true }

-- `wake_up(&parent->wait)`, if there is a parent and it is another task.
abbrev pub wake_parent : Task → Sys → Sys
wake_parent t s = elim (find_task t.ppid s.tasks) [
  | none ↦ s
  | some parent ↦ if parent.pid != t.pid then wake_up (wait_of parent.pid) s else s
]

abbrev pub with_task : ℕ → (Task → Task) → Sys → Sys
with_task p f s = record s { tasks = update_task p f s.tasks }

-- The part of `send_signal` behind the search for the task.
unfoldable pub post_signal : ℕ → Task → Sys → Sys
post_signal sig t s =
    let s' = with_task t.pid (post sig) s in
    if sig == sigcont
    then (if is_stopped t.state
        then wake_parent t (with_task t.pid continue_task s')
        else if is_blocked t.state
        then wake_up (wait_of t.pid) s'
        else s')
    else if is_stopped t.state && sig_default_terminates sig
    then with_task t.pid restart s'
    else if is_blocked t.state
    then wake_up (wait_of t.pid) s'
    else s'

unfoldable pub send_signal : (pid : ℕ) → (signum : ℤ) → Sys → Ret × Sys
unfolding post_signal
send_signal pid signum s =
    if bad_signum signum then (fail minus_one, s) else elim (find_task pid s.tasks) [
      | none ↦ (fail minus_one, s)
      | some t ↦ (count 0, post_signal (pos_part signum) t s)
    ]

-- `(int)` of a uint32_t.
abbrev pub as_int : ℕ → ℤ
as_int n = if ltb n (2 ^ 31) then pos n else negsuc (2 ^ 32 - n - 1)

-- The loop of `send_signal_group` and `send_signal_all`, over the tasks that `chosen` accepts. A
-- signal changes neither the list's order nor a pid.
unfoldable pub send_loop :
    (chosen : Task → Bool) → (signum : ℤ) → List Task → (matched : Bool) → Sys → Bool × Sys
send_loop chosen signum [] matched s = (matched, s)
send_loop chosen signum (t ∷ ts) matched s =
    let rest = send_loop chosen signum ts matched s in
    let rest' = send_loop chosen signum ts true (send_signal t.pid signum s).1 in
    if chosen t then rest' else rest

abbrev pub in_group : ℤ → Task → Bool
in_group pgid t = t.pid != 0 && eqb_ℤ (as_int t.pgid) pgid

abbrev pub in_all : Task → Bool
in_all t = t.pid != 0

unfoldable pub send_signal_group : (pgid : ℤ) → (signum : ℤ) → Sys → Bool × Sys
send_signal_group pgid signum s = send_loop (in_group pgid) signum s.tasks false s

unfoldable pub send_signal_all : (signum : ℤ) → Sys → Bool × Sys
send_signal_all signum s = send_loop in_all signum s.tasks false s

abbrev pub reached : Bool × Sys → Ret × Sys
reached (matched, s) = (if matched then count 0 else fail esrch, s)

abbrev pub neg_ℤ : ℤ → ℤ
neg_ℤ z = sub_ℕ (neg_part z) (pos_part z)

abbrev pub or_esrch : Ret → Ret
or_esrch (count n) = count 0
or_esrch (fail e) = fail esrch

-- `sys_kill`; `caller` is the current task.
unfoldable pub sys_kill : (caller : Task) → (pid signum : ℤ) → Sys → Ret × Sys
sys_kill caller pid signum s =
    if eqb_ℤ signum (pos 0)
    then (if ltb_ℤ (pos 0) pid
        then elim (find_task (pos_part pid) s.tasks) [
          | none ↦ (fail esrch, s)
          | some t ↦ (count 0, s)
        ]
        else (count 0, s))
    else if bad_signum signum
    then (fail einval, s)
    else if ltb_ℤ (pos 0) pid
    then (let (ret, s') = send_signal (pos_part pid) signum s in (or_esrch ret, s'))
    else if eqb_ℤ pid (pos 0)
    then reached (send_signal_group (as_int caller.pgid) signum s)
    else if eqb_ℤ pid (negsuc 0)
    then reached (send_signal_all signum s)
    else reached (send_signal_group (neg_ℤ pid) signum s)
