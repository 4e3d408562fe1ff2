-- ===== src/Tests/Signal.antt =====
-- kernel/signal.c at one task.
use scepter.Kernel.Timer.Expiry.{expires, pending_bit-tick_all}
use scepter.Kernel.Timer.{tick_all, real_timer}
use scepter.Kernel.Signal.Send.Pending.{pending_bit, adds}
use scepter.Kernel.Sched.Wait.{on_queue}
use scepter.Base.Bits.{bit}
use scepter.Kernel.Signal.Action.Mask.{mask_bit, allowed_bit, known_how, sys_sigprocmask_lem}
use scepter.Kernel.Signal.Deliver.Return.{sys_sigreturn-scan}
use scepter.Kernel.Signal.Send.Wakes.{state_of, state_after, send_signal-state}
use scepter.Kernel.Signal.Deliver.Outcome.{scan-Outcome, Outcome}
use scepter.Kernel.Signal.Send.Kill.{hits}
use scepter.Base.Int.{pos}
use scepter.Tests.Sched.{task_with}
use scepter.Fs.Errno.{count, fail, einval}
use scepter.Kernel.Signal.Deliver.First.{verdict_at, first_acting, scan_first}
use scepter.Kernel.Signal.Deliver.{
  Regs, sys_sigreturn, scan, take_signal, do_signal, catch_signal, handles,
}
use scepter.Kernel.Signal.Deliver.Kill.{Killed, do_signal-Killed}
use scepter.Kernel.Signal.Send.{send_signal}
use scepter.Kernel.{Task, find_task, Sys, running, blocked, wait_of}
use scepter.Kernel.Signal.Action.{sys_sigprocmask, from, good_target, bad_target}
use scepter.Base.{
  ℕ, ◌≡◌, refl, set, ◌≢◌, replicate, ◌∷◌, arith, option_map, some, [], true, false, if◌then◌else◌,
  Bool,
}

-- Task 7 has handlers for SIGINT (2, with SIGKILL and SIGHUP in its mask) and none else.
abbrev shell : Task
shell = record (task_with 7 (pos 0) running) {
  pending = 516;
  sig_handlers = set (replicate 32 0) 2 0x8048000;
  sig_hmask = set (replicate 32 0) 2 514;
  sig_hflags = replicate 32 0;
}

abbrev user_regs : Regs
user_regs = record { ip = 0x8049000; sp = 0xBFFFF000; flags = 0x202; ret = 5 }

abbrev can_write : ℕ → Bool
can_write dst = true

abbrev one_shell : Sys
one_shell = record { tasks = task_with 0 (pos 0) blocked ∷ shell ∷ []; current = 7; waiters = [] }

-- SIGINT's handler goes first, and its mask blocks SIGKILL.
enters_handler : (scan can_write 31 1 shell user_regs).0 ≡ handles 2
unfolding scan take_signal catch_signal
enters_handler = refl

blocks_sigkill : (scan can_write 31 1 shell user_regs).1.blocked_mask ≡ 518
unfolding scan take_signal catch_signal
blocks_sigkill = refl

scan_first_example :
    verdict_at (scan can_write 31 1 shell user_regs).0 ≡ first_acting can_write 31 1 shell user_regs
scan_first_example = scan_first can_write 31 1 shell user_regs (omega arith)

scan-Outcome_example :
    let (v, t', r') = scan can_write 31 1 shell user_regs in Outcome 31 1 shell user_regs v t' r'
scan-Outcome_example = scan-Outcome can_write 31 1 shell user_regs (omega arith)

sys_sigreturn-scan_example :
    let (ret, t2, r2) = sys_sigreturn (scan can_write 31 1 shell user_regs).1 user_regs in
    (ret ≡ count 0)
    × (r2 ≡ record user_regs { ret = 0 })
    × (t2.blocked_mask ≡ shell.blocked_mask)
    × (t2.sig_active ≡ false)
sys_sigreturn-scan_example =
    sys_sigreturn-scan can_write 31 1 2 shell user_regs user_regs (omega arith) enters_handler

finds_shell : find_task 7 one_shell.tasks ≡ some shell
unfolding find_task
finds_shell = refl

do_signal-Killed_example : Killed shell (do_signal can_write one_shell user_regs).0
do_signal-Killed_example =
    do_signal-Killed can_write one_shell user_regs shell finds_shell (λ e. absurd (omega arith))
      refl refl

send_signal-state_example :
    ((send_signal 7 (pos 2) one_shell).0 ≡ count 0)
    × (state_of 7 (send_signal 7 (pos 2) one_shell).1
        ≡ some (state_after 2 shell (on_queue 7 (wait_of 7) one_shell.waiters)))
send_signal-state_example = send_signal-state 7 (pos 2) one_shell shell refl finds_shell

sys_sigprocmask_lem_example :
    let (ret, t', written) = sys_sigprocmask (pos 2) (from 516) good_target shell in
    (bit t'.blocked_mask 9 ≡ mask_bit (pos 2) (bit shell.blocked_mask 9) (allowed_bit 516 9))
    × (ret ≡ (if known_how (pos 2) then count 0 else fail einval))
sys_sigprocmask_lem_example =
    sys_sigprocmask_lem (pos 2) 516 9 good_target shell (omega arith) (omega arith) distinct
  where
    distinct : good_target ≢ bad_target
    distinct e = cc

-- The alarm of task 7 runs out; task 8 has time left.
abbrev alarms : Sys
alarms = record {
  tasks =
      record shell { pending = 0; itimer_remaining = 1 }
      ∷ record shell { pid = 8; pending = 0; itimer_remaining = 2 }
      ∷ [];
  current = 7;
  waiters = [];
}

pending_bit-tick_all_example :
    pending_bit 7 14 (tick_all alarms.tasks alarms)
    ≡ option_map (adds (hits (expires real_timer) 7 alarms.tasks) 14 14) (pending_bit 7 14 alarms)
pending_bit-tick_all_example = pending_bit-tick_all alarms.tasks 7 14 alarms
