-- ===== src/Kernel/Signal/Deliver.antt =====
-- kernel/signal.c: `do_signal` and `sys_sigreturn`. Whether the user's stack can be written is a
-- parameter: `copies dst` says that `copy_to_user` to `dst` succeeds.
pub mod Step
pub mod First
pub mod Outcome
pub mod Return
pub mod Kill
use scepter.Kernel.Signal.Send.{with_task, wake_parent, post}
use scepter.Kernel.Sched.{kernel_pid, schedule}
use scepter.Kernel.Signal.{
  sig_ign, sa_resethand_bit, sa_nodefer_bit, sig_dfl, sig_default_terminates, sig_default_stops,
}
use scepter.Base.Bits.{clear_bit, test_bit, set_bit}
use scepter.Fs.Errno.{Ret, fail, minus_one, count}
use scepter.Kernel.{Task, Sys, stopped, find_task}
use scepter.Base.{
  ℕ, Bool, some, zero, ◌+◌, get_or, suc, if◌then◌else◌, bit_or, ◌-◌, not, ◌^◌, set, true, ◌==◌,
  false, ◌&&◌, Option, none, ◌%◌,
}

-- The slots of the register frame that signals use.
pub record Regs : Type 0 where
  pub ip : ℕ
  pub sp : ℕ
  pub flags : ℕ
  pub ret : ℕ

-- SIGNAL_TRAMPOLINE_VA.
abbrev pub trampoline_va : ℕ
trampoline_va = 0xBFFFFFE0

-- How a scan of the pending signals ends.
pub data Verdict : Type 0 where
  -- `do_signal` returns; no handler is entered.
  nothing : Verdict
  -- The handler's frame, the trampoline's address and the signal, is at the new stack pointer.
  handles : (sig : ℕ) → Verdict
  -- `do_exit(128 + sig)`.
  exits : (sig : ℕ) → Verdict
  -- The task is stopped and gives up the CPU; the scan goes on with the next signal.
  stops : (sig : ℕ) → Verdict

-- `task->pending & mask` and not `task->blocked & mask`.
abbrev pub is_due : Task → ℕ → Bool
is_due t sig = test_bit t.pending sig && not (test_bit t.blocked_mask sig)

abbrev pub consume : ℕ → Task → Task
consume sig t = record t { pending = clear_bit t.pending sig }

abbrev pub stop_task : ℕ → Task → Task
stop_task sig t = record t {
  state = stopped;
  stop_sig = sig;
  stop_reported = false;
  continued = false;
}

-- SA_RESETHAND.
abbrev pub reset_handler : ℕ → Task → Task
reset_handler sig t =
    if test_bit (get_or t.sig_hflags sig 0) sa_resethand_bit
    then record t { sig_handlers = set t.sig_handlers sig sig_dfl }
    else t

-- The signals that a handler adds to the mask.
abbrev pub added_mask : ℕ → Task → ℕ
added_mask sig t =
    if test_bit (get_or t.sig_hflags sig 0) sa_nodefer_bit
    then get_or t.sig_hmask sig 0
    else set_bit (get_or t.sig_hmask sig 0) sig

abbrev pub save_context : ℕ → Regs → Task → Task
save_context sig r t = record t {
  blocked_mask = bit_or t.blocked_mask (added_mask sig t);
  saved_ip = r.ip;
  saved_sp = r.sp;
  saved_flags = r.flags;
  saved_blocked = t.blocked_mask;
  sig_active = true;
  sig_delivered = sig;
}

-- `REGS_USER_SP(regs) - 8` in a uint32_t.
abbrev pub frame_sp : Regs → ℕ
frame_sp r = (r.sp + 2 ^ 32 - 8) % 2 ^ 32

abbrev pub enter : (handler : ℕ) → Regs → Regs
enter handler r = record r { ip = handler; sp = frame_sp r; ret = 0 }

-- A signal with a handler: `busy` says that another handler runs. `none` is `continue`.
unfoldable pub catch_signal :
    (copies : ℕ → Bool)
    → (busy : Bool) → (sig handler : ℕ) → Task
    → Regs
    → Option Verdict × Task × Regs
catch_signal copies busy sig handler t r =
    let t2 = reset_handler sig t in
    if busy
    then (none, post sig t, r)
    else if not (copies trampoline_va)
    then (none, t2, r)
    else if not (copies (frame_sp r))
    then (
      none,
      record (save_context sig r t2) { sig_active = false; blocked_mask = t2.blocked_mask },
      r,
    )
    else (some (handles sig), save_context sig r t2, enter handler r)

-- What becomes of one signal that is due.
unfoldable pub take_signal : (copies : ℕ → Bool) → ℕ → Task → Regs → Option Verdict × Task × Regs
unfolding catch_signal
take_signal copies sig t r =
    let t1 = consume sig t in
    let handler = get_or t.sig_handlers sig 0 in
    if handler == sig_ign
    then (none, t1, r)
    else if handler == sig_dfl
    then (if sig_default_terminates sig
        then (some (exits sig), t1, r)
        else if sig_default_stops sig
        then (some (stops sig), stop_task sig t1, r)
        else (none, t1, r))
    else catch_signal copies t1.sig_active sig handler t1 r

abbrev pub settle : Option Verdict → Task × Regs → Verdict × Task × Regs → Verdict × Task × Regs
settle none here rest = rest
settle (some v) here rest = (v, here.0, here.1)

-- The loop from signal `sig` on, for `left` signals.
unfoldable pub scan : (copies : ℕ → Bool) → (left sig : ℕ) → Task → Regs → Verdict × Task × Regs
unfolding take_signal
scan copies zero sig t r = (nothing, t, r)
scan copies (suc left) sig t r =
    if is_due t sig
    then (let (o, t', r') = take_signal copies sig t r in
        let rest = scan copies left (suc sig) t' r' in settle o (t', r') rest)
    else scan copies left (suc sig) t r

-- The state that the scan leaves; a stopped task wakes its parent and gives up the CPU.
unfoldable pub after_scan : Sys → (pid : ℕ) → Verdict × Task × Regs → Verdict × Sys × Regs
after_scan s pid (nothing, t, r) = (nothing, with_task pid (λ _. t) s, r)
after_scan s pid (handles sig, t, r) = (handles sig, with_task pid (λ _. t) s, r)
after_scan s pid (exits sig, t, r) = (exits sig, with_task pid (λ _. t) s, r)
after_scan s pid (stops sig, t, r) =
    (stops sig, schedule (wake_parent t (with_task pid (λ _. t) s)), r)

unfoldable pub signal_task : (copies : ℕ → Bool) → Sys → Task → Regs → Verdict × Sys × Regs
unfolding scan after_scan
signal_task copies s t r =
    if t.pid == kernel_pid
    then (nothing, s, r)
    else if t.pending == 0
    then (nothing, s, r)
    else after_scan s t.pid (scan copies 31 1 t r)

-- `do_signal` of the current task, up to a return, an exit or the CPU's going to another task.
unfoldable pub do_signal : (copies : ℕ → Bool) → Sys → Regs → Verdict × Sys × Regs
unfolding signal_task
do_signal copies s r = elim (find_task s.current s.tasks) [
  | none ↦ (nothing, s, r)
  | some t ↦ signal_task copies s t r
]

-- The rest of the call of a task that was stopped by `sig` and runs again.
unfoldable pub do_signal_resume :
    (copies : ℕ → Bool) → (sig : ℕ) → Task → Regs → Verdict × Task × Regs
unfolding scan
do_signal_resume copies sig t r = scan copies (31 - sig) (suc sig) t r

unfoldable pub sys_sigreturn : Task → Regs → Ret × Task × Regs
sys_sigreturn t r = if not t.sig_active then (fail minus_one, t, r) else (
  count 0,
  record t { sig_active = false; blocked_mask = t.saved_blocked },
  record { ip = t.saved_ip; sp = t.saved_sp; flags = t.saved_flags; ret = 0 },
)
