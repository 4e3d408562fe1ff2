-- ===== src/Kernel/Signal/Action.antt =====
-- kernel/signal.c: the system calls that install handlers and change the mask of the caller.
pub mod Mask
use scepter.Kernel.Sched.{sleep_on}
use scepter.Base.Bits.{complement}
use scepter.Kernel.Signal.{unblockable, bad_signum, sigkill, sigstop}
use scepter.Base.Int.{ℤ, eqb_ℤ, ◌+ℤ◌, pos, ltb_ℤ, negsuc, pos_part}
use scepter.Fs.Errno.{Ret, fail, efault, einval, eintr, count}
use scepter.Kernel.{Sys, Task, wait_of, update_task}
use scepter.Base.{
  ℕ, Bool, Option, none, some, if◌then◌else◌, ◌!=◌, set, get_or, bit_or, bit_and, ◌||◌,
}

-- A user pointer that is read: null, not readable, or what it points at.
pub data Source {ℓ} (A : Type ℓ) : Type ℓ where
  no_source : Source A
  bad_source : Source A
  from : A → Source A

-- A user pointer that is written: null, not writable, or good.
pub data Target : Type 0 where
  no_target bad_target good_target : Target

-- `sigaction_t`; the restorer is always 0.
pub record Action : Type 0 where
  pub sa_handler : ℕ
  pub sa_mask : ℕ
  pub sa_flags : ℕ

-- The installed action of a signal.
abbrev pub action_of : Task → ℕ → Action
action_of t sig = record {
  sa_handler = get_or t.sig_handlers sig 0;
  sa_mask = get_or t.sig_hmask sig 0;
  sa_flags = get_or t.sig_hflags sig 0;
}

abbrev pub install : ℕ → Action → Task → Task
install sig a t = record t {
  sig_handlers = set t.sig_handlers sig a.sa_handler;
  sig_hmask = set t.sig_hmask sig a.sa_mask;
  sig_hflags = set t.sig_hflags sig a.sa_flags;
}

-- SIGKILL and SIGSTOP cannot be caught.
abbrev pub uncatchable : ℤ → Bool
uncatchable signum = eqb_ℤ signum (pos sigkill) || eqb_ℤ signum (pos sigstop)

-- The old handler comes back as a uint32_t.
unfoldable pub sys_signal : (signum : ℤ) → (handler : ℕ) → Task → Ret × Task
sys_signal signum handler t =
    if bad_signum signum
    then (fail einval, t)
    else if uncatchable signum
    then (fail einval, t)
    else (
      count (get_or t.sig_handlers (pos_part signum) 0),
      install (pos_part signum) (record { sa_handler = handler; sa_mask = 0; sa_flags = 0 }) t,
    )

-- With the old action, where it is written.
unfoldable pub sys_sigaction :
    (signum : ℤ) → Source Action → Target → Task → Ret × Task × Option Action
sys_sigaction signum new old t =
    if bad_signum signum
    then (fail einval, t, none)
    else if uncatchable signum
    then (fail einval, t, none)
    else elim old [
      | bad_target ↦ (fail efault, t, none)
      | no_target ↦ elim new [
        | no_source ↦ (count 0, t, none)
        | bad_source ↦ (fail efault, t, none)
        | from a ↦ (count 0, install (pos_part signum) a t, none)
      ]
      | good_target ↦ elim new [
        | no_source ↦ (count 0, t, some (action_of t (pos_part signum)))
        | bad_source ↦ (fail efault, t, some (action_of t (pos_part signum)))
        | from a ↦ (count 0, install (pos_part signum) a t, some (action_of t (pos_part signum)))
      ]
    ]

-- `new &= ~(…)` on a uint32_t.
abbrev pub without : ℕ → ℕ → ℕ
without mask bits = bit_and mask (complement 32 bits)

abbrev pub set_blocked : ℕ → Task → Task
set_blocked mask t = record t { blocked_mask = mask }

-- The `switch` on `how`, with the mask that was read.
unfoldable pub change_mask : (how : ℤ) → (new : ℕ) → Task → Ret × Task
change_mask how new t =
    let allowed = without new unblockable in
    if eqb_ℤ how (pos 0)
    then (count 0, set_blocked (bit_or t.blocked_mask allowed) t)
    else if eqb_ℤ how (pos 1)
    then (count 0, set_blocked (without t.blocked_mask allowed) t)
    else if eqb_ℤ how (pos 2)
    then (count 0, set_blocked allowed t)
    else (fail einval, t)

-- With the old mask, where it is written.
unfoldable pub sys_sigprocmask : (how : ℤ) → Source ℕ → Target → Task → Ret × Task × Option ℕ
unfolding change_mask
sys_sigprocmask how new old t = elim old [
  | bad_target ↦ (fail efault, t, none)
  | no_target ↦ elim new [
    | no_source ↦ (count 0, t, none)
    | bad_source ↦ (fail efault, t, none)
    | from mask ↦ let (ret, t') = change_mask how mask t in (ret, t', none)
  ]
  | good_target ↦ elim new [
    | no_source ↦ (count 0, t, some t.blocked_mask)
    | bad_source ↦ (fail efault, t, some t.blocked_mask)
    | from mask ↦ let (ret, t') = change_mask how mask t in (ret, t', some t.blocked_mask)
  ]
]

unfoldable pub sys_sigpending : Target → Task → Ret × Option ℕ
sys_sigpending no_target t = (fail efault, none)
sys_sigpending bad_target t = (fail efault, none)
sys_sigpending good_target t = (count 0, some (bit_and t.pending t.blocked_mask))

-- How far `sys_sigsuspend` comes: it returns, or it sleeps and keeps the old mask.
pub data Suspend : Type 0 where
  suspend_returns : Ret → Suspend
  suspend_sleeps : (old : ℕ) → Suspend

-- The part up to the sleep on the task's own wait queue.
unfoldable pub sys_sigsuspend : Source ℕ → Sys → Task → Suspend × Sys
sys_sigsuspend no_source s t = (suspend_returns (fail efault), s)
sys_sigsuspend bad_source s t = (suspend_returns (fail efault), s)
sys_sigsuspend (from mask) s t =
    let masked = without mask unblockable in
    if without t.pending masked != 0 then (suspend_returns (fail eintr), s) else (
      suspend_sleeps t.blocked_mask,
      sleep_on (wait_of t.pid)
          (record s { tasks = update_task t.pid (set_blocked masked) s.tasks }),
    )

-- The part behind the sleep.
unfoldable pub sigsuspend_resume : (old : ℕ) → Task → Ret × Task
sigsuspend_resume old t = (fail eintr, set_blocked old t)

-- The increment of an int; overflow is left out.
unfoldable pub sys_nice : ℤ → Task → ℤ × Task
sys_nice inc t =
    let prio = t.priority +ℤ inc in
    let low = if ltb_ℤ prio (negsuc 19) then negsuc 19 else prio in
    let clamped = if ltb_ℤ (pos 19) low then pos 19 else low in
    (clamped, record t { priority = clamped })
