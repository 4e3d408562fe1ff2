-- ===== src/Kernel/Signal/Deliver/Return.antt =====
-- kernel/signal.c: `sys_sigreturn` after `do_signal` has entered a handler.
use scepter.Kernel.Signal.Deliver.Outcome.{Outcome, scan-Outcome}
use scepter.Kernel.Signal.Deliver.Step.{Entered}
use scepter.Fs.Errno.{Ret, count}
use scepter.Kernel.{Task}
use scepter.Kernel.Signal.Deliver.{sys_sigreturn, Regs, scan, handles, Verdict}
use scepter.Base.{ℕ, Bool, ◌≡◌, false, ◌+◌, ◌≤◌, refl}

abbrev Returned : Task → Regs → Ret × Task × Regs → Type 0
Returned t r (ret, t2, r2) =
    (ret ≡ count 0)
    × (r2 ≡ record r { ret = 0 })
    × (t2.blocked_mask ≡ t.blocked_mask)
    × (t2.sig_active ≡ false)

Entered-sys_sigreturn :
    (n : ℕ) (t t' : Task) (r r' r1 : Regs)
    → Entered n t r t' r'
    → Returned t r (sys_sigreturn t' r1)
unfolding sys_sigreturn
Entered-sys_sigreturn n t t' r r' r1 e = rw e.active (
  refl,
  (λ i. record { ip = e.saved.0 i; sp = e.saved.1 i; flags = e.saved.2 i; ret = 0 }),
  e.saved_mask,
  refl,
)

-- When a handler returns, the instruction pointer, the stack pointer, the flags and the mask of
-- blocked signals are those of before the handler, and another handler may run; but the return
-- register is 0, whatever it was.
pub sys_sigreturn-scan :
    (copies : ℕ → Bool) (left sig n : ℕ) (t : Task) (r r1 : Regs)
    → sig + left ≤ 32
    → (scan copies left sig t r).0 ≡ handles n
    → let (ret, t2, r2) = sys_sigreturn (scan copies left sig t r).1 r1 in
      (ret ≡ count 0)
      × (r2 ≡ record r { ret = 0 })
      × (t2.blocked_mask ≡ t.blocked_mask)
      × (t2.sig_active ≡ false)
sys_sigreturn-scan copies left sig n t r r1 le e =
    Entered-sys_sigreturn n t (scan copies left sig t r).1 r (scan copies left sig t r).2 r1
      (entered (scan copies left sig t r).0 e (scan-Outcome copies left sig t r le))
  where
    entered :
        (v : Verdict)
        → v ≡ handles n
        → Outcome left sig t r v (scan copies left sig t r).1 (scan copies left sig t r).2
        → Entered n t r (scan copies left sig t r).1 (scan copies left sig t r).2
    entered v same o = (rw same at o).1
