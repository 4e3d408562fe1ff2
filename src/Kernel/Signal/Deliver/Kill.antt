-- ===== src/Kernel/Signal/Deliver/Kill.antt =====
-- kernel/signal.c: one call of `do_signal` with a SIGKILL pending.
use scepter.Kernel.Signal.Deliver.Outcome.{Outcome, scan-Outcome}
use scepter.Base.Bits.{test_bit}
use scepter.Kernel.Sched.{kernel_pid}
use scepter.Kernel.Signal.{sig_default_stops, sig_default_terminates, sigkill, sig_dfl}
use scepter.Kernel.{Task, Sys, find_task}
use scepter.Kernel.Signal.Deliver.{
  do_signal, Regs, Verdict, exits, is_due, stops, scan, handles, nothing, after_scan, signal_task,
}
use scepter.Kernel.Signal.Deliver.First.{acts, first_acting, verdict_at, scan_first}
use scepter.Base.{
  ℕ, Bool, sym, ◌≡◌, ◌≤◌, Bool-cases, some, get_or, arith, true, ◌<◌, ◌==◌, ◌∙◌, not, ap,
  true≢false, ◌+◌, inr, suc, refl, zero, inl, ◌&&◌, ◌≢◌, false, if◌then◌else◌,
}

first_acting-le :
    (copies : ℕ → Bool) (left sig k : ℕ) (t : Task) (r : Regs)
    → sig ≤ k
    → k < sig + left
    → (is_due t k && acts copies k t r) ≡ true
    → (n : ℕ) × (first_acting copies left sig t r ≡ some n) × (n ≤ k)
unfolding first_acting
first_acting-le copies zero sig k t r lo hi found = absurd (omega arith)
first_acting-le copies (suc left) sig k t r lo hi found =
    elim (Bool-cases (is_due t sig && acts copies sig t r)) [
      | inl here ↦ rw here (sig, refl, lo)
      | inr later ↦
          rw later (first_acting-le copies left (suc sig) k t r (past later) (omega arith) found)
    ]
  where
    past : (is_due t sig && acts copies sig t r) ≡ false → suc sig ≤ k
    past later = elim (Bool-cases (sig == k)) [
      | inl same ↦
          let eq : sig ≡ k = ground arith in absurd (true≢false (sym found ∙ rw (sym eq) later))
      | inr apart ↦ ground arith
    ]

sigkill-acts :
    (copies : ℕ → Bool) (t : Task) (r : Regs)
    → get_or t.sig_handlers sigkill 0 ≡ sig_dfl
    → acts copies sigkill t r ≡ true
unfolding acts sig_default_terminates
sigkill-acts copies t r dfl = rw dfl refl

stops-above : (n : ℕ) → sig_default_stops n ≡ true → 19 ≤ n
unfolding sig_default_stops
stops-above n h = ground arith

-- What a scan that meets a deadly SIGKILL comes to.
abbrev pub Killed : Task → Verdict → Type 0
Killed t nothing = ⊥
Killed t (exits n) = n ≤ sigkill
Killed t (stops n) = ⊥
Killed t (handles n) = (n < sigkill) × (t.sig_active ≡ false)

scan-Killed :
    (copies : ℕ → Bool) (t : Task) (r : Regs)
    → is_due t sigkill ≡ true
    → get_or t.sig_handlers sigkill 0 ≡ sig_dfl
    → Killed t (scan copies 31 1 t r).0
scan-Killed copies t r due dfl =
    let (n, found, le) =
      first_acting-le copies 31 1 sigkill t r (omega arith) (omega arith)
        (rw (due, sigkill-acts copies t r dfl) refl) in
    judge n le (scan copies 31 1 t r).0 (scan_first copies 31 1 t r (omega arith) ∙ found)
      (scan-Outcome copies 31 1 t r (omega arith))
  where
    judge :
        (n : ℕ)
        → n ≤ sigkill
        → (v : Verdict) → verdict_at v ≡ some n
        → Outcome 31 1 t r v (scan copies 31 1 t r).1 (scan copies 31 1 t r).2
        → Killed t v
    judge n le nothing e o = absurd (cc)
    judge n le (exits m) e o = let same : m ≡ n = cc in rw same le
    judge n le (stops m) e (due', dfl', halts, ended, by, regs) =
        let same : m ≡ n = cc in let above = stops-above m halts in absurd (omega arith)
    judge n le (handles m) e (due', entered) =
        let same : m ≡ n = cc in (below m (omega arith) entered.caught.0, entered.idle)
      where
        below : (m : ℕ) → m ≤ sigkill → get_or t.sig_handlers m 0 ≢ sig_dfl → m < sigkill
        below m le caught = elim (Bool-cases (m == sigkill)) [
          | inl is_kill ↦ let same : m ≡ sigkill = ground arith in absurd (caught (rw same dfl))
          | inr other_signal ↦ ground arith
        ]

after_scan_verdict : (s : Sys) (p : ℕ) (x : Verdict × Task × Regs) → (after_scan s p x).0 ≡ x.0
unfolding after_scan
after_scan_verdict s p (nothing, t, r) = refl
after_scan_verdict s p (handles n, t, r) = refl
after_scan_verdict s p (exits n, t, r) = refl
after_scan_verdict s p (stops n, t, r) = refl

-- If SIGKILL is pending, not blocked and at its default action, `do_signal` makes the task exit,
-- unless it enters the handler of a lower signal, while no handler was active.
pub do_signal-Killed :
    (copies : ℕ → Bool) (s : Sys) (r : Regs) (t : Task)
    → find_task s.current s.tasks ≡ some t
    → t.pid ≢ kernel_pid
    → is_due t sigkill ≡ true
    → get_or t.sig_handlers sigkill 0 ≡ sig_dfl
    → Killed t (do_signal copies s r).0
unfolding do_signal signal_task
do_signal-Killed copies s r t found user due dfl =
    rw (do_signal, found)
      (opened (scan copies 31 1 t r) (t.pid == kernel_pid) (t.pending == 0) user_test pending_test
        (scan-Killed copies t r due dfl))
  where
    opened :
        (x : Verdict × Task × Regs) (a b : Bool)
        → a ≡ false
        → b ≡ false
        → Killed t x.0
        → Killed t
            (if a then (nothing, s, r) else if b then (nothing, s, r) else after_scan s t.pid x).0
    opened x a b ea eb k = rw (ea, eb, after_scan_verdict s t.pid x) k

    user_test : (t.pid == kernel_pid) ≡ false
    user_test = ground arith

    pending_test : (t.pending == 0) ≡ false
    pending_test = elim (Bool-cases (t.pending == 0)) [
      | inr some_pending ↦ some_pending
      | inl none_pending ↦
          let zero_mask : t.pending ≡ 0 = ground arith in
          absurd (
            true≢false (
              sym due
              ∙ ap (λ m. test_bit m sigkill && not (test_bit t.blocked_mask sigkill)) zero_mask))
    ]
