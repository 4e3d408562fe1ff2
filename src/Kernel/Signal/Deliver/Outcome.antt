-- ===== src/Kernel/Signal/Deliver/Outcome.antt =====
-- kernel/signal.c: the task and the registers when the scan of `do_signal` ends.
use scepter.Base.Bits.{test_bit}
use scepter.Kernel.Signal.{sig_dfl, sig_default_terminates, sig_default_stops, sa_resethand_bit}
use scepter.Kernel.Signal.Deliver.Step.{Kept, Entered, Step, take_signal-Step, Ended, StoppedBy}
use scepter.Kernel.{Task}
use scepter.Kernel.Signal.Deliver.{
  scan, Regs, Verdict, is_due, exits, stops, handles, settle, nothing, take_signal, test_bit,
}
use scepter.Kernel.Signal.Deliver.First.{first_acting, acts, verdict_at, is_due-Kept, scan_first}
use scepter.Base.{
  ℕ, Bool, refl, true, sym, none, ◌≡◌, arith, some, ◌+◌, Option, Bool-cases, ◌∙◌, zero, inr, ◌<◌,
  suc, inl, ◌&&◌, ◌≤◌, get_or, if◌then◌else◌, ap, ap₂,
}

-- What each verdict of the scan of `left` signals from `sig` on means.
abbrev pub Outcome : (left sig : ℕ) → Task → Regs → Verdict → Task → Regs → Type 0
Outcome left sig t r nothing t' r' =
    (r' ≡ r) × (t'.blocked_mask ≡ t.blocked_mask) × (t'.sig_active ≡ t.sig_active)
Outcome left sig t r (exits n) t' r' =
    (is_due t n ≡ true)
    × (get_or t.sig_handlers n 0 ≡ sig_dfl)
    × (sig_default_terminates n ≡ true)
    × Ended n t t'
    × (t'.state ≡ t.state)
    × (r' ≡ r)
Outcome left sig t r (stops n) t' r' =
    (is_due t n ≡ true)
    × (get_or t.sig_handlers n 0 ≡ sig_dfl)
    × (sig_default_stops n ≡ true)
    × Ended n t t'
    × StoppedBy n t'
    × (r' ≡ r)
Outcome left sig t r (handles n) t' r' = (is_due t n ≡ true) × Entered n t r t' r'

module _ (sig : ℕ) (t u : Task) (h : Kept sig t u) where
  -- A handler that is entered after other signals were passed over.
  Entered-Kept :
      (n : ℕ) (r : Regs) (t' : Task) (r' : Regs)
      → sig < n
      → Entered n u r t' r'
      → Entered n t r t' r'
  Entered-Kept n r t' r' lt e =
      let same : get_or u.sig_handlers n 0 ≡ get_or t.sig_handlers n 0 =
        h.handlers n (λ e. absurd (omega arith)) in
      record {
        caught = ((λ z. e.caught.0 (same ∙ z)), (λ z. e.caught.1 (same ∙ z)));
        idle = sym h.active ∙ e.idle;
        active = e.active;
        frame = (e.frame.0 ∙ same, e.frame.1, e.frame.2, e.frame.3);
        saved = e.saved;
        saved_mask = e.saved_mask ∙ h.mask;
        consumed = e.consumed;
        reset =
            e.reset
            ∙ ap₂ (λ flags handler. if test_bit flags sa_resethand_bit then sig_dfl else handler)
                (ap (λ fs. get_or fs n 0) h.hflags) same;
        masked = λ k. rw (sym h.mask, sym h.hmask, sym h.hflags) (e.masked k);
      }

  Ended-Kept : (n : ℕ) (t' : Task) → sig < n → Ended n u t' → Ended n t t'
  Ended-Kept n t' lt e = record {
    consumed = e.consumed;
    later = λ k above hk. e.later k above hk ∙ h.pendings k hk (λ e. absurd (omega arith));
    mask = e.mask ∙ h.mask;
    active = e.active ∙ h.active;
  }

  Outcome-Kept :
      (left : ℕ) (r : Regs) (v : Verdict) (t' : Task) (r' : Regs)
      → ((n : ℕ) → verdict_at v ≡ some n → (sig < n) × (n < 32))
      → Outcome left (suc sig) u r v t' r'
      → Outcome (suc left) sig t r v t' r'
  Outcome-Kept left r nothing t' r' range (same, mask, active) =
      (same, mask ∙ h.mask, active ∙ h.active)
  Outcome-Kept left r (exits n) t' r' range (due, dfl, kills, ended, state, regs) =
      let (lt, lt32) = range n refl in
      (
        sym (is_due-Kept sig n t u h lt32 lt) ∙ due,
        sym (h.handlers n (λ e. absurd (omega arith))) ∙ dfl,
        kills,
        Ended-Kept n t' lt ended,
        state ∙ h.state,
        regs,
      )
  Outcome-Kept left r (stops n) t' r' range (due, dfl, halts, ended, by, regs) =
      let (lt, lt32) = range n refl in
      (
        sym (is_due-Kept sig n t u h lt32 lt) ∙ due,
        sym (h.handlers n (λ e. absurd (omega arith))) ∙ dfl,
        halts,
        Ended-Kept n t' lt ended,
        by,
        regs,
      )
  Outcome-Kept left r (handles n) t' r' range (due, entered) =
      let (lt, lt32) = range n refl in
      (sym (is_due-Kept sig n t u h lt32 lt) ∙ due, Entered-Kept n r t' r' lt entered)

-- A signal that is found lies in the range.
pub first_acting_range :
    (copies : ℕ → Bool) (left sig n : ℕ) (t : Task) (r : Regs)
    → first_acting copies left sig t r ≡ some n
    → (sig ≤ n) × (n < sig + left)
unfolding first_acting
first_acting_range copies zero sig n t r e = absurd (cc)
first_acting_range copies (suc left) sig n t r e =
    elim (Bool-cases (is_due t sig && acts copies sig t r)) [
      | inl found ↦ let same : sig ≡ n = ground (arith, found) in (omega arith, omega arith)
      | inr missing ↦
          let (lo, hi) = first_acting_range copies left (suc sig) n t r (rw missing at e) in
          (omega arith, omega arith)
    ]

-- The scan exits or stops only for a signal that is pending, not blocked and at its default
-- action: the signal is then no longer pending, those above it, the mask and the registers are as
-- before, and a task that is stopped is STOPPED by that signal, with its parent still to be told.
-- It enters a handler only when none is active, with the interrupted context and mask saved, ip
-- at the handler, sp 8 bytes lower and 0 as the returned value, the mask grown by that of the
-- action and, but for SA_NODEFER, by the signal itself, and for SA_RESETHAND the handler set back
-- to the default. Otherwise it leaves registers and mask as they are.
pub scan-Outcome :
    (copies : ℕ → Bool) (left sig : ℕ) (t : Task) (r : Regs)
    → sig + left ≤ 32
    → let (v, t', r') = scan copies left sig t r in Outcome left sig t r v t' r'
unfolding scan
scan-Outcome copies zero sig t r le = (refl, refl, refl)
scan-Outcome copies (suc left) sig t r le = elim (Bool-cases (is_due t sig)) [
  | inr idle ↦ rw idle (
      skipped (scan copies left (suc sig) t r).0 (scan copies left (suc sig) t r).1
        (scan copies left (suc sig) t r).2 (scan-Outcome copies left (suc sig) t r (omega arith)))
  | inl due ↦
      let step = take_signal-Step sig (omega arith) t r copies in
      let later : Later = λ t' r'. scan-Outcome copies left (suc sig) t' r' (omega arith) in
      rw due (
        after due later (take_signal copies sig t r).0 (take_signal copies sig t r).1
          (take_signal copies sig t r).2 step)
]
  where
    Later : Type 0
    Later =
        (u : Task) (s : Regs)
        → let (v, t', r') = scan copies left (suc sig) u s in Outcome left (suc sig) u s v t' r'

    skipped :
        (v : Verdict) (t' : Task) (r' : Regs)
        → Outcome left (suc sig) t r v t' r'
        → Outcome (suc left) sig t r v t' r'
    skipped nothing t' r' o = o
    skipped (exits n) t' r' o = o
    skipped (stops n) t' r' o = o
    skipped (handles n) t' r' o = o

    after :
        is_due t sig ≡ true
        → Later
        → (o : Option Verdict) (u : Task) (s : Regs) → Step sig t r o u s
        → let (v, t', r') = settle o (u, s) (scan copies left (suc sig) u s) in
          Outcome (suc left) sig t r v t' r'
    after due later none u s (kept, same) = rw same (
        Outcome-Kept sig t u kept left r (scan copies left (suc sig) u r).0
          (scan copies left (suc sig) u r).1 (scan copies left (suc sig) u r).2
          (λ n e.
            let (lo, hi) =
              first_acting_range copies left (suc sig) n u r
                (sym (scan_first copies left (suc sig) u r (omega arith)) ∙ e) in
            (omega arith, omega arith))
          (later u r))
    after due later (some nothing) u s step = absurd step
    after due later (some (exits n)) u s (same, dfl, kills, ended, state, regs) =
        rw same (due, dfl, kills, ended, state, regs)
    after due later (some (stops n)) u s (same, dfl, halts, ended, by, regs) =
        rw same (due, dfl, halts, ended, by, regs)
    after due later (some (handles n)) u s (same, entered) = rw same (due, entered)
