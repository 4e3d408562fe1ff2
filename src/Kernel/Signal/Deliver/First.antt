-- ===== src/Kernel/Signal/Deliver/First.antt =====
-- kernel/signal.c: which signal `do_signal` acts on.
use scepter.Base.Bits.{test_bit-bit, test_bit}
use scepter.Kernel.Signal.{sig_ign, sig_dfl, sig_default_terminates, sig_default_stops}
use scepter.Kernel.Signal.Deliver.Step.{Kept, Step, take_signal-Step}
use scepter.Kernel.{Task}
use scepter.Kernel.Signal.Deliver.{
  scan, take_signal, Verdict, Regs, handles, catch_signal, exits, is_due, stops, nothing,
  trampoline_va, frame_sp, settle,
}
use scepter.Base.{
  ℕ, Bool, ap₂, ◌<◌, some, suc, ◌==◌, zero, if◌then◌else◌, none, ap, not, ◌+◌, ◌≤◌, inr, inl, false,
  get_or, Option, ◌≡◌, arith, ◌∙◌, ◌||◌, ◌&&◌, Bool-cases, sym, true, refl,
}

-- The signal of a verdict.
abbrev pub verdict_at : Verdict → Option ℕ
verdict_at nothing = none
verdict_at (handles sig) = some sig
verdict_at (exits sig) = some sig
verdict_at (stops sig) = some sig

abbrev at_some : Option Verdict → Option ℕ
at_some none = none
at_some (some v) = verdict_at v

-- Whether the scan ends at a signal that is due: the default is to exit or to stop, or there is a
-- handler, none runs already, and its frame can be written.
unfoldable pub acts : (copies : ℕ → Bool) → ℕ → Task → Regs → Bool
acts copies sig t r =
    let handler = get_or t.sig_handlers sig 0 in
    if handler == sig_ign
    then false
    else if handler == sig_dfl
    then sig_default_terminates sig || sig_default_stops sig
    else not t.sig_active && copies trampoline_va && copies (frame_sp r)

-- The lowest of `left` signals from `sig` on that is due and acts.
unfoldable pub first_acting : (copies : ℕ → Bool) → (left sig : ℕ) → Task → Regs → Option ℕ
unfolding acts
first_acting copies zero sig t r = none
first_acting copies (suc left) sig t r =
    if is_due t sig && acts copies sig t r then some sig else first_acting copies left (suc sig) t r

take_signal-acts :
    (copies : ℕ → Bool) (sig : ℕ) (t : Task) (r : Regs)
    → at_some (take_signal copies sig t r).0 ≡ (if acts copies sig t r then some sig else none)
unfolding take_signal catch_signal acts
take_signal-acts copies sig t r = ground arith

-- A signal that is left alone by the scan of a lower one.
pub is_due-Kept :
    (sig k : ℕ) (t t' : Task) → Kept sig t t' → k < 32 → sig < k → is_due t' k ≡ is_due t k
is_due-Kept sig k t t' h hk lt =
    ap₂ (λ a b. a && not b)
      (test_bit-bit k t'.pending
        ∙ h.pendings k hk (λ e. absurd (omega arith))
        ∙ sym (test_bit-bit k t.pending))
      (ap (λ m. test_bit m k) h.mask)

acts-Kept :
    (copies : ℕ → Bool) (sig k : ℕ) (t t' : Task) (r : Regs)
    → Kept sig t t'
    → sig < k
    → acts copies k t' r ≡ acts copies k t r
unfolding acts
acts-Kept copies sig k t t' r h lt =
    let same : get_or t'.sig_handlers k 0 ≡ get_or t.sig_handlers k 0 =
      h.handlers k (λ e. absurd (omega arith)) in
    ground (arith, same, h.active)

first_acting-Kept :
    (copies : ℕ → Bool) (left sig k : ℕ) (t t' : Task) (r : Regs)
    → Kept sig t t'
    → sig < k
    → k + left ≤ 32
    → first_acting copies left k t' r ≡ first_acting copies left k t r
unfolding first_acting
first_acting-Kept copies zero sig k t t' r h lt le = refl
first_acting-Kept copies (suc left) sig k t t' r h lt le =
    rw
      (
        is_due-Kept sig k t t' h (omega arith) lt,
        acts-Kept copies sig k t t' r h lt,
        first_acting-Kept copies left sig (suc k) t t' r h (omega arith) (omega arith),
      )
      refl

-- The scan of the pending signals ends at the lowest signal that is pending, not blocked, and
-- acted on: by the default action, or by a handler that can be entered; it ends without acting
-- only if there is none.
pub scan_first :
    (copies : ℕ → Bool) (left sig : ℕ) (t : Task) (r : Regs)
    → sig + left ≤ 32
    → verdict_at (scan copies left sig t r).0 ≡ first_acting copies left sig t r
unfolding scan first_acting
scan_first copies zero sig t r le = refl
scan_first copies (suc left) sig t r le = elim (Bool-cases (is_due t sig)) [
  | inr idle ↦ rw idle (scan_first copies left (suc sig) t r (omega arith))
  | inl due ↦
      let step = take_signal-Step sig (omega arith) t r copies in
      let at = take_signal-acts copies sig t r in
      let later : Later = λ t' r'. scan_first copies left (suc sig) t' r' (omega arith) in
      rw due (
        after later (take_signal copies sig t r).0 (take_signal copies sig t r).1
          (take_signal copies sig t r).2 step at)
]
  where
    Later : Type 0
    Later =
        (t' : Task) (r' : Regs)
        → verdict_at (scan copies left (suc sig) t' r').0 ≡ first_acting copies left (suc sig) t' r'

    after :
        Later
        → (o : Option Verdict) (t' : Task) (r' : Regs) → Step sig t r o t' r'
        → at_some o ≡ (if acts copies sig t r then some sig else none)
        → verdict_at (settle o (t', r') (scan copies left (suc sig) t' r')).0 ≡ (
            if true && acts copies sig t r
            then some sig
            else first_acting copies left (suc sig) t r)
    after later none t' r' (kept, same) at = rw same (
        later t' r
        ∙ first_acting-Kept copies left sig (suc sig) t t' r kept (omega arith) (omega arith)
        ∙ ground arith)
    after later (some v) t' r' step at = ground arith
