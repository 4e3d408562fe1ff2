-- ===== src/Kernel/Signal/Deliver/Step.antt =====
-- One signal of `do_signal`: what it does to the task and the registers.
use scepter.Kernel.Signal.{
  sig_dfl, sig_ign, sa_nodefer_bit, sig_default_terminates, sig_default_stops, sa_resethand_bit,
}
use scepter.Base.Bits.{bit, bit-set_bit, bit-clear_bit, test_bit, bit-bit_or}
use scepter.Kernel.Signal.Deliver.{
  consume, Regs, reset_handler, take_signal, added_mask, save_context, Verdict, exits, enter, stops,
  handles, trampoline_va, nothing, frame_sp, catch_signal, stop_task,
}
use scepter.Kernel.Signal.Send.{post}
use scepter.Kernel.{Task, stopped}
use scepter.Base.{
  ℕ, Bool, ◌<◌, ◌≢◌, refl, none, false, true, ◌≡◌, arith, some, ◌&&◌, if◌then◌else◌, get_or, sym,
  ◌==◌, Option, ◌∙◌, true≢false, not, ◌||◌, inr, ap₂, Bool-cases, inl, get_or-set_ne, ◌-◌, ◌^◌, ◌%◌,
  ◌+◌, suc, ◌∷◌, zero, [], set, List,
}

-- `t'` is `t` but for signal `sig`, when the scan goes on.
pub record Kept (sig : ℕ) (t t' : Task) : Type 0 where
  pub mask : t'.blocked_mask ≡ t.blocked_mask
  pub active : t'.sig_active ≡ t.sig_active
  pub hmask : t'.sig_hmask ≡ t.sig_hmask
  pub hflags : t'.sig_hflags ≡ t.sig_hflags
  pub handlers : (k : ℕ) → k ≢ sig → get_or t'.sig_handlers k 0 ≡ get_or t.sig_handlers k 0
  pub pendings : (k : ℕ) → k < 32 → k ≢ sig → bit t'.pending k ≡ bit t.pending k
  pub state : t'.state ≡ t.state
  pub requeued : bit t'.pending sig ≡ true → t.sig_active ≡ true

-- `t'` and `r'` are `t` and `r` with the handler of signal `sig` entered.
pub record Entered (sig : ℕ) (t : Task) (r : Regs) (t' : Task) (r' : Regs) : Type 0 where
  pub caught : (get_or t.sig_handlers sig 0 ≢ sig_dfl) × (get_or t.sig_handlers sig 0 ≢ sig_ign)
  pub idle : t.sig_active ≡ false
  pub active : t'.sig_active ≡ true
  pub frame :
      (r'.ip ≡ get_or t.sig_handlers sig 0)
      × (r'.sp ≡ (r.sp + 2 ^ 32 - 8) % 2 ^ 32)
      × (r'.ret ≡ 0)
      × (r'.flags ≡ r.flags)
  pub saved : (t'.saved_ip ≡ r.ip) × (t'.saved_sp ≡ r.sp) × (t'.saved_flags ≡ r.flags)
  pub saved_mask : t'.saved_blocked ≡ t.blocked_mask
  pub consumed : bit t'.pending sig ≡ false
  pub reset : get_or t'.sig_handlers sig 0 ≡ (
      if test_bit (get_or t.sig_hflags sig 0) sa_resethand_bit
      then sig_dfl
      else get_or t.sig_handlers sig 0)
  pub masked :
      (k : ℕ)
      → bit t'.blocked_mask k ≡ (
          bit t.blocked_mask k
          || (bit (get_or t.sig_hmask sig 0) k
              || (sig == k && not (test_bit (get_or t.sig_hflags sig 0) sa_nodefer_bit))))

-- `t'` is `t` when the scan ends for signal `sig` without a handler: the signal is no longer
-- pending, those above it are as before, and so are the mask and the flag of an active handler.
pub record Ended (sig : ℕ) (t t' : Task) : Type 0 where
  pub consumed : bit t'.pending sig ≡ false
  pub later : (k : ℕ) → sig < k → k < 32 → bit t'.pending k ≡ bit t.pending k
  pub mask : t'.blocked_mask ≡ t.blocked_mask
  pub active : t'.sig_active ≡ t.sig_active

-- The task is stopped by signal `sig`, and its parent has yet to be told.
abbrev pub StoppedBy : (sig : ℕ) → Task → Type 0
StoppedBy sig t' =
    (t'.state ≡ stopped) × (t'.stop_sig ≡ sig) × (t'.stop_reported ≡ false) × (t'.continued ≡ false)

abbrev pub Step : (sig : ℕ) → Task → Regs → Option Verdict → Task → Regs → Type 0
Step sig t r none t' r' = Kept sig t t' × (r' ≡ r)
Step sig t r (some nothing) t' r' = ⊥
Step sig t r (some (exits n)) t' r' =
    (n ≡ sig)
    × (get_or t.sig_handlers sig 0 ≡ sig_dfl)
    × (sig_default_terminates sig ≡ true)
    × Ended sig t t'
    × (t'.state ≡ t.state)
    × (r' ≡ r)
Step sig t r (some (stops n)) t' r' =
    (n ≡ sig)
    × (get_or t.sig_handlers sig 0 ≡ sig_dfl)
    × (sig_default_stops sig ≡ true)
    × Ended sig t t'
    × StoppedBy sig t'
    × (r' ≡ r)
Step sig t r (some (handles n)) t' r' = (n ≡ sig) × Entered sig t r t' r'

module _ (sig : ℕ) (small : sig < 32) (t : Task) where
  consumed_bit :
      (k : ℕ)
      → k < 32
      → bit (consume sig t).pending k ≡ (if sig == k then false else bit t.pending k)
  consumed_bit k hk = bit-clear_bit t.pending sig k small hk

  gone : bit (consume sig t).pending sig ≡ false
  gone = ground (arith, consumed_bit sig small)

  consume-Kept : Kept sig t (consume sig t)
  consume-Kept = record {
    mask = refl;
    active = refl;
    hmask = refl;
    hflags = refl;
    handlers = λ k ne. refl;
    pendings = λ k hk ne. ground (arith, consumed_bit k hk);
    state = refl;
    requeued = λ e. absurd (true≢false (sym e ∙ gone));
  }

  consume-Ended : Ended sig t (consume sig t)
  consume-Ended = record {
    consumed = gone;
    later = λ k lt hk. consume-Kept.pendings k hk (λ e. absurd (omega arith));
    mask = refl;
    active = refl;
  }

  stop-Ended : Ended sig t (stop_task sig (consume sig t))
  stop-Ended = record { consumed = gone; later = consume-Ended.later; mask = refl; active = refl }

  requeue-Kept : t.sig_active ≡ true → Kept sig t (post sig (consume sig t))
  requeue-Kept busy = record {
    mask = refl;
    active = refl;
    hmask = refl;
    hflags = refl;
    handlers = λ k ne. refl;
    pendings =
        λ k hk ne. ground (arith, bit-set_bit (consume sig t).pending sig k, consumed_bit k hk);
    state = refl;
    requeued = λ e. busy;
  }

-- A handler may be reset to the default before it is entered.
reset-handlers :
    (sig k : ℕ) (t : Task)
    → k ≢ sig
    → get_or (reset_handler sig t).sig_handlers k 0 ≡ get_or t.sig_handlers k 0
reset-handlers sig k t ne =
    ground (arith, get_or-set_ne t.sig_handlers sig k sig_dfl 0 (λ e. ne (sym e)))

set_default : (hs : List ℕ) (sig : ℕ) → get_or (set hs sig sig_dfl) sig 0 ≡ sig_dfl
set_default [] sig = refl
set_default (x ∷ hs) zero = refl
set_default (x ∷ hs) (suc sig) = set_default hs sig

-- SA_RESETHAND sets the handler back to the default.
reset_handler_lem :
    (sig : ℕ) (t : Task)
    → get_or (reset_handler sig t).sig_handlers sig 0 ≡ (
        if test_bit (get_or t.sig_hflags sig 0) sa_resethand_bit
        then sig_dfl
        else get_or t.sig_handlers sig 0)
reset_handler_lem sig t =
    elim (Bool-cases (test_bit (get_or t.sig_hflags sig 0) sa_resethand_bit)) [
      | inl once ↦ rw once (set_default t.sig_handlers sig)
      | inr stays ↦ rw stays refl
    ]

-- A task that differs from another in its handlers and saved registers only.
reset-Kept : (sig : ℕ) (t t1 : Task) → Kept sig t t1 → Kept sig t (reset_handler sig t1)
reset-Kept sig t t1 h = record {
  mask = ground (arith, h.mask);
  active = ground (arith, h.active);
  hmask = ground (arith, h.hmask);
  hflags = ground (arith, h.hflags);
  handlers = λ k ne. reset-handlers sig k t1 ne ∙ h.handlers k ne;
  pendings = λ k hk ne. ground (arith, h.pendings k hk ne);
  state = ground (arith, h.state);
  requeued = ground (arith, h.requeued);
}

module _ (sig : ℕ) (small : sig < 32) (t : Task) (r : Regs) where
  abbrev fresh : Task
  fresh = reset_handler sig (consume sig t)

  fresh-Kept : Kept sig t fresh
  fresh-Kept = reset-Kept sig t (consume sig t) (consume-Kept sig small t)

  -- The frame could not be written: the signal is lost.
  failed-Kept :
      t.sig_active ≡ false
      → Kept sig t (record (save_context sig r fresh) {
        sig_active = false;
        blocked_mask = fresh.blocked_mask;
      })
  failed-Kept idle = record {
    mask = fresh-Kept.mask;
    active = sym idle;
    hmask = fresh-Kept.hmask;
    hflags = fresh-Kept.hflags;
    handlers = fresh-Kept.handlers;
    pendings = fresh-Kept.pendings;
    state = fresh-Kept.state;
    requeued = fresh-Kept.requeued;
  }

  added_bit :
      (k : ℕ)
      → bit (added_mask sig fresh) k ≡ (
          bit (get_or t.sig_hmask sig 0) k
          || (sig == k && not (test_bit (get_or t.sig_hflags sig 0) sa_nodefer_bit)))
  added_bit k =
      rw (fresh-Kept.hmask, fresh-Kept.hflags)
        (ground (arith, bit-set_bit (get_or t.sig_hmask sig 0) sig k))

  enter-Entered :
      (get_or t.sig_handlers sig 0 == sig_dfl) ≡ false
      → (get_or t.sig_handlers sig 0 == sig_ign) ≡ false
      → t.sig_active ≡ false
      → Entered sig t r (save_context sig r fresh) (enter (get_or t.sig_handlers sig 0) r)
  enter-Entered not_dfl not_ign idle = record {
    caught = (ground arith, ground arith);
    idle = idle;
    active = refl;
    frame = (refl, refl, refl, refl);
    saved = (refl, refl, refl);
    saved_mask = fresh-Kept.mask;
    consumed = ground (arith, gone sig small t);
    reset = reset_handler_lem sig (consume sig t);
    masked = λ k.
        bit-bit_or k fresh.blocked_mask (added_mask sig fresh)
        ∙ ap₂ (λ a b. bit a k || b) fresh-Kept.mask (added_bit k);
  }

  catch_signal-Step :
      (copies : ℕ → Bool) (busy : Bool)
      → t.sig_active ≡ busy
      → (get_or t.sig_handlers sig 0 == sig_dfl) ≡ false
      → (get_or t.sig_handlers sig 0 == sig_ign) ≡ false
      → let (o, t', r') =
          catch_signal copies busy sig (get_or t.sig_handlers sig 0) (consume sig t) r in
        Step sig t r o t' r'
  unfolding catch_signal
  catch_signal-Step copies true e not_dfl not_ign = (requeue-Kept sig small t e, refl)
  catch_signal-Step copies false e not_dfl not_ign = elim (Bool-cases (copies trampoline_va)) [
    | inr no_code ↦ rw no_code (fresh-Kept, refl)
    | inl code ↦ elim (Bool-cases (copies (frame_sp r))) [
      | inr no_frame ↦ rw (code, no_frame) (failed-Kept e, refl)
      | inl frame ↦ rw (code, frame) (refl, enter-Entered not_dfl not_ign e)
    ]
  ]

  -- What one signal that is due does.
  pub take_signal-Step :
      (copies : ℕ → Bool) → let (o, t', r') = take_signal copies sig t r in Step sig t r o t' r'
  unfolding take_signal
  take_signal-Step copies = elim (Bool-cases (get_or t.sig_handlers sig 0 == sig_ign)) [
    | inl ignored ↦ rw ignored (consume-Kept sig small t, refl)
    | inr not_ign ↦ elim (Bool-cases (get_or t.sig_handlers sig 0 == sig_dfl)) [
      | inl default ↦ elim (Bool-cases (sig_default_terminates sig)) [
        | inl kills ↦
            rw (not_ign, default, kills)
              (refl, ground arith, kills, consume-Ended sig small t, refl, refl)
        | inr spares ↦ elim (Bool-cases (sig_default_stops sig)) [
          | inl halts ↦
              rw (not_ign, default, spares, halts)
                (refl, ground arith, halts, stop-Ended sig small t, (refl, refl, refl, refl), refl)
          | inr ignores ↦ rw (not_ign, default, spares, ignores) (consume-Kept sig small t, refl)
        ]
      ]
      | inr not_dfl ↦
          rw (not_ign, not_dfl) (catch_signal-Step copies t.sig_active refl not_dfl not_ign)
    ]
  ]
