-- ===== src/Kernel/Timer/Expiry.antt =====
-- Which signals a tick of the timers sends.
use scepter.Kernel.Signal.Send.{with_task, send_signal}
use scepter.Kernel.Signal.Send.Kill.{hits, adds_twice}
use scepter.Base.Int.{pos}
use scepter.Kernel.Signal.Send.Pending.{
  pending_bit, adds, pending_bit-same, pending_bit-send_signal, adds_none,
}
use scepter.Kernel.Signal.{bad_signum, sigalrm}
use scepter.Kernel.{Task, Sys}
use scepter.Kernel.Timer.{tick_one, tick_all, Timer, real_timer}
use scepter.Base.{
  ℕ, Bool, ap, true, Bool-cases, List, ◌-◌, inr, false, ◌∷◌, option_map, arith, ltb, refl, [], ◌≡◌,
  ◌&&◌, inl, ◌∙◌, ◌==◌, ◌!=◌,
}

-- The timer runs out at the next tick.
abbrev pub expires : Timer → Task → Bool
expires timer t = timer.remaining t == 1

-- Writing the timer changes neither the pid nor the pending mask.
abbrev pub Keeps : Timer → Type 0
Keeps timer =
    (n : ℕ) (t : Task)
    → ((timer.set_remaining n t).pid ≡ t.pid) × ((timer.set_remaining n t).pending ≡ t.pending)

pending_bit-tick_one :
    (timer : Timer) (t : Task) (q k : ℕ) (s : Sys)
    → Keeps timer
    → bad_signum (pos timer.signal) ≡ false
    → pending_bit q k (tick_one timer t s)
      ≡ option_map (adds (expires timer t && t.pid == q) timer.signal k) (pending_bit q k s)
unfolding tick_one
pending_bit-tick_one timer t q k s keeps good = elim (Bool-cases (ltb 0 (timer.remaining t))) [
  | inr off ↦
      let none_left : expires timer t ≡ false = ground (arith, off) in
      rw (tick_one, off, none_left) (adds_none timer.signal k (pending_bit q k s))
  | inl runs ↦ elim (Bool-cases (timer.remaining t - 1 != 0)) [
    | inl more ↦
        let not_yet : expires timer t ≡ false = ground (arith, more) in
        rw (tick_one, runs, more, not_yet)
          (wrote (timer.remaining t - 1) s ∙ adds_none timer.signal k (pending_bit q k s))
    | inr last ↦
        let now : expires timer t ≡ true = ground (arith, last, runs) in
        rw (tick_one, runs, last, now)
          (elim (Bool-cases (ltb 0 (timer.interval t))) [
            | inl again ↦ rw again (wrote (timer.interval t) sent ∙ sends)
            | inr once ↦ rw once sends
          ])
  ]
]
  where
    ticked : Sys
    ticked = with_task t.pid (timer.set_remaining (timer.remaining t - 1)) s

    sent : Sys
    sent = (send_signal t.pid (pos timer.signal) ticked).1

    wrote :
        (n : ℕ) (s : Sys)
        → pending_bit q k (with_task t.pid (timer.set_remaining n) s) ≡ pending_bit q k s
    wrote n s =
        pending_bit-same (timer.set_remaining n) t.pid q k s (λ t. (keeps n t).0)
          (λ t. (keeps n t).1)

    sends : pending_bit q k sent ≡ option_map (adds (t.pid == q) timer.signal k) (pending_bit q k s)
    sends =
        pending_bit-send_signal t.pid q k (pos timer.signal) ticked good
        ∙ ap (option_map (adds (t.pid == q) timer.signal k)) (wrote (timer.remaining t - 1) s)

-- A tick of the real timers makes SIGALRM pending for exactly the tasks whose timer had one tick
-- left, and changes no other bit of any pending mask.
pub pending_bit-tick_all :
    (ts : List Task) (q k : ℕ) (s : Sys)
    → pending_bit q k (tick_all ts s)
      ≡ option_map (adds (hits (expires real_timer) q ts) sigalrm k) (pending_bit q k s)
unfolding tick_all
pending_bit-tick_all [] q k s = adds_none sigalrm k (pending_bit q k s)
pending_bit-tick_all (t ∷ ts) q k s =
    pending_bit-tick_all ts q k (tick_one real_timer t s)
    ∙ ap (option_map (adds (hits (expires real_timer) q ts) sigalrm k))
        (pending_bit-tick_one real_timer t q k s (λ n t. (refl, refl)) refl)
    ∙ adds_twice (expires real_timer t && t.pid == q) (hits (expires real_timer) q ts) sigalrm k
        (pending_bit q k s)
