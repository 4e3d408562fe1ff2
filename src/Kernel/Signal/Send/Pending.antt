-- ===== src/Kernel/Signal/Send/Pending.antt =====
-- `send_signal`: which pending masks change, and what becomes of the target's state.
use scepter.Kernel.Signal.{bad_signum}
use scepter.Base.Int.{ℤ, pos_part}
use scepter.Kernel.Sched.Wait.{woken, wake_up_lem, on_queue}
use scepter.Kernel.Tasks.{find_task-update, find_task-pid}
use scepter.Kernel.Sched.{wake_up}
use scepter.Base.Bits.{bit, bit-set_bit}
use scepter.Kernel.Signal.Send.{
  post_signal, wake_parent, with_task, post, continue_task, restart, send_signal,
}
use scepter.Kernel.{Task, Sys, Queue, find_task, wait_of}
use scepter.Base.{
  ℕ, Bool, ◌||◌, false, inr, Option, ◌∙◌, ◌≡◌, refl, Option-cases, ap, inl, option_map, ◌&&◌,
  Bool-cases, true, none, some, arith, ◌==◌, if◌then◌else◌, sym,
}

-- Bit `k` of the pending mask of the task with pid `q`.
abbrev pub pending_bit : (q k : ℕ) → Sys → Option Bool
pending_bit q k s = option_map (λ t. bit t.pending k) (find_task q s.tasks)

pub find_task-with_task :
    (p q : ℕ) (f : Task → Task) (s : Sys)
    → ((t : Task) → (f t).pid ≡ t.pid)
    → find_task q (with_task p f s).tasks
      ≡ (if p == q then option_map f (find_task q s.tasks) else find_task q s.tasks)
find_task-with_task p q f s keep = find_task-update p q f s.tasks keep

woken_pending :
    (b : Bool) (k : ℕ) (o : Option Task)
    → option_map (λ t. bit t.pending k) (option_map (woken b) o)
      ≡ option_map (λ t. bit t.pending k) o
woken_pending b k none = refl
woken_pending true k (some t) = refl
woken_pending false k (some t) = refl

pending_bit-wake_up :
    (q k : ℕ) (w : Queue) (s : Sys) → pending_bit q k (wake_up w s) ≡ pending_bit q k s
pending_bit-wake_up q k w s =
    ap (option_map (λ t. bit t.pending k)) (wake_up_lem w w q s).0
    ∙ woken_pending (on_queue q w s.waiters) k (find_task q s.tasks)

pending_bit-wake_parent :
    (q k : ℕ) (t : Task) (s : Sys) → pending_bit q k (wake_parent t s) ≡ pending_bit q k s
pending_bit-wake_parent q k t s = elim (Option-cases (find_task t.ppid s.tasks)) [
  | inl e ↦ rw (wake_parent, e) refl
  | inr (u, e) ↦ rw (wake_parent, e) (ground (arith, pending_bit-wake_up q k (wait_of u.pid) s))
]

module _ (f : Task → Task) (keep : (t : Task) → (f t).pid ≡ t.pid) (k : ℕ) (g : Bool → Bool)
    (does : (t : Task) → bit (f t).pending k ≡ g (bit t.pending k)) where
  mapped :
      (o : Option Task)
      → option_map (λ t. bit t.pending k) (option_map f o)
        ≡ option_map g (option_map (λ t. bit t.pending k) o)
  mapped none = refl
  mapped (some t) = ap some (does t)

  pending_bit-with_task :
      (p q : ℕ) (s : Sys)
      → pending_bit q k (with_task p f s)
        ≡ (if p == q then option_map g (pending_bit q k s) else pending_bit q k s)
  pending_bit-with_task p q s =
      ap (option_map (λ t. bit t.pending k)) (find_task-with_task p q f s keep)
      ∙ ground (arith, mapped (find_task q s.tasks))

map_same : (o : Option Bool) → option_map (λ b. b) o ≡ o
map_same none = refl
map_same (some b) = refl

-- A write that leaves the pending masks alone.
pub pending_bit-same :
    (f : Task → Task) (p q k : ℕ) (s : Sys)
    → ((t : Task) → (f t).pid ≡ t.pid)
    → ((t : Task) → (f t).pending ≡ t.pending)
    → pending_bit q k (with_task p f s) ≡ pending_bit q k s
pending_bit-same f p q k s keep same =
    pending_bit-with_task f keep k (λ b. b) (λ t. ap (λ m. bit m k) (same t)) p q s
    ∙ ground (arith, map_same (pending_bit q k s))

-- What a signal adds.
abbrev pub adds : (hit : Bool) → (sig k : ℕ) → Bool → Bool
adds hit sig k b = b || (hit && sig == k)

pending_bit-post :
    (sig p q k : ℕ) (s : Sys)
    → pending_bit q k (with_task p (post sig) s)
      ≡ option_map (adds (p == q) sig k) (pending_bit q k s)
pending_bit-post sig p q k s =
    pending_bit-with_task (post sig) (λ t. refl) k (adds true sig k) does p q s ∙ split
  where
    does : (t : Task) → bit (post sig t).pending k ≡ adds true sig k (bit t.pending k)
    does t = ground (arith, bit-set_bit t.pending sig k)

    absent : (o : Option Bool) → o ≡ option_map (adds false sig k) o
    absent none = refl
    absent (some b) = ground arith

    split :
        (if p == q then option_map (adds true sig k) (pending_bit q k s) else pending_bit q k s)
        ≡ option_map (adds (p == q) sig k) (pending_bit q k s)
    split = elim (Bool-cases (p == q)) [
      | inl hit ↦ rw hit refl
      | inr miss ↦ rw miss (absent (pending_bit q k s))
    ]

pending_bit-post_signal :
    (sig q k : ℕ) (t : Task) (s : Sys)
    → pending_bit q k (post_signal sig t s)
      ≡ option_map (adds (t.pid == q) sig k) (pending_bit q k s)
unfolding post_signal
pending_bit-post_signal sig q k t s = same ∙ pending_bit-post sig t.pid q k s
  where
    posted : Sys
    posted = with_task t.pid (post sig) s

    same : pending_bit q k (post_signal sig t s) ≡ pending_bit q k posted
    same = ground (
      arith,
      pending_bit-wake_parent q k t (with_task t.pid continue_task posted),
      pending_bit-same continue_task t.pid q k posted (λ t. refl) (λ t. refl),
      pending_bit-same restart t.pid q k posted (λ t. refl) (λ t. refl),
      pending_bit-wake_up q k (wait_of t.pid) posted,
    )

pub adds_none : (sig k : ℕ) (o : Option Bool) → o ≡ option_map (adds false sig k) o
adds_none sig k none = refl
adds_none sig k (some b) = ground arith

-- A signal is added to the pending mask of the task with that pid and to no other.
pub pending_bit-send_signal :
    (pid q k : ℕ) (signum : ℤ) (s : Sys)
    → bad_signum signum ≡ false
    → pending_bit q k (send_signal pid signum s).1
      ≡ option_map (adds (pid == q) (pos_part signum) k) (pending_bit q k s)
unfolding send_signal
pending_bit-send_signal pid q k signum s good = elim (Option-cases (find_task pid s.tasks)) [
  | inl missing ↦ rw (good, missing) (nobody missing)
  | inr (t, found) ↦
      rw (good, found)
        (pending_bit-post_signal (pos_part signum) q k t s
          ∙ ap (λ p. option_map (adds (p == q) (pos_part signum) k) (pending_bit q k s))
              (find_task-pid pid s.tasks found))
]
  where
    nobody :
        find_task pid s.tasks ≡ none
        → pending_bit q k s ≡ option_map (adds (pid == q) (pos_part signum) k) (pending_bit q k s)
    nobody missing = elim (Bool-cases (pid == q)) [
      | inl same ↦
          let e : pid ≡ q = ground arith in
          let gone : pending_bit q k s ≡ none =
            ap (option_map (λ t. bit t.pending k))
              (ap (λ p. find_task p s.tasks) (sym e) ∙ missing) in
          rw gone refl
      | inr apart ↦ rw apart (adds_none (pos_part signum) k (pending_bit q k s))
    ]
