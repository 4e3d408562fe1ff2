-- ===== src/Kernel/Sched/Wait.antt =====
-- kernel/sched.c: `wake_up` and the wait queues.
use scepter.Kernel.Tasks.{find_task-update}
use scepter.Base.{
  ℕ, ◌≡◌, refl, ◌∷◌, Option, ◌==◌, false, if◌then◌else◌, ◌&&◌, ◌||◌, [], List, option_map, Bool,
  true≢false, none, true, ap, inr, Bool-cases, ◌∙◌, arith, sym, inl, some,
}
use scepter.Kernel.{
  Task, Sys, Queue, Waiter, wait_of, other, find_task, same_queue, update_task, TaskState, ready,
  running, blocked, zombie, stopped, is_blocked,
}
use scepter.Kernel.Sched.{rouse, wake_up, wake_sleepers, without_queue}

-- Task `p` sleeps on queue `q`.
abbrev pub on_queue : ℕ → Queue → List Waiter → Bool
on_queue p q [] = false
on_queue p q (w ∷ ws) = (same_queue w.queue q && w.sleeper == p) || on_queue p q ws

abbrev rouse_if : Bool → Task → Task
rouse_if b t = if b then rouse t else t

-- What a wake-up makes of each state.
abbrev pub woken_state : TaskState → TaskState
woken_state running = running
woken_state ready = ready
woken_state blocked = ready
woken_state zombie = zombie
woken_state stopped = stopped

-- The task after a wake-up that reaches it or not.
abbrev pub woken : Bool → Task → Task
woken true t = record t { state = woken_state t.state }
woken false t = t

-- A state that a wake-up leaves alone.
same_state :
    (t : Task) (st : TaskState)
    → t.state ≡ st
    → woken_state st ≡ st
    → record t { state = woken_state t.state } ≡ t
same_state t st e kept = ap (λ x. record t { state = x }) (ap woken_state e ∙ kept ∙ sym e)

rouse-state : (t : Task) (st : TaskState) → t.state ≡ st → rouse t ≡ woken true t
rouse-state t running e =
    ap (λ b. if b then record t { state = ready } else t) (ap is_blocked e)
    ∙ sym (same_state t running e refl)
rouse-state t ready e =
    ap (λ b. if b then record t { state = ready } else t) (ap is_blocked e)
    ∙ sym (same_state t ready e refl)
rouse-state t zombie e =
    ap (λ b. if b then record t { state = ready } else t) (ap is_blocked e)
    ∙ sym (same_state t zombie e refl)
rouse-state t stopped e =
    ap (λ b. if b then record t { state = ready } else t) (ap is_blocked e)
    ∙ sym (same_state t stopped e refl)
rouse-state t blocked e =
    ap (λ b. if b then record t { state = ready } else t) (ap is_blocked e)
    ∙ ap (λ x. record t { state = x }) (sym (ap woken_state e))

rouse_if-woken : (b : Bool) (o : Option Task) → option_map (rouse_if b) o ≡ option_map (woken b) o
rouse_if-woken b none = refl
rouse_if-woken true (some t) = ap some (rouse-state t t.state refl)
rouse_if-woken false (some t) = refl

rouse_if-or :
    (a b : Bool) (o : Option Task)
    → option_map (rouse_if b) (option_map (rouse_if a) o) ≡ option_map (rouse_if (a || b)) o
rouse_if-or a b none = refl
rouse_if-or false b (some t) = refl
rouse_if-or true b (some t) = ground arith

rouse-pid : (t : Task) → (rouse t).pid ≡ t.pid
rouse-pid t = ground arith

rouse_none : (o : Option Task) → option_map (rouse_if false) o ≡ o
rouse_none none = refl
rouse_none (some t) = refl

one_entry :
    (p q : ℕ) (ts : List Task)
    → (if q == p then option_map rouse (find_task p ts) else find_task p ts)
      ≡ option_map (rouse_if (q == p)) (find_task p ts)
one_entry p q ts = ground (arith, rouse_none (find_task p ts))

find_task-wake_sleepers :
    (p : ℕ) (q : Queue) (ws : List Waiter) (ts : List Task)
    → find_task p (wake_sleepers q ws ts) ≡ option_map (rouse_if (on_queue p q ws)) (find_task p ts)
unfolding wake_sleepers
find_task-wake_sleepers p q [] ts = ground arith
find_task-wake_sleepers p q (w ∷ ws) ts =
    find_task-wake_sleepers p q ws
      (if same_queue w.queue q then update_task w.sleeper rouse ts else ts)
    ∙ ap (option_map (rouse_if (on_queue p q ws))) first
    ∙ rouse_if-or (same_queue w.queue q && w.sleeper == p) (on_queue p q ws) (find_task p ts)
  where
    first :
        find_task p (if same_queue w.queue q then update_task w.sleeper rouse ts else ts)
        ≡ option_map (rouse_if (same_queue w.queue q && w.sleeper == p)) (find_task p ts)
    first = elim (Bool-cases (same_queue w.queue q)) [
      | inl hit ↦
          rw hit (find_task-update w.sleeper p rouse ts rouse-pid ∙ one_entry p w.sleeper ts)
      | inr miss ↦ rw miss (sym (rouse_none (find_task p ts)))
    ]

-- Queues are compared by what they are.
same_queue_trans : (i j k : Queue) → same_queue i j ≡ true → same_queue i k ≡ same_queue j k
same_queue_trans (wait_of i) (wait_of j) (wait_of k) h = ground arith
same_queue_trans (wait_of i) (wait_of j) (other k) h = refl
same_queue_trans (wait_of i) (other j) k h = absurd (true≢false (sym h))
same_queue_trans (other i) (wait_of j) k h = absurd (true≢false (sym h))
same_queue_trans (other i) (other j) (wait_of k) h = refl
same_queue_trans (other i) (other j) (other k) h = ground arith

-- After `wake_up` the queue is empty, and no other queue has changed.
on_queue-without :
    (p : ℕ) (q r : Queue) (ws : List Waiter)
    → on_queue p r (without_queue q ws) ≡ (if same_queue q r then false else on_queue p r ws)
unfolding without_queue
on_queue-without p q r [] = ground arith
on_queue-without p q r (w ∷ ws) =
    ground (arith, on_queue-without p q r ws, same_queue_trans w.queue q r)

-- `wake_up` makes exactly those tasks READY that are BLOCKED and sleep on the queue, leaves
-- every other task as it is, empties the queue and touches no other queue.
pub wake_up_lem :
    (q r : Queue) (p : ℕ) (s : Sys)
    → (find_task p (wake_up q s).tasks
        ≡ option_map (woken (on_queue p q s.waiters)) (find_task p s.tasks))
      × (on_queue p r (wake_up q s).waiters
          ≡ (if same_queue q r then false else on_queue p r s.waiters))
unfolding wake_up
wake_up_lem q r p s = (
  find_task-wake_sleepers p q s.waiters s.tasks
      ∙ rouse_if-woken (on_queue p q s.waiters) (find_task p s.tasks),
  on_queue-without p q r s.waiters,
)
