-- ===== src/Kernel/Tasks.antt =====
-- Looking up and writing tasks by pid.
use scepter.Base.{ℕ, ◌≡◌, some, ◌∷◌, [], arith, if◌then◌else◌, ◌==◌, List, option_map}
use scepter.Kernel.{Task, find_task, update_task}

pub find_task-pid : (p : ℕ) (ts : List Task) {u : Task} → find_task p ts ≡ some u → u.pid ≡ p
unfolding find_task
find_task-pid p [] e = absurd (cc)
find_task-pid p (t ∷ ts) {u = v} e = ground (arith, find_task-pid p ts {u = v})

-- A write that keeps the pid is read back, at that pid and nowhere else.
pub find_task-update :
    (p q : ℕ) (f : Task → Task) (ts : List Task)
    → ((t : Task) → (f t).pid ≡ t.pid)
    → find_task q (update_task p f ts)
      ≡ (if p == q then option_map f (find_task q ts) else find_task q ts)
unfolding find_task update_task
find_task-update p q f [] keep = ground arith
find_task-update p q f (t ∷ ts) keep = ground (arith, keep t, find_task-update p q f ts keep)
