-- ===== src/Kernel.antt =====
-- include/kernel/sched.h: the tasks, their wait queues and the state that the scheduler and the
-- signal code share.
pub mod Tasks
pub mod Sched
pub mod Signal
pub mod Timer
pub mod Kmsg
use scepter.Base.{ℕ, List, Bool, true, false, Option, none, some, ◌==◌, if◌then◌else◌, [], ◌∷◌}
use scepter.Base.Int.{ℤ}

pub data TaskState : Type 0 where
  running ready blocked zombie stopped : TaskState

-- The fields of `task_struct_t` that the scheduler and the signal code use. A handler is
-- SIG_DFL (0), SIG_IGN (1) or an address.
pub record Task : Type 0 where
  pub pid : ℕ
  pub ppid : ℕ
  pub pgid : ℕ
  pub priority : ℤ
  pub state : TaskState
  pub pending : ℕ
  pub blocked_mask : ℕ
  pub sig_handlers : List ℕ
  pub sig_hmask : List ℕ
  pub sig_hflags : List ℕ
  pub sig_active : Bool
  pub sig_delivered : ℕ
  pub saved_ip : ℕ
  pub saved_sp : ℕ
  pub saved_flags : ℕ
  pub saved_blocked : ℕ
  pub stop_sig : ℕ
  pub stop_reported : Bool
  pub continued : Bool
  pub itimer_remaining : ℕ
  pub itimer_interval : ℕ
  pub vtimer_remaining : ℕ
  pub vtimer_interval : ℕ
  pub ptimer_remaining : ℕ
  pub ptimer_interval : ℕ

-- A wait queue head: the `wait` field of the task with that pid, or another one, by a number.
pub data Queue : Type 0 where
  wait_of : ℕ → Queue
  other : ℕ → Queue

abbrev pub same_queue : Queue → Queue → Bool
same_queue (wait_of p) (wait_of q) = p == q
same_queue (wait_of p) (other j) = false
same_queue (other i) (wait_of q) = false
same_queue (other i) (other j) = i == j

-- An entry of a wait queue: the queue and the sleeping task.
pub record Waiter : Type 0 where
  pub queue : Queue
  pub sleeper : ℕ

-- `task_list`, `current` (by its pid), and all wait queues, each in its order.
pub record Sys : Type 0 where
  pub tasks : List Task
  pub current : ℕ
  pub waiters : List Waiter

abbrev pub is_running : TaskState → Bool
is_running running = true
is_running _ = false

abbrev pub is_ready : TaskState → Bool
is_ready ready = true
is_ready _ = false

abbrev pub is_blocked : TaskState → Bool
is_blocked blocked = true
is_blocked _ = false

abbrev pub is_stopped : TaskState → Bool
is_stopped stopped = true
is_stopped _ = false

-- `find_task_by_pid`.
unfoldable pub find_task : ℕ → List Task → Option Task
find_task p [] = none
find_task p (t ∷ ts) = if t.pid == p then some t else find_task p ts

-- A write through the pointer to the task with pid `p`.
unfoldable pub update_task : ℕ → (Task → Task) → List Task → List Task
update_task p f [] = []
update_task p f (t ∷ ts) = if t.pid == p then f t ∷ ts else t ∷ update_task p f ts

abbrev pub set_state : TaskState → Task → Task
set_state s t = record t { state = s }
