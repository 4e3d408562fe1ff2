-- ===== src/Kernel/Signal/Send/Kill.antt =====
-- `sys_kill`: whom a signal reaches, and what the call returns.
use scepter.Fs.Errno.{Ret, count, fail, esrch}
use scepter.Base.Int.{ℤ, ltb_ℤ, pos, pos_part, eqb_ℤ, negsuc}
use scepter.Kernel.Signal.Send.Pending.{adds, pending_bit}
use scepter.Kernel.Signal.Send.{in_group, as_int, in_all, neg_ℤ}
use scepter.Kernel.{Task, Sys}
use scepter.Base.{
  ℕ, Bool, ◌≡◌, some, refl, true, List, Option, ◌∷◌, false, ◌==◌, ◌||◌, arith, none, [], ◌&&◌,
  option_map, if◌then◌else◌,
}

-- Some task of the list is chosen; some chosen one has pid `q`.
abbrev pub some_task : (Task → Bool) → List Task → Bool
some_task chosen [] = false
some_task chosen (t ∷ ts) = chosen t || some_task chosen ts

abbrev pub hits : (Task → Bool) → ℕ → List Task → Bool
hits chosen q ts = some_task (λ t. chosen t && t.pid == q) ts

-- The tasks that `kill(pid, …)` means.
abbrev pub addressed : (caller : Task) → (pid : ℤ) → Task → Bool
addressed caller pid =
    if ltb_ℤ (pos 0) pid
    then (λ t. t.pid == pos_part pid)
    else if eqb_ℤ pid (pos 0)
    then in_group (as_int caller.pgid)
    else if eqb_ℤ pid (negsuc 0)
    then in_all
    else in_group (neg_ℤ pid)

pub adds_twice :
    (a b : Bool) (sig k : ℕ) (o : Option Bool)
    → option_map (adds b sig k) (option_map (adds a sig k) o) ≡ option_map (adds (a || b) sig k) o
adds_twice a b sig k none = refl
adds_twice false b sig k (some x) = ground arith
adds_twice true b sig k (some x) = ground arith

-- What the call must come to.
abbrev Reaches : (chosen : Task → Bool) → (sig q k : ℕ) → Sys → Ret × Sys → Type 0
Reaches chosen sig q k s (ret, s') =
    (ret ≡ (if some_task chosen s.tasks then count 0 else fail esrch))
    × (pending_bit q k s' ≡ option_map (adds (hits chosen q s.tasks) sig k) (pending_bit q k s))
