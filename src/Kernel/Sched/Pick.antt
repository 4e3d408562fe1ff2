-- ===== src/Kernel/Sched/Pick.antt =====
-- kernel/sched.c: the choice of `pick_next_task` among the other tasks.
use scepter.Base.Int.{ℤ, ◌≤ℤ◌, eq_of_eqb, ◌<ℤ◌, ltb_ℤ, eqb_ℤ}
use scepter.Base.{
  ℕ, ◌≡◌, refl, none, true, ◌==◌, inl, Bool, [], ◌∷◌, ◌⊎◌, arith, ◌||◌, List, ◌≢◌, some, Bool-cases,
  ◌&&◌, if◌then◌else◌, not, inr, Option-cases, Option, false,
}
use scepter.Kernel.{Task, is_ready, is_running}
use scepter.Kernel.Sched.{
  Choice, keep, switch, idle, pick_next_task, best_loop, wrap_loop, next_loop, no_other, or_else,
}

-- Of every task of the list.
abbrev pub Each {κ} : (Task → Type κ) → List Task → Type κ
Each P [] = Unit
Each P (t ∷ ts) = P t × Each P ts

-- Of every READY task of the list but the current one.
abbrev pub Others : (cur : ℕ) → (Task → Type 0) → List Task → Type 0
Others cur P = Each (λ t. is_ready t.state ≡ true → t.pid ≢ cur → P t)

module _ (cur : ℕ) where
  best_loop-le : (b : ℤ) (ts : List Task) → best_loop cur b ts ≤ℤ b
  unfolding best_loop
  best_loop-le b [] = omega arith
  best_loop-le b (t ∷ ts) = ground (arith, best_loop-le b ts, best_loop-le t.priority ts)

  best_loop-least : (ts : List Task) (b : ℤ) → Others cur (λ t. best_loop cur b ts ≤ℤ t.priority) ts
  unfolding best_loop
  best_loop-least [] b = tt
  best_loop-least (t ∷ ts) b = (
    (λ is_it other_pid. ground (arith, best_loop-le t.priority ts, best_loop-le b ts)),
    best_loop-least ts (
        if not (is_ready t.state) || t.pid == cur
        then b
        else if ltb_ℤ t.priority b
        then t.priority
        else b),
  )

  wrap_loop-found :
      (b : ℤ) (ts : List Task) {t : Task}
      → wrap_loop cur b ts ≡ some t
      → (is_ready t.state ≡ true) × (t.priority ≡ b)
  unfolding wrap_loop
  wrap_loop-found b [] e = absurd (cc)
  wrap_loop-found b (u ∷ ts) {t = t} e =
      ground (arith, wrap_loop-found b ts {t = t}, eq_of_eqb u.priority b)

  next_loop-found :
      (b : ℤ) (found : Bool) (ts : List Task) {t : Task}
      → next_loop cur b found ts ≡ some t
      → (is_ready t.state ≡ true) × (t.priority ≡ b)
  unfolding next_loop
  next_loop-found b found [] e = absurd (cc)
  next_loop-found b found (u ∷ ts) {t = t} e = ground (
    arith,
    next_loop-found b found ts {t = t},
    next_loop-found b (found || u.pid == cur) ts {t = t},
    eq_of_eqb u.priority b,
  )

  -- The best priority is that of a task, unless it is the one that the loop began with.
  best_loop-attained :
      (b : ℤ) (ts : List Task)
      → (best_loop cur b ts ≡ b) ⊎ (wrap_loop cur (best_loop cur b ts) ts ≢ none)
  unfolding best_loop wrap_loop
  best_loop-attained b [] = inl refl
  best_loop-attained b (t ∷ ts) =
      ground (arith, best_loop-attained b ts, best_loop-attained t.priority ts)

-- What follows from the least priority of the others, and the bound on nice values.
derive :
    (cur : ℕ) (b : ℤ) (Q : Task → Type 0) (ts : List Task)
    → ((t : Task) → b ≤ℤ t.priority → t.priority <ℤ no_other → Q t)
    → Others cur (λ t. b ≤ℤ t.priority) ts
    → Each (λ t. t.priority <ℤ no_other) ts
    → Others cur Q ts
derive cur b Q [] f least nice = tt
derive cur b Q (t ∷ ts) f (le, least) (lt, nice) =
    ((λ is_it other_pid. f t (le is_it other_pid) lt), derive cur b Q ts f least nice)

-- A task that the second or third loop finds.
found-best :
    (cur : ℕ) (b : ℤ) (ts : List Task) {t : Task}
    → or_else (next_loop cur b false ts) (wrap_loop cur b ts) ≡ some t
    → (is_ready t.state ≡ true) × (t.priority ≡ b)
found-best cur b ts {t} e =
    ground (arith, next_loop-found cur b false ts {t = t}, wrap_loop-found cur b ts {t = t})

-- If they find none, no other task is READY.
none-best :
    (cur : ℕ) (ts : List Task)
    → let b = best_loop cur no_other ts in
      or_else (next_loop cur b false ts) (wrap_loop cur b ts) ≡ none → b ≡ no_other
none-best cur ts e = ground (arith, best_loop-attained cur no_other ts)

-- What each choice means. Nice values lie below 1000.
abbrev pub Justified : Task → List Task → Choice → Type 0
Justified cur ts keep = Others cur.pid (λ t. cur.priority <ℤ t.priority) ts
Justified cur ts (switch t) =
    (is_ready t.state ≡ true) × Others cur.pid (λ u. t.priority ≤ℤ u.priority) ts
Justified cur ts idle = Others cur.pid (λ t. ⊥) ts

-- `pick_next_task` keeps the current task only if every other READY task is worse, switches only
-- to a READY task such that no other READY task is better, and idles only if no other task is
-- READY. Nice values are below 1000.
pub pick_next_task-Justified :
    (cur : Task) (ts : List Task)
    → Each (λ t. t.priority <ℤ no_other) ts
    → Justified cur ts (pick_next_task cur ts)
unfolding pick_next_task
pick_next_task-Justified cur ts nice =
    elim (Bool-cases (eqb_ℤ best no_other && is_running cur.state)) [
      | inl alone ↦ rw alone (nobody (cur_less) (ground (arith, eq_of_eqb best no_other)))
      | inr not_alone ↦
          elim (Bool-cases
            (not (eqb_ℤ best no_other) && is_running cur.state && ltb_ℤ cur.priority best)) [
              | inl better ↦
                  rw (not_alone, better)
                    (derive cur.pid best cur_less ts (λ t lo hi. ground arith) least nice)
              | inr not_better ↦ elim (Option-cases choice) [
                | inl none_found ↦
                    let all = none-best cur.pid ts none_found in
                    elim (Bool-cases (is_ready cur.state)) [
                      | inl is_it ↦
                          rw (not_alone, not_better, none_found, is_it) (nobody cur_less all)
                      | inr is_not ↦
                          rw (not_alone, not_better, none_found, is_not) (nobody (λ t. ⊥) all)
                    ]
                | inr (t, found) ↦
                    let (is_it, same) = found-best cur.pid best ts {t = t} found in
                    rw (not_alone, not_better, found)
                      (
                        is_it,
                        derive cur.pid best (λ u. t.priority ≤ℤ u.priority) ts
                            (λ u lo hi. rw same lo) least nice,
                      )
              ]
            ]
    ]
  where
    best : ℤ
    best = best_loop cur.pid no_other ts

    choice : Option Task
    choice = or_else (next_loop cur.pid best false ts) (wrap_loop cur.pid best ts)

    least : Others cur.pid (λ t. best ≤ℤ t.priority) ts
    least = best_loop-least cur.pid ts no_other

    cur_less : Task → Type 0
    cur_less t = cur.priority <ℤ t.priority

    nobody : (Q : Task → Type 0) → best ≡ no_other → Others cur.pid Q ts
    nobody Q e =
        derive cur.pid best Q ts (λ t lo hi. absurd (not_below t (rw e at lo) hi)) least nice
      where
        not_below : (t : Task) → no_other ≤ℤ t.priority → t.priority <ℤ no_other → ⊥
        not_below t lo hi = omega arith
