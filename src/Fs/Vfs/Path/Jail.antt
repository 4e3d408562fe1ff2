-- ===== src/Fs/Vfs/Path/Jail.antt =====
-- What the names of a path do in resolve_path of fs/vfs.c once the root is written.
use mathlib.Core.Path.{subst}
use scepter.Fs.Vfs.Path.Names.{
  component-progress, no_slash, IsName, component-slashless, no_slash-cons,
}
use scepter.Fs.Vfs.Path.{
  slash, add_separator, normalise, push_all, put_component, skip_slashes, is_dot, component,
  is_dotdot,
}
use scepter.Base.{
  ℕ, List, length, suc, ◌≡◌, ◌∷◌, arith, [], Bool-cases, some, none, ltb, true, false, ◌!=◌,
  if◌then◌else◌, true≢false, inl, Bool, none≢some, ◌&&◌, inr, sym, some_inj, zero, Option-cases,
  ◌∙◌, ap, List-cases, ◌<◌,
}
use scepter.Fs.Vfs.Path.Climb.{
  Chain, at_base, one_more, Under, at_name, past_slash, and_false, go_up-Under,
}

-- The last byte of the base is no slash, and it is longer than `/`.
abbrev pub proper : List ℕ → Bool
proper [] = false
proper (x ∷ w) = ltb 1 (suc (length w)) && (x != slash)

pub choice_true :
    (t full : Bool) (u v w' : List ℕ)
    → t ≡ true
    → (if t then (if full then none else some u) else some v) ≡ some w'
    → w' ≡ u
choice_true true true u v w' h e = absurd (none≢some w' e)
choice_true true false u v w' h e = sym (some_inj e)
choice_true false full u v w' h e = absurd (true≢false (sym h))

pub choice_false :
    (t full : Bool) (u v w' : List ℕ)
    → t ≡ false
    → (if t then (if full then none else some u) else some v) ≡ some w'
    → w' ≡ v
choice_false true full u v w' h e = absurd (true≢false h)
choice_false false full u v w' h e = sym (some_inj e)

pub push_name-proper :
    (c v : List ℕ) → 0 < length c → no_slash c ≡ true → 0 < length v → proper (push_all c v) ≡ true
push_name-proper [] v hc hs hv = absurd (omega arith)
push_name-proper (x ∷ []) v hc hs hv = ground arith
push_name-proper (x ∷ y ∷ c) v hc hs hv =
    let (hx, hs') = no_slash-cons x (y ∷ c) hs in
    push_name-proper (y ∷ c) (x ∷ v) (omega arith) hs' (omega arith)

proper-Chain : (base v : List ℕ) → proper base ≡ true → Chain base v → proper v ≡ true
proper-Chain base _ hp at_base = hp
proper-Chain base _ hp (one_more c v n h) =
    push_name-proper c (slash ∷ v) n.nonempty n.slashless (omega arith)

add_separator-proper :
    (size : ℕ) (v w' : List ℕ) → proper v ≡ true → add_separator size v ≡ some w' → w' ≡ slash ∷ v
unfolding add_separator
add_separator-proper size [] w' hp e = absurd (true≢false (sym hp))
add_separator-proper size (x ∷ v) w' hp e = choice_true _ _ _ _ w' hp e

add_separator-Under :
    (base : List ℕ) (size : ℕ) (w w' : List ℕ)
    → proper base ≡ true
    → Under base w
    → add_separator size w ≡ some w'
    → (v : List ℕ) × ((w' ≡ slash ∷ v) × Chain base v)
unfolding add_separator
add_separator-Under base size _ w' hp (at_name v h) e =
    (v, (add_separator-proper size v w' (proper-Chain base v hp h) e, h))
add_separator-Under base size _ w' hp (past_slash v h) e =
    (v, (choice_false _ _ _ _ w' (and_false _) e, h))

copied-Under :
    (base comp v w' u : List ℕ) (full : Bool)
    → IsName comp
    → v ≡ slash ∷ u
    → Chain base u
    → (if full then none else some (push_all comp v)) ≡ some w'
    → Under base w'
copied-Under base comp v w' u true n ev h e = absurd (none≢some w' e)
copied-Under base comp v w' u false n ev h e =
    let same : push_all comp (slash ∷ u) ≡ w' = ap (push_all comp) (sym ev) ∙ some_inj e in
    subst (Under base) same (at_name (push_all comp (slash ∷ u)) (one_more comp u n h))

-- A component that is copied is a name.
copied-IsName :
    (comp : List ℕ)
    → 0 < length comp
    → no_slash comp ≡ true
    → is_dot comp ≡ false
    → is_dotdot comp ≡ false
    → IsName comp
copied-IsName comp hl hs d dd = record {
  nonempty = hl;
  slashless = hs;
  not_dot = λ e. true≢false (sym (ap is_dot e) ∙ d);
  not_dotdot = λ e. true≢false (sym (ap is_dotdot e) ∙ dd);
}

put_component-Under :
    (base : List ℕ) (size : ℕ) (comp w w' : List ℕ)
    → proper base ≡ true
    → 0 < length comp
    → no_slash comp ≡ true
    → Under base w
    → put_component size (length base) comp w ≡ some w'
    → Under base w'
unfolding put_component
put_component-Under base size comp w w' hp hl hs u e = elim (Bool-cases (is_dot comp)) [
  | inl d ↦ subst (Under base) (some_inj (rw d at e)) u
  | inr d ↦ elim (Bool-cases (is_dotdot comp)) [
    | inl dd ↦ subst (Under base) (some_inj (rw (d, dd) at e)) (go_up-Under base w u)
    | inr dd ↦ elim (Option-cases (add_separator size w)) [
      | inl none_e ↦ absurd (none≢some w' (rw (d, dd, none_e) at e))
      | inr (v, ev) ↦
          let (p, (eq, h)) = add_separator-Under base size w v hp u ev in
          copied-Under base comp v w' p _ (copied-IsName comp hl hs d dd) eq h (rw (d, dd, ev) at e)
    ]
  ]
]

pub normalise-Under :
    (base : List ℕ) (fuel size : ℕ) (p w out : List ℕ)
    → proper base ≡ true
    → Under base w
    → normalise fuel size (length base) p w ≡ some (some out)
    → Under base out
unfolding normalise
normalise-Under base zero size p w out hp u e = absurd (none≢some _ e)
normalise-Under base (suc fuel) size p w out hp u e = elim (List-cases (skip_slashes p)) [
  | inl e0 ↦ subst (Under base) (some_inj (some_inj (rw (normalise, e0) at e))) u
  | inr (x, (q, eq)) ↦
      elim (Option-cases (put_component size (length base) (component (x ∷ q)).0 w)) [
        | inl en ↦ absurd (none≢some out (some_inj (rw (normalise, eq, en) at e)))
        | inr (w', ew) ↦
            normalise-Under base fuel size (component (x ∷ q)).1 w' out hp
              (put_component-Under base size (component (x ∷ q)).0 w w' hp
                (component-progress p x q eq) (component-slashless (x ∷ q)) u ew)
              (rw (normalise, eq, ew) at e)
      ]
]
