-- ===== src/Fs/Vfs/Path/Root.antt =====
-- How resolve_path of fs/vfs.c passes the names of the root, with which every path starts.
use scepter.Fs.Vfs.Path.Jail.{choice_false, proper, choice_true, push_name-proper}
use scepter.Fs.Vfs.Path.Names.{
  IsName, AllNames, Ends, path, more_names, at_slash, skip_slashes-name, append-push_all,
  component-name, is_dot_lem, is_dotdot_lem,
}
use scepter.Fs.Vfs.Path.{put_component, add_separator, slash, push_all, normalise}
use mathlib.Core.Path.{subst}
use scepter.Base.{
  ℕ, append_assoc, none≢some, length, false, inl, ◌∙◌, Bool, some_inj, [], ◌≡◌, append-nil,
  true≢false, arith, ap, some, ◌<◌, if◌then◌else◌, true, sym, inr, ◌∷◌, Option-cases, suc, ◌++◌,
  none, List, zero, leb, ◌-◌, ◌&&◌, refl, ltb,
}

-- What stands before a name is put down, and what the name is put behind.
pub data Ready : List ℕ → List ℕ → Type 0 where
  at_root : Ready (slash ∷ []) (slash ∷ [])
  after_name : (w : List ℕ) → proper w ≡ true → Ready w (slash ∷ w)

add_separator-Ready :
    (size : ℕ) (w v w' : List ℕ) → Ready w v → add_separator size w ≡ some w' → w' ≡ v
unfolding add_separator
add_separator-Ready size _ _ w' at_root e =
    choice_false (ltb 1 1 && false) (leb (size - 1) 1) (slash ∷ slash ∷ []) (slash ∷ []) w' refl e
add_separator-Ready size _ _ w' (after_name [] h) e = absurd (true≢false (sym h))
add_separator-Ready size _ _ w' (after_name (x ∷ w) h) e = choice_true _ _ _ _ w' h e

pub path-proper :
    (c : List ℕ) (cs : List (List ℕ)) (v : List ℕ)
    → AllNames (c ∷ cs)
    → 0 < length v
    → proper (push_all (c ++ path cs) v) ≡ true
path-proper c [] v (more_names n ns) hv =
    ap (λ xs. proper (push_all xs v)) (append-nil c)
    ∙ push_name-proper c v n.nonempty n.slashless hv
path-proper c (d ∷ ds) v (more_names n ns) hv =
    ap proper (append-push_all c (path (d ∷ ds)) v)
    ∙ path-proper d ds (slash ∷ push_all c v) ns (omega arith)

copied :
    (comp v v' w' : List ℕ) (full : Bool)
    → v' ≡ v
    → (if full then none else some (push_all comp v')) ≡ some w'
    → w' ≡ push_all comp v
copied comp v v' w' true ev e = absurd (none≢some w' e)
copied comp v v' w' false ev e = sym (some_inj e) ∙ ap (push_all comp) ev

put_component-name :
    (size boundary : ℕ) (c w v w' : List ℕ)
    → IsName c
    → Ready w v
    → put_component size boundary c w ≡ some w'
    → w' ≡ push_all c v
unfolding put_component
put_component-name size boundary c w v w' n r e = elim (Option-cases (add_separator size w)) [
  | inl en ↦
      absurd (none≢some w' (rw (is_dot_lem c n.not_dot, is_dotdot_lem c n.not_dotdot, en) at e))
  | inr (v', ev) ↦
      copied c v v' w' _ (add_separator-Ready size w v v' r ev)
        (rw (is_dot_lem c n.not_dot, is_dotdot_lem c n.not_dotdot, ev) at e)
]

normalise-name :
    (fuel size boundary : ℕ) (c rest w v out : List ℕ)
    → IsName c
    → Ends rest
    → Ready w v
    → normalise (suc fuel) size boundary (slash ∷ (c ++ rest)) w ≡ some (some out)
    → normalise fuel size boundary rest (push_all c v) ≡ some (some out)
unfolding normalise
normalise-name fuel size boundary [] rest w v out n h r e = absurd (omega (arith, n.nonempty))
normalise-name fuel size boundary (x ∷ c) rest w v out n h r e =
    let skipped = skip_slashes-name (x ∷ c) rest n in
    let taken = component-name (x ∷ c) rest n.slashless h in
    elim (Option-cases (put_component size boundary (x ∷ c) w)) [
      | inl en ↦ absurd (none≢some out (some_inj (rw (normalise, skipped, taken, en) at e)))
      | inr (w', ew) ↦
          subst (λ u. normalise fuel size boundary rest u ≡ some (some out))
            (put_component-name size boundary (x ∷ c) w v w' n r ew)
            (rw (normalise, skipped, taken, ew, taken) at e)
    ]

path-Ends : (cs : List (List ℕ)) (xs : List ℕ) → Ends xs → Ends (path cs ++ xs)
path-Ends [] xs h = h
path-Ends (c ∷ cs) xs h = at_slash

pub normalise-path :
    (c : List ℕ) (cs : List (List ℕ)) (fuel size boundary : ℕ) (xs w v out : List ℕ)
    → AllNames (c ∷ cs)
    → Ends xs
    → Ready w v
    → 0 < length v
    → normalise fuel size boundary (path (c ∷ cs) ++ xs) w ≡ some (some out)
    → (f : ℕ) × (normalise f size boundary xs (push_all (c ++ path cs) v) ≡ some (some out))
unfolding normalise
normalise-path c cs zero size boundary xs w v out ns h r hv e = absurd (none≢some _ e)
normalise-path c [] (suc fuel) size boundary xs w v out (more_names n ns) h r hv e = (
  fuel,
  rw (append-nil c) (normalise-name fuel size boundary c xs w v out n h r (rw (append-nil c) at e)),
)
normalise-path c (d ∷ ds) (suc fuel) size boundary xs w v out (more_names n ns) h r hv e =
    let (f, ih) =
      normalise-path d ds fuel size boundary xs (push_all c v) (slash ∷ push_all c v) out ns h
        (after_name (push_all c v) (push_name-proper c v n.nonempty n.slashless hv)) (omega arith)
        (normalise-name fuel size boundary c (path (d ∷ ds) ++ xs) w v out n
          (path-Ends (d ∷ ds) xs h) r (rw (append_assoc c (path (d ∷ ds)) xs) at e)) in
    (f, rw (append-push_all c (path (d ∷ ds)) v) ih)
