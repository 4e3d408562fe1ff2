-- ===== src/Fs/Vfs/Path/Climb.antt =====
-- What `..` does to the names of a path in resolve_path of fs/vfs.c.
use mathlib.Core.Path.{subst}
use scepter.Fs.Vfs.Path.Names.{
  push_all-append, length-push_all, AllNames, no_slash, IsName, no_slash-cons, path,
}
use scepter.Fs.Vfs.Path.{slash, strip, go_up, push_all}
use scepter.Base.{
  ℕ, List, length, refl, suc, ◌++◌, ◌≡◌, ◌∷◌, arith, [], ltb, true, false, ◌!=◌, Bool, ◌&&◌, sym,
  ◌∙◌, ap, ◌<◌, ◌≤◌, append-nil, lt→ltb, length-append,
}

-- The path is the root, or the root with names behind it, none of them `.` or `..`, and perhaps
-- a slash at the end.
pub data Below (root : List ℕ) : List ℕ → Type 0 where
  inside : (cs : List (List ℕ)) → AllNames cs → Below root (root ++ path cs)
  with_slash : (cs : List (List ℕ)) → AllNames cs → Below root (root ++ (path cs ++ (slash ∷ [])))

-- The string is `base`, or `base` with a slash and more behind it.
pub data Extends (base : List ℕ) : List ℕ → Type 0 where
  itself : Extends base base
  deeper : (xs : List ℕ) → Extends base (base ++ (slash ∷ xs))

pub Below-Extends : (root p : List ℕ) → Below root p → Extends root p
Below-Extends root _ (inside [] ns) = subst (Extends root) (sym (append-nil root)) itself
Below-Extends root _ (inside (c ∷ cs) ns) = deeper (c ++ path cs)
Below-Extends root _ (with_slash [] ns) = deeper []
Below-Extends root _ (with_slash (c ∷ cs) ns) = deeper ((c ++ path cs) ++ (slash ∷ []))

-- What is written, its last byte first: the base with names behind it.
pub data Chain (base : List ℕ) : List ℕ → Type 0 where
  at_base : Chain base base
  one_more : (c v : List ℕ) → IsName c → Chain base v → Chain base (push_all c (slash ∷ v))

-- The same, perhaps with a slash at the end.
pub data Under (base : List ℕ) : List ℕ → Type 0 where
  at_name : (v : List ℕ) → Chain base v → Under base v
  past_slash : (v : List ℕ) → Chain base v → Under base (slash ∷ v)

strip-base : (base : List ℕ) → strip (length base) base ≡ base
unfolding strip
strip-base [] = refl
strip-base (x ∷ w) = ground arith

go_up-base : (base : List ℕ) → go_up (length base) base ≡ base
unfolding go_up
go_up-base [] = refl
go_up-base (x ∷ w) = ground arith

no_slash-push_all :
    (c r : List ℕ) → no_slash c ≡ true → no_slash r ≡ true → no_slash (push_all c r) ≡ true
no_slash-push_all [] r hc hr = hr
no_slash-push_all (x ∷ c) r h hr =
    let (hx, hc) = no_slash-cons x c h in no_slash-push_all c (x ∷ r) hc (ground arith)

pub and_false : (t : Bool) → (t && false) ≡ false
and_false true = refl
and_false false = refl

strip-name :
    (b : ℕ) (r v : List ℕ)
    → no_slash r ≡ true
    → b ≤ length v
    → strip b (r ++ (slash ∷ v)) ≡ slash ∷ v
unfolding strip
strip-name b [] v h le = rw (and_false (ltb b (suc (length v)))) refl
strip-name b (x ∷ r) v h le =
    let (hx, hr) = no_slash-cons x r h in
    let more : ltb b (suc (length (r ++ (slash ∷ v)))) ≡ true =
      lt→ltb b _ (omega (arith, length-append r (slash ∷ v))) in
    let other : (x != slash) ≡ true = ground arith in rw (more, other) (strip-name b r v hr le)

go_up-strip : (b x : ℕ) (w : List ℕ) → b < suc (length w) → go_up b (x ∷ w) ≡ strip b w
unfolding go_up
go_up-strip b x w h = let past = lt→ltb b (suc (length w)) h in rw past refl

go_up-name :
    (b : ℕ) (r v : List ℕ)
    → no_slash r ≡ true
    → 0 < length r
    → b ≤ length v
    → go_up b (r ++ (slash ∷ v)) ≡ slash ∷ v
go_up-name b [] v h hr le = absurd (omega arith)
go_up-name b (x ∷ r) v h hr le =
    go_up-strip b x (r ++ (slash ∷ v)) (omega (arith, length-append r (slash ∷ v)))
    ∙ strip-name b r v (no_slash-cons x r h).1 le

pub length-Chain : (base v : List ℕ) → Chain base v → length base ≤ length v
length-Chain base _ at_base = omega arith
length-Chain base _ (one_more c v n h) =
    omega (arith, length-push_all c (slash ∷ v), length-Chain base v h)

module _ (base : List ℕ) where
  strip-Under : (v : List ℕ) → Chain base v → Under base (strip (length base) v)
  strip-Under _ at_base = subst (Under base) (sym (strip-base base)) (at_name base at_base)
  strip-Under _ (one_more c v n h) =
      let back : strip (length base) (push_all c (slash ∷ v)) ≡ slash ∷ v =
        ap (strip (length base)) (push_all-append c [] (slash ∷ v))
        ∙ strip-name (length base) (push_all c []) v (no_slash-push_all c [] n.slashless refl)
            (length-Chain base v h) in
      subst (Under base) (sym back) (past_slash v h)

  pub go_up-Under : (w : List ℕ) → Under base w → Under base (go_up (length base) w)
  go_up-Under _ (at_name _ at_base) =
      subst (Under base) (sym (go_up-base base)) (at_name base at_base)
  go_up-Under _ (at_name _ (one_more c v n h)) =
      let back : go_up (length base) (push_all c (slash ∷ v)) ≡ slash ∷ v =
        ap (go_up (length base)) (push_all-append c [] (slash ∷ v))
        ∙ go_up-name (length base) (push_all c []) v (no_slash-push_all c [] n.slashless refl)
            (omega (arith, length-push_all c [], n.nonempty)) (length-Chain base v h) in
      subst (Under base) (sym back) (past_slash v h)
  go_up-Under _ (past_slash v h) =
      subst (Under base)
        (sym (go_up-strip (length base) slash v (omega (arith, length-Chain base v h))))
        (strip-Under v h)
