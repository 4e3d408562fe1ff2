-- ===== src/Fs/Vfs/Path/Chroot.antt =====
-- resolve_path of fs/vfs.c and the root of the task.
use scepter.Fs.Vfs.Path.Root.{normalise-path, at_root, path-proper}
use scepter.Fs.Vfs.Path.Climb.{
  Under, Below, itself, at_base, deeper, Chain, Below-Extends, at_name, Extends, length-Chain,
  inside, one_more, past_slash, with_slash,
}
use scepter.Fs.Vfs.Path.Jail.{normalise-Under}
use scepter.Fs.Vfs.Path.{
  push_all, starts_with, finish, slash, resolve_raw, resolve_path, no_separator, raw_path, limited,
  max_path_len, normalise, relative_path, absolute_path,
}
use scepter.Fs.Vfs.Path.Names.{
  AllNames, Ends, append-push_all, path, no_slash, more_names, length-push_all, no_slash-cons,
  at_slash, at_end, no_names, path-append, AllNames-snoc,
}
use mathlib.Core.Path.{subst}
use scepter.Base.{
  ℕ, ==_refl, ◌++◌, List, length-append, ◌<◌, true, arith, ◌∙◌, some_inj, append-nil, length, some,
  refl, sym, [], ◌∷◌, ◌≡◌, Bool-cases, option_map, inl, Option-cases, ap, if◌then◌else◌, false, suc,
  none≢some, leb, inr, Bool, Option, none, ◌==◌, lt→ltb, append_assoc, ◌⊎◌, true≢false, ltb,
}

reverse-push_all : (xs ys zs : List ℕ) → push_all (push_all xs ys) zs ≡ push_all ys (xs ++ zs)
reverse-push_all [] ys zs = refl
reverse-push_all (x ∷ xs) ys zs = reverse-push_all xs (x ∷ ys) zs

-- What is written in a chain is the root with names behind it.
Chain-path :
    (root v : List ℕ)
    → Chain (push_all root []) v
    → (cs : List (List ℕ)) × (AllNames cs × (v ≡ push_all (root ++ path cs) []))
Chain-path root _ at_base = ([], (no_names, ap (λ xs. push_all xs []) (sym (append-nil root))))
Chain-path root _ (one_more c v n h) =
    let (cs, (ns, eq)) = Chain-path root v h in
    let longer : (root ++ path cs) ++ (slash ∷ c) ≡ root ++ path (cs ++ (c ∷ [])) =
      append_assoc root (path cs) (slash ∷ c)
      ∙ ap (λ xs. root ++ (path cs ++ (slash ∷ xs))) (sym (append-nil c))
      ∙ ap (◌++◌ root) (sym (path-append cs (c ∷ []))) in
    (
      cs ++ (c ∷ []),
      (
        AllNames-snoc cs c ns n,
        ap (λ u. push_all c (slash ∷ u)) eq
            ∙ sym (append-push_all (root ++ path cs) (slash ∷ c) [])
            ∙ ap (λ xs. push_all xs []) longer,
      ),
    )

Under-Below : (root w : List ℕ) → Under (push_all root []) w → Below root (push_all w [])
Under-Below root _ (at_name v h) =
    let (cs, (ns, eq)) = Chain-path root v h in
    let back : push_all v [] ≡ root ++ path cs =
      ap (λ u. push_all u []) eq
      ∙ reverse-push_all (root ++ path cs) [] []
      ∙ append-nil (root ++ path cs) in
    subst (Below root) (sym back) (inside cs ns)
Under-Below root _ (past_slash v h) =
    let (cs, (ns, eq)) = Chain-path root v h in
    let back : push_all v (slash ∷ []) ≡ root ++ (path cs ++ (slash ∷ [])) =
      ap (λ u. push_all u (slash ∷ [])) eq
      ∙ reverse-push_all (root ++ path cs) [] (slash ∷ [])
      ∙ append_assoc root (path cs) (slash ∷ []) in
    subst (Below root) (sym back) (with_slash cs ns)

pub starts_with-append : (xs ys : List ℕ) → starts_with xs (xs ++ ys) ≡ true
starts_with-append [] ys = refl
starts_with-append (x ∷ xs) ys = rw (==_refl x, starts_with-append xs ys)

finish-Below :
    (root w out : List ℕ) (size : ℕ)
    → 0 < length w
    → Under (push_all root []) w
    → finish size w ≡ some out
    → Below root out
finish-Below root [] out size h u e = absurd (omega arith)
finish-Below root (x ∷ w) out size h u e =
    subst (Below root) (some_inj e) (Under-Below root (x ∷ w) u)

length-Under : (base w : List ℕ) → 0 < length base → Under base w → 0 < length w
length-Under base _ h (at_name v c) = omega (arith, length-Chain base v c)
length-Under base _ h (past_slash v c) = omega arith

-- A resolution that succeeds went through the loop and the final step.
opened :
    (small : Bool) (size : ℕ) (r : Option (Option (List ℕ))) (out : List ℕ)
    → (if small
        then some none
        else option_map (λ o. elim o [ none ↦ none | some w ↦ finish size w ]) r)
      ≡ some (some out)
    → (w : List ℕ) × ((r ≡ some (some w)) × (finish size w ≡ some out))
opened true size r out e = absurd (none≢some out (some_inj e))
opened false size none out e = absurd (none≢some _ e)
opened false size (some none) out e = absurd (none≢some out (some_inj e))
opened false size (some (some w)) out e = (w, (refl, some_inj e))

root_boundary :
    (root xs : List ℕ)
    → (if starts_with root (root ++ xs) then length root else 1) ≡ length (push_all root [])
root_boundary root xs = rw (starts_with-append root xs) (omega (arith, length-push_all root []))

-- A path that starts with the root resolves to one below the root.
resolve_raw-Below :
    (c : List ℕ) (cs : List (List ℕ)) (size : ℕ) (xs out : List ℕ)
    → AllNames (c ∷ cs)
    → Ends xs
    → resolve_raw (path (c ∷ cs)) size (path (c ∷ cs) ++ xs) ≡ some (some out)
    → Below (path (c ∷ cs)) out
resolve_raw-Below c cs size xs out ns h e =
    let root = path (c ∷ cs) in
    let base = push_all root [] in
    let (w, (er, ef)) = opened (leb size 1) size _ out e in
    let (f, el) =
      normalise-path c cs (suc (length (root ++ xs))) size
        (if starts_with root (root ++ xs) then length root else 1) xs (slash ∷ []) (slash ∷ []) w ns
        h at_root (omega arith) er in
    let inside =
      normalise-Under base f size xs base w (path-proper c cs (slash ∷ []) ns (omega arith))
        (at_name base at_base)
        (subst (λ b. normalise f size b xs base ≡ some (some w)) (root_boundary root xs) el) in
    finish-Below root w out size
      (length-Under base w (omega (arith, length-push_all root [])) inside) inside ef

no_separator-append :
    (xs : List ℕ) (y : ℕ) (ys : List ℕ) → no_separator (xs ++ (y ∷ ys)) ≡ no_separator (y ∷ ys)
no_separator-append [] y ys = refl
no_separator-append (x ∷ []) y ys = refl
no_separator-append (x ∷ z ∷ xs) y ys = no_separator-append (z ∷ xs) y ys

no_separator-name : (x : ℕ) (c : List ℕ) → no_slash (x ∷ c) ≡ true → no_separator (x ∷ c) ≡ false
no_separator-name x [] h = (no_slash-cons x [] h).0
no_separator-name x (y ∷ c) h = no_separator-name y c (no_slash-cons x (y ∷ c) h).1

no_separator-path :
    (c : List ℕ) (cs : List (List ℕ)) → AllNames (c ∷ cs) → no_separator (path (c ∷ cs)) ≡ false
no_separator-path [] cs (more_names n ns) = absurd (omega (arith, n.nonempty))
no_separator-path (x ∷ c) [] (more_names n ns) =
    ap (λ ys. no_separator (slash ∷ x ∷ ys)) (append-nil c) ∙ no_separator-name x c n.slashless
no_separator-path (x ∷ c) (d ∷ ds) (more_names n ns) =
    no_separator-append (slash ∷ x ∷ c) slash (d ++ path ds) ∙ no_separator-path d ds ns

pub limited-some : (xs tmp : List ℕ) → limited xs ≡ some tmp → xs ≡ tmp
limited-some xs tmp e = elim (Bool-cases (leb max_path_len (length xs))) [
  | inl t ↦ absurd (none≢some tmp (rw t at e))
  | inr t ↦ some_inj (rw t at e)
]

pub joined :
    (long bare : Bool) (u v tmp : List ℕ)
    → (if long then none else if bare then some u else some v) ≡ some tmp
    → ((bare ≡ true) × (u ≡ tmp)) ⊎ ((bare ≡ false) × (v ≡ tmp))
joined true bare u v tmp e = absurd (none≢some tmp e)
joined false true u v tmp e = inl (refl, some_inj e)
joined false false u v tmp e = inr (refl, some_inj e)

-- The raw path starts with the root.
relative_path-root :
    (root cwd input tmp : List ℕ)
    → no_separator root ≡ false
    → Extends root cwd
    → relative_path cwd input ≡ some tmp
    → (xs : List ℕ) × (Ends xs × (root ++ xs ≡ tmp))
relative_path-root root _ input tmp ns itself e =
    elim (joined _ (no_separator root) (root ++ input) (root ++ (slash ∷ input)) tmp e) [
      | inl (bare, same) ↦ absurd (true≢false (sym bare ∙ ns))
      | inr (bare, same) ↦ (slash ∷ input, (at_slash, same))
    ]
relative_path-root root _ input tmp ns (deeper ys) e =
    elim (joined _ (no_separator (root ++ (slash ∷ ys))) ((root ++ (slash ∷ ys)) ++ input)
      ((root ++ (slash ∷ ys)) ++ (slash ∷ input)) tmp e) [
        | inl (bare, same) ↦
            (slash ∷ (ys ++ input), (at_slash, sym (append_assoc root (slash ∷ ys) input) ∙ same))
        | inr (bare, same) ↦ (
          slash ∷ (ys ++ (slash ∷ input)),
          (at_slash, sym (append_assoc root (slash ∷ ys) (slash ∷ input)) ∙ same),
        )
      ]

absolute_path-root :
    (root input tmp : List ℕ)
    → ltb 1 (length root) ≡ true
    → absolute_path root input ≡ some tmp
    → (xs : List ℕ) × (Ends xs × (root ++ xs ≡ tmp))
absolute_path-root root [] tmp h e =
    ([], (at_end, append-nil root ∙ limited-some root tmp (rw h at e)))
absolute_path-root root (x ∷ xs) tmp h e =
    (slash ∷ x ∷ xs, (at_slash, limited-some (root ++ (slash ∷ x ∷ xs)) tmp (rw h at e)))

pub path_long :
    (c : List ℕ) (cs : List (List ℕ)) → AllNames (c ∷ cs) → ltb 1 (length (path (c ∷ cs))) ≡ true
path_long c cs (more_names n ns) =
    lt→ltb 1 (length (path (c ∷ cs))) (omega (arith, n.nonempty, length-append c (path cs)))

raw_path-root :
    (c : List ℕ) (cs : List (List ℕ)) (cwd input tmp : List ℕ)
    → AllNames (c ∷ cs)
    → Extends (path (c ∷ cs)) cwd
    → raw_path (path (c ∷ cs)) cwd input ≡ some tmp
    → (xs : List ℕ) × (Ends xs × (path (c ∷ cs) ++ xs ≡ tmp))
unfolding raw_path
raw_path-root c cs cwd [] tmp ns b e =
    relative_path-root (path (c ∷ cs)) cwd [] tmp (no_separator-path c cs ns) b e
raw_path-root c cs cwd (x ∷ input) tmp ns b e = elim (Bool-cases (x == slash)) [
  | inl t ↦ absolute_path-root (path (c ∷ cs)) input tmp (path_long c cs ns) (rw (raw_path, t) at e)
  | inr t ↦
      relative_path-root (path (c ∷ cs)) cwd (x ∷ input) tmp (no_separator-path c cs ns) b
        (rw (raw_path, t) at e)
]

-- The chroot holds: while the directory of a task is its root, or the root with names behind it and
-- perhaps a slash at the end, every path that resolves, absolute or relative, with whatever `.`
-- and `..` in it, resolves to such a path too. The root is a path of names and not `/` itself; a
-- name is not empty, has no slash, and is neither `.` nor `..`.
pub resolve_path-Below :
    (c : List ℕ) (cs : List (List ℕ)) (cwd input : List ℕ) (size : ℕ) (out : List ℕ)
    → AllNames (c ∷ cs)
    → Below (path (c ∷ cs)) cwd
    → resolve_path (path (c ∷ cs)) cwd input size ≡ some (some out)
    → Below (path (c ∷ cs)) out
unfolding resolve_path
resolve_path-Below c cs cwd input size out ns b e =
    elim (Option-cases (raw_path (path (c ∷ cs)) cwd input)) [
      | inl en ↦ absurd (none≢some out (some_inj (rw (resolve_path, en) at e)))
      | inr (tmp, et) ↦
          let (xs, (h, same)) =
            raw_path-root c cs cwd input tmp ns (Below-Extends (path (c ∷ cs)) cwd b) et in
          resolve_raw-Below c cs size xs out ns h (rw (resolve_path, et, sym same) at e)
    ]
