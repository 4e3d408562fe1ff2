-- ===== src/Fs/Vfs/Cwd/Jailed.antt =====
-- fs_chdir and fs_getcwd of fs/vfs.c for a task with a root of its own.
use scepter.Fs.Vfs.Path.Chroot.{resolve_path-Below, starts_with-append, path_long}
use scepter.Fs.Vfs.Path.Buffer.{resolve_path-Fits}
use scepter.Fs.Errno.{Ret}
use scepter.Fs.Vfs.Path.Climb.{Below, deeper, itself, Below-Extends, Extends}
use scepter.Fs.Vfs.Mounts.{MountPoint, resolve_mount}
use scepter.Fs.Vfs.Path.{resolve_path, slash, max_path_len, starts_with, task_root}
use scepter.Fs.Vfs.Path.Names.{AllNames, path}
use scepter.Fs.Vfs.Cwd.{
  Dirs, fs_getcwd, StatDir, fs_chdir, Check, resolve_path, MountPoint, slash, chdir_to,
  max_path_len, Ret, copy_path, chdir_resolved, passed, resolve_mount, absent, check_stat, no_dir,
  cwd_seen, starts_with, task_root,
}
use mathlib.Core.Path.{subst}
use scepter.Base.{
  ℕ, ◌≤◌, some, Option-cases, length, some_inj, none, inr, refl, inl, [], arith, ◌∷◌, ap, sym,
  none≢some, ◌⊎◌, zero, ◌++◌, Option, List, ◌∙◌, suc, ◌<◌, take, ◌≡◌, ◌==◌, drop-length-append,
  true, if◌then◌else◌, append-nil, false, Bool, ltb, drop-length, ap₂,
}

-- The root is a path of names other than `/`, and the working directory is the root, or the root
-- with names behind it and perhaps a slash at the end.
pub record IsJailed (d : Dirs) : Type 0 where
  pub first : List ℕ
  pub others : List (List ℕ)
  pub names : AllNames (first ∷ others)
  pub root_path : d.root ≡ path (first ∷ others)
  pub below : Below (path (first ∷ others)) d.cwd

take_all : (n : ℕ) (xs : List ℕ) → length xs ≤ n → take n xs ≡ xs
take_all zero [] h = refl
take_all zero (x ∷ xs) h = absurd (omega arith)
take_all (suc n) [] h = refl
take_all (suc n) (x ∷ xs) h = ap (◌∷◌ x) (take_all n xs (omega arith))

resolved_short :
    (root cwd input out : List ℕ)
    → resolve_path (slash ∷ root) (slash ∷ cwd) input max_path_len ≡ some (some out)
    → length out < max_path_len
resolved_short root cwd input out e = elim (resolve_path-Fits root cwd input) [
  | inl (_, e') ↦ absurd (none≢some out (some_inj (sym e' ∙ e)))
  | inr (fine, (out', (e', h))) ↦
      subst (λ o. length o < max_path_len) (some_inj (some_inj (sym e' ∙ e))) h
]

resolved_copy :
    (c : List ℕ) (cs : List (List ℕ)) (cwd input out : List ℕ)
    → Extends (path (c ∷ cs)) cwd
    → resolve_path (path (c ∷ cs)) cwd input max_path_len ≡ some (some out)
    → copy_path out ≡ out
resolved_copy c cs _ input out itself e =
    let h = resolved_short (c ++ path cs) (c ++ path cs) input out e in
    take_all 255 out (omega arith)
resolved_copy c cs _ input out (deeper xs) e =
    let h = resolved_short (c ++ path cs) ((c ++ path cs) ++ (slash ∷ xs)) input out e in
    take_all 255 out (omega arith)

chdir_to-cwd :
    (d : Dirs) (abs_path : List ℕ) (check : Check)
    → ((chdir_to d abs_path check).1 ≡ d)
      ⊎ ((chdir_to d abs_path check).1 ≡ record d { cwd = copy_path abs_path })
chdir_to-cwd d abs_path passed = inr refl
chdir_to-cwd d abs_path absent = inl refl
chdir_to-cwd d abs_path no_dir = inl refl

-- A call that ends without a fault leaves the directories or moves to the resolved path.
chdir_resolved-cwd :
    (stat : StatDir) (ms : List MountPoint) (d : Dirs) (o : Option (List ℕ)) (r : Ret × Dirs)
    → chdir_resolved stat ms d o ≡ some r
    → (r.1 ≡ d) ⊎ ((out : List ℕ) × ((o ≡ some out) × (r.1 ≡ record d { cwd = copy_path out })))
chdir_resolved-cwd stat ms d none r e = inl (ap (λ q. q.1) (sym (some_inj e)))
chdir_resolved-cwd stat ms d (some out) r e = elim (Option-cases (resolve_mount ms out)) [
  | inl en ↦ absurd (none≢some r (rw (chdir_resolved, en) at e))
  | inr (at, ea) ↦
      let same : (chdir_to d out (check_stat (stat at.0 at.1))) ≡ r =
        some_inj (rw (chdir_resolved, ea) at e) in
      elim (chdir_to-cwd d out (check_stat (stat at.0 at.1))) [
        | inl stays ↦ inl (ap (λ q. q.1) (sym same) ∙ stays)
        | inr moves ↦ inr (out, (refl, ap (λ q. q.1) (sym same) ∙ moves))
      ]
]

-- The directory that a resolved path moves to lies in the root.
resolved-IsJailed :
    (d : Dirs) (input out : List ℕ)
    → IsJailed d
    → resolve_path d.root d.cwd input max_path_len ≡ some (some out)
    → IsJailed (record d { cwd = copy_path out })
resolved-IsJailed d input out j e =
    let resolved : resolve_path (path (j.first ∷ j.others)) d.cwd input max_path_len
        ≡ some (some out) =
      subst (λ root. resolve_path root d.cwd input max_path_len ≡ some (some out)) j.root_path e in
    record {
      first = j.first;
      others = j.others;
      names = j.names;
      root_path = j.root_path;
      below =
          subst (Below (path (j.first ∷ j.others)))
            (sym (
              resolved_copy j.first j.others d.cwd input out
                (Below-Extends (path (j.first ∷ j.others)) d.cwd j.below) resolved))
            (resolve_path-Below j.first j.others d.cwd input max_path_len out j.names j.below
              resolved);
    }

-- A task in a chroot stays in it: whatever path fs_chdir is given, whatever is mounted and
-- whatever the drivers answer, a call that ends without a fault leaves the root as it is and the
-- working directory the root, or the root with names behind it, none of them `.` or `..`, and
-- perhaps a slash at the end.
pub fs_chdir-IsJailed :
    (stat : StatDir) (ms : List MountPoint) (d : Dirs) (input : List ℕ) (r : Ret × Dirs)
    → IsJailed d
    → fs_chdir stat ms d input ≡ some (some r)
    → (r.1.root ≡ d.root) × IsJailed r.1
unfolding fs_chdir
fs_chdir-IsJailed stat ms d input r j e =
    elim (Option-cases (resolve_path d.root d.cwd input max_path_len)) [
      | inl en ↦ absurd (none≢some _ (rw (fs_chdir, en) at e))
      | inr (o, eo) ↦ elim (chdir_resolved-cwd stat ms d o r (some_inj (rw (fs_chdir, eo) at e))) [
        | inl stays ↦ subst (λ d'. (d'.root ≡ d.root) × IsJailed d') (sym stays) (refl, j)
        | inr (out, (ho, moves)) ↦
            subst (λ d'. (d'.root ≡ d.root) × IsJailed d') (sym moves)
              (refl, resolved-IsJailed d input out j (eo ∙ ap some ho))
      ]
    ]

-- The working directory as seen from a root that it lies in.
cwd_seen-Extends :
    (root cwd : List ℕ)
    → ltb 1 (length root) ≡ true
    → Extends root cwd
    → ((cwd ≡ root) × (cwd_seen root cwd ≡ slash ∷ [])) ⊎ (cwd ≡ root ++ cwd_seen root cwd)
cwd_seen-Extends root _ h itself =
    let whole : starts_with root root ≡ true =
      ap (starts_with root) (sym (append-nil root)) ∙ starts_with-append root [] in
    inl (refl, rw (h, whole, drop-length root) refl)
cwd_seen-Extends root _ h (deeper xs) =
    inr (rw (h, starts_with-append root (slash ∷ xs), drop-length-append root (slash ∷ xs)) refl)

written :
    (empty small : Bool) (u seen : List ℕ)
    → (if empty then none else if small then none else some u) ≡ some seen
    → u ≡ seen
written true small u seen e = absurd (none≢some seen e)
written false true u seen e = absurd (none≢some seen e)
written false false u seen e = some_inj e

-- A task in a chroot sees its working directory from its root: what fs_getcwd writes is `/` in
-- the root itself, and else the rest of the path behind the root.
fs_getcwd-IsJailed :
    (d : Dirs) (size : ℕ) (seen : List ℕ)
    → IsJailed d
    → fs_getcwd d size ≡ some seen
    → ((d.cwd ≡ d.root) × (seen ≡ slash ∷ [])) ⊎ (d.cwd ≡ d.root ++ seen)
unfolding fs_getcwd
fs_getcwd-IsJailed d size seen j e =
    let root = path (j.first ∷ j.others) in
    let same : cwd_seen root d.cwd ≡ seen =
      ap (λ p. cwd_seen (task_root p) d.cwd) (sym j.root_path)
      ∙ written (size == 0) _ (cwd_seen (task_root d.root) d.cwd) seen e in
    elim (cwd_seen-Extends root d.cwd (path_long j.first j.others j.names)
      (Below-Extends root d.cwd j.below)) [
        | inl (at_root, eq) ↦ inl (at_root ∙ sym j.root_path, sym same ∙ eq)
        | inr eq ↦ inr (eq ∙ ap₂ ◌++◌ (sym j.root_path) same)
      ]
