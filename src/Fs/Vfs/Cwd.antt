-- ===== src/Fs/Vfs/Cwd.antt =====
-- fs/vfs.c: the working directory and the root of a task.
pub mod Jailed
use scepter.Fs.Errno.{Ret, fail, count, minus_one, enoent, enotdir}
use scepter.Fs.Vfs.Path.{task_root, starts_with, slash, resolve_path, max_path_len}
use scepter.Fs.Vfs.Mounts.{MountPoint, resolve_mount}
use scepter.Base.{
  ℕ, ltb, false, option_map, some, ◌+◌, ◌&&◌, [], length, true, Option, none, Bool, List, ◌==◌,
  drop, ◌∷◌, if◌then◌else◌, take,
}

-- `root` and `cwd` of the current task.
pub record Dirs : Type 0 where
  pub root : List ℕ
  pub cwd : List ℕ

-- What the driver's stat answers: `none` where it has no such operation, `some none` where it
-- fails, and else whether the path is a directory.
abbrev pub StatDir : Type 0
StatDir = MountPoint → (rel_path : List ℕ) → Option (Option Bool)

-- How the check of the directory ends.
pub data Check : Type 0 where
  passed absent no_dir : Check

abbrev pub check_stat : Option (Option Bool) → Check
check_stat none = passed
check_stat (some none) = absent
check_stat (some (some true)) = passed
check_stat (some (some false)) = no_dir

-- `strncpy(…, abs, MAX_PATH_LEN - 1)` and the NUL behind it.
abbrev pub copy_path : List ℕ → List ℕ
copy_path abs_path = take 255 abs_path

abbrev pub chdir_to : Dirs → List ℕ → Check → Ret × Dirs
chdir_to d abs_path passed = (count 0, record d { cwd = copy_path abs_path })
chdir_to d abs_path absent = (fail minus_one, d)
chdir_to d abs_path no_dir = (fail minus_one, d)

-- The answer of resolve_path; the call then reads through the mount point, which is NULL where
-- nothing is mounted: `none` is that fault.
abbrev pub chdir_resolved : StatDir → List MountPoint → Dirs → Option (List ℕ) → Option (Ret × Dirs)
chdir_resolved stat ms d none = some (fail minus_one, d)
chdir_resolved stat ms d (some abs_path) = elim (resolve_mount ms abs_path) [
  | none ↦ none
  | some at ↦ some (chdir_to d abs_path (check_stat (stat at.0 at.1)))
]

-- `fs_chdir` with a path that is not NULL; the outer `none` is that of resolve_path.
unfoldable pub fs_chdir :
    StatDir → List MountPoint → Dirs → (path : List ℕ) → Option (Option (Ret × Dirs))
fs_chdir stat ms d path =
    option_map (chdir_resolved stat ms d) (resolve_path d.root d.cwd path max_path_len)

abbrev pub chroot_to : Dirs → List ℕ → Check → Ret × Dirs
chroot_to d abs_path passed = (count 0, record d { root = copy_path abs_path })
chroot_to d abs_path absent = (fail enoent, d)
chroot_to d abs_path no_dir = (fail enotdir, d)

abbrev pub chroot_resolved : StatDir → List MountPoint → Dirs → Option (List ℕ) → Ret × Dirs
chroot_resolved stat ms d none = (fail enoent, d)
chroot_resolved stat ms d (some abs_path) = elim (resolve_mount ms abs_path) [
  | none ↦ (fail enoent, d)
  | some at ↦ chroot_to d abs_path (check_stat (stat at.0 at.1))
]

-- `fs_chroot` with a path that is not NULL.
unfoldable pub fs_chroot : StatDir → List MountPoint → Dirs → (path : List ℕ) → Option (Ret × Dirs)
fs_chroot stat ms d path =
    option_map (chroot_resolved stat ms d) (resolve_path d.root d.cwd path max_path_len)

-- `cwd` as it is seen from the root.
abbrev pub cwd_seen : (root cwd : List ℕ) → List ℕ
cwd_seen root cwd =
    if ltb 1 (length root) && starts_with root cwd
    then elim (drop (length root) cwd) [ [] ↦ slash ∷ [] | x ∷ xs ↦ x ∷ xs ]
    else cwd

-- `fs_getcwd` with a buffer that is not NULL: what is written, or `none` for NULL.
unfoldable pub fs_getcwd : Dirs → (size : ℕ) → Option (List ℕ)
fs_getcwd d size =
    let seen = cwd_seen (task_root d.root) d.cwd in
    if size == 0 then none else if ltb size (length seen + 1) then none else some seen
