-- ===== src/Tests/Vfs.antt =====
-- fs/vfs.c at concrete inputs: a jail, a mount table and the paths in them.
use scepter.Fs.Vfs.Files.Lowest.{all_used, fs_dup_min-Lowest}
use scepter.Fs.Vfs.Files.Counts.{refs, Holds}
use scepter.Fs.Vfs.Files.Dup.{after_call, dup2, after_call-IsCounted}
use scepter.Fs.Vfs.Files.Balance.{IsCounted}
use scepter.Fs.Vfs.Files.{
  Files, find_fd_entry, FdEntry, count_of, fs_dup_min, has_fd, fs_close_range, is_negative,
  next_int, close_between,
}
use mathlib.Core.Path.{subst}
use scepter.Fs.Vfs.Mounts.Table.{mounts_at}
use scepter.Base.Int.{pos}
use scepter.Fs.Errno.{Ret, count}
use scepter.Fs.Vfs.Cwd.Jailed.{IsJailed, fs_chdir-IsJailed}
use scepter.Fs.Vfs.Cwd.{StatDir, Dirs, fs_chdir, fs_getcwd}
use scepter.Fs.Vfs.Mounts.{
  Vfs, find_fs_driver, MountPoint, find_mount_point, free_slot, same_string, fs_mount,
  search_mounts, fs_is_mounted, fs_unmount, resolve_mount,
}
use scepter.Fs.Vfs.Mounts.Calls.{IsUnique, CanMount, mounts-IsUnique, fs_unmount-fs_mount}
use scepter.Fs.Vfs.Path.Chroot.{resolve_path-Below}
use scepter.Fs.Vfs.Path.{
  resolve_path, slash, dot, raw_path, normalise, put_component, add_separator, go_up, strip,
  relative_path,
}
use scepter.Fs.Vfs.Path.Names.{AllNames, more_names, path, no_names}
use scepter.Fs.Vfs.Path.Climb.{Below, inside}
use scepter.Base.{
  ℕ, refl, ◌≡◌, ◌∷◌, arith, ◌++◌, [], List, some, none, Option, false, true, ◌≤◌, Bool, one_if,
  ◌==◌, Bool-cases, ◌+◌, inr, inl, replicate,
}

-- `j`, `d` and the path `/j`.
abbrev jail : List ℕ
jail = 106 ∷ []

abbrev etc : List ℕ
etc = 101 ∷ 116 ∷ 99 ∷ []

abbrev jail_root : List ℕ
jail_root = path (jail ∷ [])

jail-AllNames : AllNames (jail ∷ [])
jail-AllNames =
    more_names
      (record {
        nonempty = omega arith;
        slashless = refl;
        not_dot = λ e. absurd (cc);
        not_dotdot = λ e. absurd (cc);
      })
      no_names

etc-AllNames : AllNames (etc ∷ [])
etc-AllNames =
    more_names
      (record {
        nonempty = omega arith;
        slashless = refl;
        not_dot = λ e. absurd (cc);
        not_dotdot = λ e. absurd (cc);
      })
      no_names

-- `/../etc/..` from the directory `/j/etc` of the jail.
abbrev escape : List ℕ
escape = slash ∷ dot ∷ dot ∷ slash ∷ 101 ∷ 116 ∷ 99 ∷ slash ∷ dot ∷ dot ∷ []

abbrev jail_cwd : List ℕ
jail_cwd = jail_root ++ (slash ∷ etc)

-- The path that `..` leaves behind ends with a slash.
escaped : resolve_path jail_root jail_cwd escape 256 ≡ some (some (slash ∷ 106 ∷ slash ∷ []))
unfolding resolve_path raw_path normalise put_component add_separator go_up strip
escaped = refl

resolve_path-Below_example : Below jail_root (slash ∷ 106 ∷ slash ∷ [])
resolve_path-Below_example =
    resolve_path-Below jail [] jail_cwd escape 256 (slash ∷ 106 ∷ slash ∷ []) jail-AllNames
      (inside (etc ∷ []) etc-AllNames) escaped

abbrev root_mount : MountPoint
root_mount = record {
  mount_path = slash ∷ [];
  fs_id = 0;
  device_id = pos 0;
  partition_id = pos 0;
  fs_private = 7;
  in_use = true;
}

abbrev unused : MountPoint
unused = record root_mount { in_use = false }

abbrev jail_mount : MountPoint
jail_mount = record root_mount { mount_path = jail_root }

abbrev minix : List ℕ
minix = 109 ∷ 51 ∷ []

abbrev booted : Vfs
booted = record {
  mount_table = root_mount ∷ unused ∷ [];
  fs_drivers = record { fs_name = minix; flags = 0; in_use = true } ∷ [];
}

abbrev accepts : ℕ → Option (Option ℕ)
accepts _ = some (some 9)

abbrev table : List MountPoint
table = root_mount ∷ jail_mount ∷ []

find_mount_point_run : find_mount_point table jail_cwd ≡ (some jail_mount, 2)
unfolding find_mount_point search_mounts
find_mount_point_run = refl

booted-CanMount : CanMount accepts minix jail_root booted 0 1 9
unfolding find_fs_driver free_slot
booted-CanMount = record { unmounted = refl; known = refl; free = refl; accepted = refl }

fs_unmount-fs_mount_example :
    (v' : Vfs) × ((w : Vfs) × ((fs_mount accepts (pos 0) (pos 1) minix jail_root booted
          ≡ (count 0, v'))
        × ((fs_is_mounted v'.mount_table jail_root ≡ true)
            × ((fs_unmount jail_root v' ≡ (count 0, w))
                × ((q : List ℕ) → mounts_at q w.mount_table ≡ mounts_at q booted.mount_table)))))
fs_unmount-fs_mount_example =
    fs_unmount-fs_mount accepts (pos 0) (pos 1) minix jail_root booted 0 1 9 booted-CanMount

one_if-bound : (b : Bool) → one_if b ≤ 1
one_if-bound true = omega arith
one_if-bound false = omega arith

booted-IsUnique : IsUnique booted
booted-IsUnique q = omega (arith, one_if-bound (same_string (slash ∷ []) q))

mounts-IsUnique_example :
    IsUnique (fs_mount accepts (pos 0) (pos 1) minix jail_root booted).1
    × IsUnique (fs_unmount jail_root booted).1
mounts-IsUnique_example =
    mounts-IsUnique accepts (pos 0) (pos 1) minix jail_root booted booted-IsUnique

abbrev jailed : Dirs
jailed = record { root = jail_root; cwd = jail_cwd }

jailed-IsJailed : IsJailed jailed
jailed-IsJailed = record {
  first = jail;
  others = [];
  names = jail-AllNames;
  root_path = refl;
  below = inside (etc ∷ []) etc-AllNames;
}

abbrev all_dirs : StatDir
all_dirs m rel_path = some (some true)

abbrev moved : Ret × Dirs
moved = (count 0, record { root = jail_root; cwd = slash ∷ 106 ∷ slash ∷ [] })

chdir_run : fs_chdir all_dirs table jailed escape ≡ some (some moved)
unfolding fs_chdir resolve_path raw_path normalise put_component add_separator go_up strip
    resolve_mount find_mount_point search_mounts
chdir_run = refl

fs_chdir-IsJailed_example : (jail_root ≡ jail_root) × IsJailed moved.1
fs_chdir-IsJailed_example =
    fs_chdir-IsJailed all_dirs table jailed escape moved jailed-IsJailed chdir_run

getcwd_run : fs_getcwd jailed 64 ≡ some (slash ∷ etc)
unfolding fs_getcwd
getcwd_run = refl

-- Descriptors 0, 1 and 3 of the open files at 40, 40 and 80.
abbrev fds : Files
fds = record {
  entries =
      record { fd = 0; cloexec = false; file = 40 }
      ∷ record { fd = 1; cloexec = false; file = 40 }
      ∷ record { fd = 3; cloexec = true; file = 80 }
      ∷ [];
  next_fd = 4;
  opens =
      record { address = 40; refcount = pos 3 } ∷ record { address = 80; refcount = pos 1 } ∷ [];
}

abbrev third_fd : FdEntry
third_fd = record { fd = 3; cloexec = true; file = 80 }

third_found : find_fd_entry 3 fds.entries ≡ some third_fd
unfolding find_fd_entry
third_found = refl

fs_dup_min-Lowest_example :
    (d : ℕ) × ((s' : Files) × ((fs_dup_min true 3 0 false fds ≡ some (count (0 + d), s'))
        × ((has_fd (0 + d) fds.entries ≡ false)
            × ((all_used fds.entries 0 d ≡ true)
                × (find_fd_entry (0 + d) s'.entries
                    ≡ some (record { fd = 0 + d; cloexec = false; file = 80 }))))))
fs_dup_min-Lowest_example =
    fs_dup_min-Lowest 3 0 false fds third_fd third_found (λ e. omega arith) (omega arith)

-- Another task has one more descriptor of the file at 40.
abbrev elsewhere : ℕ → ℕ
elsewhere a = one_if (40 == a)

fds-IsCounted : IsCounted elsewhere fds
unfolding count_of
fds-IsCounted a h = elim (Bool-cases (40 == a)) [
  | inl t ↦
      let same : 40 ≡ a = ground arith in
      subst (λ b. Holds b fds.opens (refs b fds.entries + elsewhere b)) same (refl, refl)
  | inr t ↦ elim (Bool-cases (80 == a)) [
    | inl u ↦ rw (t, u) (refl, refl)
    | inr u ↦ rw (t, u) (refl, refl)
  ]
]

after_call-IsCounted_example : IsCounted elsewhere (after_call (dup2 true 3 0 false) fds)
after_call-IsCounted_example =
    after_call-IsCounted elsewhere fds (dup2 true 3 0 false) fds-IsCounted

-- The number after INT_MAX is negative.
after_int_max : is_negative (next_int 0x7FFFFFFF) ≡ true
after_int_max = refl

-- close_range(3, ~0U) closes nothing.
closes_nothing : (fs_close_range 3 0xFFFFFFFF fds).0 ≡ 0
unfolding fs_close_range close_between
closes_nothing = refl

-- In `/` a name of 253 bytes is refused, although its path of 254 bytes would fit.
refused_name : relative_path (slash ∷ []) (replicate 253 101) ≡ none
refused_name = refl
