-- ===== src/Fs/Vfs/Mounts.antt =====
-- fs/vfs.c: the table of file systems and the mount table. The driver's own mount and unmount
-- operations are parameters.

pub mod Table
pub mod Calls
pub mod Longest
use scepter.Fs.Errno.{Ret, fail, minus_one, count}
use scepter.Fs.Vfs.Path.{slash}
use scepter.Base.Int.{ℤ}
use scepter.Base.{
  ℕ, Option, none, not, if◌then◌else◌, set, Bool, List, ◌&&◌, false, suc, ◌∷◌, [], length, ◌==◌,
  ltb, option_map, true, some, drop,
}

-- `mount_point_t`; `fs_private` is the address that the driver gave.
pub record MountPoint : Type 0 where
  pub mount_path : List ℕ
  pub fs_id : ℕ
  pub device_id : ℤ
  pub partition_id : ℤ
  pub fs_private : ℕ
  pub in_use : Bool

-- `fs_driver_t` without its operations.
pub record FsDriver : Type 0 where
  pub fs_name : List ℕ
  pub flags : ℕ
  pub in_use : Bool

-- `mount_table` and `fs_drivers`.
pub record Vfs : Type 0 where
  pub mount_table : List MountPoint
  pub fs_drivers : List FsDriver

-- `strcmp(a, b) == 0`.
abbrev pub same_string : List ℕ → List ℕ → Bool
same_string [] [] = true
same_string [] (y ∷ ys) = false
same_string (x ∷ xs) [] = false
same_string (x ∷ xs) (y ∷ ys) = (x == y) && same_string xs ys

-- `strncmp(xs, prefix, strlen(prefix)) == 0`, with what stands behind the prefix.
abbrev pub behind : (prefix xs : List ℕ) → Option (List ℕ)
behind [] xs = some xs
behind (y ∷ ys) [] = none
behind (y ∷ ys) (x ∷ xs) = if y == x then behind ys xs else none

abbrev pub at_boundary : List ℕ → Bool
at_boundary [] = true
at_boundary (x ∷ xs) = x == slash

abbrev pub is_root_path : List ℕ → Bool
is_root_path (x ∷ []) = x == slash
is_root_path _ = false

-- `best` and `best_len`.
abbrev pub Best : Type 0
Best = Option MountPoint × ℕ

abbrev pub longer : MountPoint → Best → Best
longer m best = if ltb best.1 (length m.mount_path) then (some m, length m.mount_path) else best

abbrev pub past_prefix : MountPoint → Best → Option (List ℕ) → Best
past_prefix m best none = best
past_prefix m best (some rest) = if at_boundary rest then longer m best else best

abbrev pub consider : (abs_path : List ℕ) → MountPoint → Best → Best
consider abs_path m best =
    if not m.in_use
    then best
    else if is_root_path m.mount_path
    then longer m best
    else past_prefix m best (behind m.mount_path abs_path)

-- The loop of `find_mount_point`.
unfoldable pub search_mounts : (abs_path : List ℕ) → List MountPoint → Best → Best
search_mounts abs_path [] best = best
search_mounts abs_path (m ∷ ms) best = search_mounts abs_path ms (consider abs_path m best)

-- `find_mount_point`, with `*match_len`.
unfoldable pub find_mount_point : List MountPoint → (abs_path : List ℕ) → Best
find_mount_point ms abs_path = search_mounts abs_path ms (none, 0)

abbrev pub relative_to : (match_len : ℕ) → (abs_path : List ℕ) → List ℕ
relative_to match_len abs_path = elim (drop match_len abs_path) [
  | [] ↦ slash ∷ []
  | x ∷ xs ↦ x ∷ xs
]

-- `resolve_mount`: the mount point and the path in it.
unfoldable pub resolve_mount : List MountPoint → (abs_path : List ℕ) → Option (MountPoint × List ℕ)
resolve_mount ms abs_path =
    let best = find_mount_point ms abs_path in
    option_map (λ m. (m, relative_to best.1 abs_path)) best.0

-- `find_fs_driver`; `none` is -1.
unfoldable pub find_fs_driver : List FsDriver → (fs_name : List ℕ) → Option ℕ
find_fs_driver [] fs_name = none
find_fs_driver (d ∷ ds) fs_name =
    let rest = find_fs_driver ds fs_name in
    if d.in_use && same_string d.fs_name fs_name then some 0 else option_map suc rest

unfoldable pub fs_is_mounted : List MountPoint → List ℕ → Bool
fs_is_mounted [] path = false
fs_is_mounted (m ∷ ms) path =
    if m.in_use && same_string m.mount_path path then true else fs_is_mounted ms path

unfoldable pub free_slot : List MountPoint → Option ℕ
free_slot [] = none
free_slot (m ∷ ms) = let rest = free_slot ms in if not m.in_use then some 0 else option_map suc rest

-- The new entry, once the driver has answered: `none` where it has no mount operation,
-- `some none` where that fails.
abbrev pub driver_private : Option (Option ℕ) → Option ℕ
driver_private none = some 0
driver_private (some answer) = answer

-- The writes to `mount_table[slot]`.
abbrev pub write_slot : (slot : ℕ) → MountPoint → Vfs → Vfs
write_slot slot m v = record v { mount_table = set v.mount_table slot m }

-- `fs_mount` with strings that are not NULL; `answer` is what the driver answers.
unfoldable pub fs_mount :
    (answer : ℕ → Option (Option ℕ))
    → (device_id partition_id : ℤ) → (fs_type mount_path : List ℕ) → Vfs
    → Ret × Vfs
fs_mount answer device_id partition_id fs_type mount_path v =
    if fs_is_mounted v.mount_table mount_path
    then (fail minus_one, v)
    else elim (find_fs_driver v.fs_drivers fs_type) [
      | none ↦ (fail minus_one, v)
      | some fs_id ↦ elim (free_slot v.mount_table) [
        | none ↦ (fail minus_one, v)
        | some slot ↦ elim (driver_private (answer fs_id)) [
          | none ↦ (fail minus_one, v)
          | some fs_private ↦
              let m : MountPoint = record {
                mount_path = mount_path;
                fs_id = fs_id;
                device_id = device_id;
                partition_id = partition_id;
                fs_private = fs_private;
                in_use = true;
              } in
              (count 0, write_slot slot m v)
        ]
      ]
    ]

-- The loop of `fs_unmount`; `none` where it finds nothing.
unfoldable pub release_slot : (path : List ℕ) → List MountPoint → Option (List MountPoint)
release_slot path [] = none
release_slot path (m ∷ ms) =
    let rest = release_slot path ms in
    if m.in_use && same_string m.mount_path path
    then some (record m { in_use = false; fs_private = 0 } ∷ ms)
    else option_map (◌∷◌ m) rest

unfoldable pub fs_unmount : (path : List ℕ) → Vfs → Ret × Vfs
fs_unmount path v = elim (release_slot path v.mount_table) [
  | none ↦ (fail minus_one, v)
  | some ms ↦ (count 0, record v { mount_table = ms })
]

-- `register_filesystem` with pointers that are not NULL: the slot, or `none` for -1.
unfoldable pub register_filesystem : (fs_name : List ℕ) → List FsDriver → Option (ℕ × List FsDriver)
register_filesystem fs_name [] = none
register_filesystem fs_name (d ∷ ds) =
    let rest = register_filesystem fs_name ds in
    if not d.in_use
    then some (0, record { fs_name = fs_name; flags = 0; in_use = true } ∷ ds)
    else option_map (λ (i, es). (suc i, d ∷ es)) rest
