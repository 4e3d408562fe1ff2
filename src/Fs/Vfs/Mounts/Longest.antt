-- ===== src/Fs/Vfs/Mounts/Longest.antt =====
-- find_mount_point of fs/vfs.c and the mount points that a path lies in.
use scepter.Fs.Vfs.Path.{slash}
use scepter.Fs.Vfs.Mounts.{MountPoint, behind, Best, is_root_path, slash, at_boundary}
use scepter.Base.{
  ℕ, true, List, [], ◌++◌, none, some, Bool, false, ◌∷◌, ◌≡◌, ◌||◌, ◌&&◌, ◌⊎◌, length, ◌≤◌,
}

-- A path lies in the root mount, and in a mount point that ends where a component of it ends.
pub data Covers : (mount_path abs_path : List ℕ) → Type 0 where
  root_covers : (p : List ℕ) → Covers (slash ∷ []) p
  prefix_covers : (p rest : List ℕ) → at_boundary rest ≡ true → Covers p (p ++ rest)

-- A mount point in use, whose path covers the given one.
pub record Serves (abs_path : List ℕ) (m : MountPoint) : Type 0 where
  pub used : m.in_use ≡ true
  pub covers : Covers m.mount_path abs_path

pub data Mem (m : MountPoint) : List MountPoint → Type 0 where
  here : (ms : List MountPoint) → Mem m (m ∷ ms)
  there : (f : MountPoint) (ms : List MountPoint) → Mem m ms → Mem m (f ∷ ms)

-- Whether the loop takes the mount point into account.
abbrev eligible : (abs_path : List ℕ) → MountPoint → Bool
eligible abs_path m =
    m.in_use
    && (is_root_path m.mount_path
        || elim (behind m.mount_path abs_path) [ none ↦ false | some rest ↦ at_boundary rest ])

-- The mount point that was found is one of the table that serves the path.
abbrev pub IsFrom : (abs_path : List ℕ) → List MountPoint → (first best : Best) → Type 0
IsFrom abs_path ms first best =
    (best ≡ first)
    ⊎ ((m : MountPoint) × (Mem m ms × (Serves abs_path m × (best ≡ (some m, length m.mount_path)))))

-- What is so after a part of the table: nothing that serves the path is longer than the best.
abbrev Step : (abs_path : List ℕ) → List MountPoint → (first best : Best) → Type 0
Step abs_path ms first best =
    (first.1 ≤ best.1)
    × (((m : MountPoint) → Mem m ms → Serves abs_path m → length m.mount_path ≤ best.1)
        × IsFrom abs_path ms first best)
