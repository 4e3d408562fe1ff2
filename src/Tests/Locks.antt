-- ===== src/Tests/Locks.antt =====
-- fs/locks.c at two open files of one inode.
use scepter.Fs.Errno.{fail, count, eagain}
use scepter.Fs.Locks.Grants.{fs_fcntl_lock-Apart}
use scepter.Fs.Locks.Exclusion.{Apart, AllRecs}
use scepter.Fs.Locks.Overlap.{Clear}
use scepter.Fs.Locks.Flock.{Excludes, fs_flock-Excludes}
use scepter.Fs.Locks.Pairs.{Pairwise}
use scepter.Fs.Locks.Records.{
  FlockK, fs_fcntl_lock, fcntl_file, rec_round, rec_resume, rec_conflict, rec_search,
  locks_release_file, ranges_overlap, without_owner,
}
use scepter.Fs.Locks.{
  Stat, find_open, OpenFile, LockState, f_setlk, all_files, fs_flock, flock_resume, f_setlkw,
  update_open, find_fd, descriptors, same_file, locked,
}
use mathlib.Core.Path.{subst}
use scepter.Base.{ℕ, ◌≡◌, refl, [], sym, ◌∷◌, arith, true, some, inr, false}

-- File system 0 has inode 12 for every file.
abbrev one_inode : Stat
one_inode id = some (λ file. some (12, 100))

abbrev open_at : ℕ → OpenFile
open_at a = record {
  address = a;
  pipe = 0;
  fs_id = 0;
  fs_private = 0;
  file_private = a;
  position = 0;
  flock_type = 0;
  flock_owner = 0;
  locks = [];
}

-- Tasks 3 and 4 have opened the file each for itself.
abbrev two_tasks : LockState
two_tasks = record {
  holders =
      record { pid = 3; files = (5, 0x100) ∷ [] }
      ∷ record { pid = 4; files = (6, 0x200) ∷ [] }
      ∷ [];
  opens = open_at 0x100 ∷ open_at 0x200 ∷ [];
}

abbrev write_first_ten : FlockK
write_first_ten = record { l_type = 1; l_whence = 0; l_start = 0; l_len = 10; l_pid = 0 }

abbrev after_first : LockState
after_first = (fs_fcntl_lock one_inode true true 3 5 f_setlk 100 (some write_first_ten) two_tasks).1

second_is_refused :
    (fs_fcntl_lock one_inode true true 4 6 f_setlk 100 (some write_first_ten) after_first).0
    ≡ locked (fail eagain)
unfolding fs_fcntl_lock fcntl_file rec_round rec_conflict rec_search find_open update_open find_fd
    descriptors all_files same_file ranges_overlap without_owner
second_is_refused = refl

-- Through one open file that two tasks share both get the lock.
abbrev shared_file : LockState
shared_file = record two_tasks {
  holders =
      record { pid = 3; files = (5, 0x100) ∷ [] }
      ∷ record { pid = 4; files = (5, 0x100) ∷ [] }
      ∷ [];
}

both_get_it :
    (fs_fcntl_lock one_inode true true 4 5 f_setlk 100
      (some write_first_ten)
      (fs_fcntl_lock one_inode true true 3 5 f_setlk 100 (some write_first_ten) shared_file).1).0
    ≡ locked (count 0)
unfolding fs_fcntl_lock fcntl_file rec_round rec_conflict rec_search find_open update_open find_fd
    descriptors all_files same_file ranges_overlap without_owner
both_get_it = refl

two_tasks-Excludes : Pairwise one_inode Excludes two_tasks
unfolding find_open
two_tasks-Excludes i j f g ei ej ne li lj same ex = unlocked j g ej
  where
    unlocked : (j : ℕ) (g : OpenFile) → find_open j two_tasks.opens ≡ some g → g.flock_type ≡ 0
    unlocked j g e = ground arith

fs_flock-Excludes_example :
    Pairwise one_inode Excludes (fs_flock one_inode 3 5 2 two_tasks).1
    × Pairwise one_inode Excludes (flock_resume one_inode false 3 2 2 (open_at 0x100) two_tasks).1
    × Pairwise one_inode Excludes (locks_release_file 0x200 two_tasks)
unfolding find_open
fs_flock-Excludes_example =
    fs_flock-Excludes one_inode 3 5 2 2 0x200 false (open_at 0x100) two_tasks two_tasks-Excludes
      refl (inr refl)

two_tasks-Apart : Pairwise one_inode Apart two_tasks
unfolding find_open
two_tasks-Apart i j f g ei ej ne li lj same = free f g (unlocked i f ei)
  where
    unlocked : (j : ℕ) (g : OpenFile) → find_open j two_tasks.opens ≡ some g → g.locks ≡ []
    unlocked j g e = ground arith

    free : (f g : OpenFile) → f.locks ≡ [] → Apart f g
    free f g e = subst (λ rs. AllRecs (λ r. AllRecs (Clear r) g.locks) rs) (sym e) tt

fs_fcntl_lock-Apart_example :
    Pairwise one_inode Apart
      (fs_fcntl_lock one_inode true true 3 5 f_setlkw 100 (some write_first_ten) two_tasks).1
    × Pairwise one_inode Apart
        (rec_resume one_inode false true 3 f_setlkw 1 0 10 (open_at 0x100) two_tasks).1
unfolding find_open all_files
fs_fcntl_lock-Apart_example =
    fs_fcntl_lock-Apart one_inode true true false 3 5 f_setlkw 100 1 0 10 (some write_first_ten)
      (open_at 0x100) two_tasks two_tasks-Apart refl refl

-- A range of length -5 does not overlap itself.
wrapped_range : ranges_overlap 100 0xFFFFFFFB 100 0xFFFFFFFB ≡ false
unfolding ranges_overlap
wrapped_range = refl
