-- ===== src/Fs/Locks.antt =====
-- fs/locks.c: flock() and fcntl() locks. `stat_of` stands for the file systems' `fstat`: `none`
-- for a file system without it, else the inode number and the size, if the call succeeds.
pub mod Records
pub mod Pairs
pub mod Flock
pub mod Overlap
pub mod Exclusion
pub mod Grants
use scepter.Base.Bits.{test_bit}
use scepter.Fs.Errno.{Ret, fail, count, ebadf, eintr, eagain, einval}
use scepter.Base.{
  ℕ, Bool, if◌then◌else◌, false, none, ◌++◌, not, List, bit_and, ◌||◌, ◌&&◌, [], ◌∷◌, ◌==◌, ◌!=◌,
  Option, some,
}

-- `flock_rec_t`.
pub record LockRec : Type 0 where
  pub kind : ℕ
  pub start : ℕ
  pub len : ℕ
  pub owner : ℕ

-- The fields of `open_file_t` that locks use; the pointers are numbers, 0 is NULL, and `address`
-- is that of the structure itself.
pub record OpenFile : Type 0 where
  pub address : ℕ
  pub pipe : ℕ
  pub fs_id : ℕ
  pub fs_private : ℕ
  pub file_private : ℕ
  pub position : ℕ
  pub flock_type : ℕ
  pub flock_owner : ℕ
  pub locks : List LockRec

-- A task's descriptors: the number and the address of the open file.
pub record Holder : Type 0 where
  pub pid : ℕ
  pub files : List (ℕ × ℕ)

-- The tasks in the order of `task_list`, and all open files.
pub record LockState : Type 0 where
  pub holders : List Holder
  pub opens : List OpenFile

abbrev pub lock_sh : ℕ
lock_sh = 1

abbrev pub lock_ex : ℕ
lock_ex = 2

abbrev pub lock_nb_bit : ℕ
lock_nb_bit = 2

abbrev pub lock_un_bit : ℕ
lock_un_bit = 3

abbrev pub f_getlk : ℕ
f_getlk = 5

abbrev pub f_setlk : ℕ
f_setlk = 6

abbrev pub f_setlkw : ℕ
f_setlkw = 7

abbrev pub f_rdlck : ℕ
f_rdlck = 0

abbrev pub f_wrlck : ℕ
f_wrlck = 1

abbrev pub f_unlck : ℕ
f_unlck = 2

unfoldable pub find_open : ℕ → List OpenFile → Option OpenFile
find_open a [] = none
find_open a (f ∷ fs) = if f.address == a then some f else find_open a fs

-- A write through the pointer to an open file.
unfoldable pub update_open : ℕ → (OpenFile → OpenFile) → List OpenFile → List OpenFile
update_open a g [] = []
update_open a g (f ∷ fs) = if f.address == a then g f ∷ fs else f ∷ update_open a g fs

-- `find_open_file`, in the descriptors of one task.
unfoldable pub find_fd : ℕ → List (ℕ × ℕ) → Option ℕ
find_fd fd [] = none
find_fd fd ((n, a) ∷ fds) = if n == fd then some a else find_fd fd fds

-- The open files behind all descriptors of all tasks, in the order of the two nested loops.
abbrev pub fd_files : List (ℕ × ℕ) → List ℕ
fd_files [] = []
fd_files ((n, a) ∷ fds) = a ∷ fd_files fds

unfoldable pub all_files : List Holder → List ℕ
all_files [] = []
all_files (h ∷ hs) = fd_files h.files ++ all_files hs

-- The descriptors of the current task.
unfoldable pub descriptors : (pid : ℕ) → List Holder → List (ℕ × ℕ)
descriptors pid [] = []
descriptors pid (h ∷ hs) = if h.pid == pid then h.files else descriptors pid hs

abbrev pub Stat : Type 0
Stat = ℕ → Option (ℕ → Option (ℕ × ℕ))

abbrev pub same_inode : Option (ℕ × ℕ) → Option (ℕ × ℕ) → Bool
same_inode none b = false
same_inode (some a) none = false
same_inode (some a) (some b) = a.0 == b.0

unfoldable pub same_file : Stat → OpenFile → OpenFile → Bool
same_file stat_of a b =
    if a.pipe != 0 || b.pipe != 0
    then a.pipe == b.pipe
    else if a.fs_id != b.fs_id
    then false
    else if a.fs_private != b.fs_private
    then false
    else elim (stat_of a.fs_id) [
      | some fstat ↦ same_inode (fstat a.file_private) (fstat b.file_private)
      | none ↦ a.file_private == b.file_private
    ]

-- The inner test of `flock_conflict`.
abbrev pub flock_clash : Stat → (me : OpenFile) → (kind : ℕ) → OpenFile → Bool
flock_clash stat_of me kind f =
    not (f.address == me.address)
    && not (f.flock_type == 0)
    && same_file stat_of me f
    && (kind == lock_ex || f.flock_type == lock_ex)

-- The loops of `flock_conflict`, over the addresses; a dangling one is a NULL file.
unfoldable pub flock_conflict : Stat → (me : OpenFile) → (kind : ℕ) → List OpenFile → List ℕ → Bool
flock_conflict stat_of me kind opens [] = false
flock_conflict stat_of me kind opens (a ∷ addresses) =
    (elim (find_open a opens) [ none ↦ false | some f ↦ flock_clash stat_of me kind f ])
    || flock_conflict stat_of me kind opens addresses

-- How far a call comes: it returns, or it sleeps on `lock_wq`.
pub data Locking : Type 0 where
  locked : Ret → Locking
  waits : Locking

abbrev pub take_flock : (kind owner : ℕ) → OpenFile → OpenFile
take_flock kind owner f = record f { flock_type = kind; flock_owner = owner }

-- One turn of the acquisition loop of `fs_flock`.
unfoldable pub flock_round : Stat → (pid op kind : ℕ) → OpenFile → LockState → Locking × LockState
flock_round stat_of pid op kind f s =
    if not (flock_conflict stat_of f kind s.opens (all_files s.holders))
    then (
      locked (count 0),
      record s { opens = update_open f.address (take_flock kind pid) s.opens },
    )
    else if test_bit op lock_nb_bit
    then (locked (fail eagain), s)
    else (waits, s)

-- After the sleep: EINTR if a signal is pending, another turn if not.
unfoldable pub flock_resume :
    Stat → (pending : Bool) → (pid op kind : ℕ) → OpenFile → LockState → Locking × LockState
flock_resume stat_of pending pid op kind f s =
    if pending then (locked (fail eintr), s) else flock_round stat_of pid op kind f s

-- `fs_flock` of the task `pid` for the open file that it found, up to the first sleep.
-- The wake-up of `lock_wq` has no effect on the locks.
unfoldable pub flock_file : Stat → (pid op : ℕ) → OpenFile → LockState → Locking × LockState
flock_file stat_of pid op f s =
    let kind = bit_and op 3 in
    if test_bit op lock_un_bit
    then (locked (count 0), record s { opens = update_open f.address (take_flock 0 0) s.opens })
    else if not (kind == lock_sh) && not (kind == lock_ex)
    then (locked (fail einval), s)
    else if f.flock_type == kind
    then (
      locked (count 0),
      record s { opens = update_open f.address (take_flock kind pid) s.opens },
    )
    else flock_round stat_of pid op kind f s

unfoldable pub fs_flock : Stat → (pid fd op : ℕ) → LockState → Locking × LockState
fs_flock stat_of pid fd op s = elim (find_fd fd (descriptors pid s.holders)) [
  | none ↦ (locked (fail ebadf), s)
  | some a ↦ elim (find_open a s.opens) [
    | none ↦ (locked (fail ebadf), s)
    | some f ↦ flock_file stat_of pid op f s
  ]
]
