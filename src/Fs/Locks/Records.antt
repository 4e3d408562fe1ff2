-- ===== src/Fs/Locks/Records.antt =====
-- fs/locks.c: the record locks of fcntl(), and what closing an open file releases.
use scepter.Fs.Errno.{fail, count, eintr, enomem, eagain, einval, efault, ebadf}
use scepter.Fs.Locks.{
  LockRec, Stat, LockState, OpenFile, f_unlck, find_open, same_file, Locking, update_open,
  all_files, locked, f_wrlck, f_setlk, f_setlkw, f_rdlck, waits, f_getlk, find_fd, descriptors,
}
use scepter.Base.{
  ℕ, Bool, some, none, false, ◌&&◌, ◌==◌, List, ◌^◌, true, Option, leb, ◌+◌, if◌then◌else◌, ◌++◌,
  ◌∷◌, not, ◌%◌, ◌||◌, [],
}

-- Where a range ends: length 0 reaches to the end of the file. Sums are of a uint32_t.
abbrev pub range_end : (start len : ℕ) → ℕ
range_end start len = if len == 0 then 0xFFFFFFFF else (start + len) % 2 ^ 32

unfoldable pub ranges_overlap : (a_start a_len b_start b_len : ℕ) → Bool
ranges_overlap a_start a_len b_start b_len =
    if leb (range_end b_start b_len) a_start
    then false
    else if leb (range_end a_start a_len) b_start
    then false
    else true

abbrev pub rec_clash : (kind start len owner : ℕ) → LockRec → Bool
rec_clash kind start len owner r =
    not (r.kind == f_unlck)
    && not (r.owner == owner)
    && ranges_overlap start len r.start r.len
    && (kind == f_wrlck || r.kind == f_wrlck)

-- The innermost loop of `rec_conflict`.
unfoldable pub rec_search : (kind start len owner : ℕ) → List LockRec → Option LockRec
rec_search kind start len owner [] = none
rec_search kind start len owner (r ∷ rs) =
    if rec_clash kind start len owner r then some r else rec_search kind start len owner rs

abbrev pub first_rec : Option LockRec → Option LockRec → Option LockRec
first_rec none o = o
first_rec (some a) o = some a

-- Locks of the same open file are passed over.
abbrev pub rec_in_file :
    Stat → (me : OpenFile) → (kind start len owner : ℕ) → Option OpenFile → Option LockRec
rec_in_file stat_of me kind start len owner none = none
rec_in_file stat_of me kind start len owner (some f) =
    if f.address == me.address
    then none
    else if not (same_file stat_of me f)
    then none
    else rec_search kind start len owner f.locks

unfoldable pub rec_conflict :
    Stat → (me : OpenFile) → (kind start len owner : ℕ) → List OpenFile → List ℕ → Option LockRec
rec_conflict stat_of me kind start len owner opens [] = none
rec_conflict stat_of me kind start len owner opens (a ∷ addresses) =
    first_rec (rec_in_file stat_of me kind start len owner (find_open a opens))
      (rec_conflict stat_of me kind start len owner opens addresses)

unfoldable pub without_owner : ℕ → List LockRec → List LockRec
without_owner owner [] = []
without_owner owner (r ∷ rs) =
    if r.owner == owner then without_owner owner rs else r ∷ without_owner owner rs

abbrev pub rec_remove_owner : ℕ → OpenFile → OpenFile
rec_remove_owner owner f = record f { locks = without_owner owner f.locks }

-- `struct flock_k`, with the start and the length as uint32_t.
pub record FlockK : Type 0 where
  pub l_type : ℕ
  pub l_whence : ℕ
  pub l_start : ℕ
  pub l_len : ℕ
  pub l_pid : ℕ

-- The absolute start of a request; `size` is the file's.
abbrev pub absolute_start : FlockK → OpenFile → (size : ℕ) → ℕ
absolute_start k f size =
    if k.l_whence == 1
    then (k.l_start + f.position) % 2 ^ 32
    else if k.l_whence == 2
    then (k.l_start + size) % 2 ^ 32
    else k.l_start

abbrev pub add_rec : (kind start len owner : ℕ) → OpenFile → OpenFile
add_rec kind start len owner f = record f {
  locks = f.locks ++ (record { kind = kind; start = start; len = len; owner = owner } ∷ []);
}

-- One turn of the acquisition loop; `has_memory` is what `kalloc` does. A failure of `kalloc`
-- comes after the owner's old locks are gone.
unfoldable pub rec_round :
    Stat
    → (has_memory : Bool) → (pid cmd kind start len : ℕ) → OpenFile
    → LockState
    → Locking × LockState
rec_round stat_of has_memory pid cmd kind start len f s =
    let dropped = record s { opens = update_open f.address (rec_remove_owner pid) s.opens } in
    let added = record dropped {
      opens = update_open f.address (add_rec kind start len pid) dropped.opens;
    } in
    elim (rec_conflict stat_of f kind start len pid s.opens (all_files s.holders)) [
      | none ↦ if has_memory then (locked (count 0), added) else (locked (fail enomem), dropped)
      | some r ↦ if cmd == f_setlk then (locked (fail eagain), s) else (waits, s)
    ]

-- After the sleep.
unfoldable pub rec_resume :
    Stat
    → (pending has_memory : Bool) → (pid cmd kind start len : ℕ) → OpenFile
    → LockState
    → Locking × LockState
rec_resume stat_of pending has_memory pid cmd kind start len f s =
    if pending
    then (locked (fail eintr), s)
    else rec_round stat_of has_memory pid cmd kind start len f s

-- What F_GETLK writes back: the first lock in the way of a write lock.
abbrev pub report : (start len : ℕ) → Option LockRec → FlockK
report start len none = record {
  l_type = f_unlck;
  l_whence = 0;
  l_start = start;
  l_len = len;
  l_pid = 0;
}
report start len (some r) = record {
  l_type = r.kind;
  l_whence = 0;
  l_start = r.start;
  l_len = r.len;
  l_pid = r.owner;
}

-- `fs_fcntl_lock` for the open file that was found and the request that was read, up to the first
-- sleep; with what is written back.
unfoldable pub fcntl_file :
    Stat
    → (has_memory can_write : Bool) → (pid cmd size : ℕ) → FlockK
    → OpenFile
    → LockState
    → Locking × LockState × Option FlockK
fcntl_file stat_of has_memory can_write pid cmd size k f s =
    let start = absolute_start k f size in
    let dropped = record s { opens = update_open f.address (rec_remove_owner pid) s.opens } in
    let (turn, s') = rec_round stat_of has_memory pid cmd k.l_type start k.l_len f s in
    let found = rec_conflict stat_of f f_wrlck start k.l_len pid s.opens (all_files s.holders) in
    if cmd == f_setlk || cmd == f_setlkw
    then (if k.l_type == f_unlck
        then (locked (count 0), dropped, none)
        else if not (k.l_type == f_rdlck) && not (k.l_type == f_wrlck)
        then (locked (fail einval), s, none)
        else (turn, s', none))
    else if cmd == f_getlk
    then (if can_write
        then (locked (count 0), s, some (report start k.l_len found))
        else (locked (fail efault), s, none))
    else (locked (fail einval), s, none)

-- `locks_release_file`, when the last descriptor of an open file is closed.
unfoldable pub locks_release_file : ℕ → LockState → LockState
locks_release_file a s = record s {
  opens = update_open a (λ f. record f { flock_type = 0; flock_owner = 0; locks = [] }) s.opens;
}

-- `fs_fcntl_lock`: `request` is `none` if the user's structure cannot be read.
unfoldable pub fs_fcntl_lock :
    Stat
    → (has_memory can_write : Bool) → (pid fd cmd size : ℕ) → (request : Option FlockK) → LockState
    → Locking × LockState × Option FlockK
fs_fcntl_lock stat_of has_memory can_write pid fd cmd size request s =
    elim (find_fd fd (descriptors pid s.holders)) [
      | none ↦ (locked (fail ebadf), s, none)
      | some a ↦ elim (find_open a s.opens) [
        | none ↦ (locked (fail ebadf), s, none)
        | some f ↦ elim request [
          | none ↦ (locked (fail efault), s, none)
          | some k ↦ fcntl_file stat_of has_memory can_write pid cmd size k f s
        ]
      ]
    ]
