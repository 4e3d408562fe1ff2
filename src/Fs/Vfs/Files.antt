-- ===== src/Fs/Vfs/Files.antt =====
-- fs/vfs.c: the descriptors of the current task and the reference counts of the open files
-- behind them. A descriptor number is an int, kept as its 32 bits; the bits from 2 ^ 31 on are
-- the negative ones. `room` says whether kalloc gives the memory of a new entry.
pub mod Counts
pub mod Balance
pub mod Dup
pub mod Lowest
use scepter.Fs.Errno.{Ret, count, fail, minus_one}
use scepter.Base.Int.{ℤ, pos, negsuc}
use scepter.Base.{
  ℕ, Bool, true, ◌==◌, List, [], length, leb, ◌++◌, ◌∷◌, suc, ◌+◌, ◌&&◌, option_map, zero, Option,
  some, false, none, if◌then◌else◌, ◌^◌, ◌%◌,
}

-- The comparison of two ints, and the increment, which wraps.
abbrev pub int_leb : ℕ → ℕ → Bool
int_leb a b = leb ((a + 2 ^ 31) % 2 ^ 32) ((b + 2 ^ 31) % 2 ^ 32)

abbrev pub next_int : ℕ → ℕ
next_int n = (n + 1) % 2 ^ 32

abbrev pub is_negative : ℕ → Bool
is_negative n = leb (2 ^ 31) n

-- `fd_entry_t`; `file` is the address of the open file, 0 for NULL.
pub record FdEntry : Type 0 where
  pub fd : ℕ
  pub cloexec : Bool
  pub file : ℕ

-- An `open_file_t` that is not freed: its address, which no other has, and its `refcount`.
pub record OpenCount : Type 0 where
  pub address : ℕ
  pub refcount : ℤ

-- `current->files`, `current->next_fd` and the open files of all tasks.
pub record Files : Type 0 where
  pub entries : List FdEntry
  pub next_fd : ℕ
  pub opens : List OpenCount

unfoldable pub find_fd_entry : ℕ → List FdEntry → Option FdEntry
find_fd_entry fd [] = none
find_fd_entry fd (e ∷ es) = if e.fd == fd then some e else find_fd_entry fd es

unfoldable pub free_fd_entry : ℕ → List FdEntry → List FdEntry
free_fd_entry fd [] = []
free_fd_entry fd (e ∷ es) = if e.fd == fd then es else e ∷ free_fd_entry fd es

abbrev pub increment : ℤ → ℤ
increment (pos n) = pos (suc n)
increment (negsuc zero) = pos 0
increment (negsuc (suc n)) = negsuc n

abbrev pub decrement : ℤ → ℤ
decrement (pos (suc n)) = pos n
decrement (pos zero) = negsuc 0
decrement (negsuc n) = negsuc (suc n)

abbrev pub is_zero : ℤ → Bool
is_zero (pos zero) = true
is_zero _ = false

-- The reference count of an open file; 0 where it is freed.
unfoldable pub count_of : ℕ → List OpenCount → ℤ
count_of a [] = pos 0
count_of a (o ∷ os) = if o.address == a then o.refcount else count_of a os

-- The open file is there and not freed.
abbrev pub is_open : ℕ → List OpenCount → Bool
is_open a [] = false
is_open a (o ∷ os) = if o.address == a then true else is_open a os

-- A write to the reference count, and kfree of the open file.
unfoldable pub change_count : ℕ → (ℤ → ℤ) → List OpenCount → List OpenCount
change_count a g [] = []
change_count a g (o ∷ os) =
    (if o.address == a then record o { refcount = g o.refcount } else o) ∷ change_count a g os

unfoldable pub free_open : ℕ → List OpenCount → List OpenCount
free_open a [] = []
free_open a (o ∷ os) = if o.address == a then free_open a os else o ∷ free_open a os

-- `open_file_put`; what the last reference closes, a pipe end or a file of the driver, is not
-- part of this state.
unfoldable pub open_file_put : ℕ → List OpenCount → List OpenCount
open_file_put a os =
    let os' = change_count a decrement os in
    if a == 0 then os else if is_zero (count_of a os') then free_open a os' else os'

unfoldable pub fs_close : ℕ → Files → Ret × Files
fs_close fd s = elim (find_fd_entry fd s.entries) [
  | none ↦ (fail minus_one, s)
  | some e ↦ (
    count 0,
    record s { opens = open_file_put e.file s.opens; entries = free_fd_entry fd s.entries },
  )
]

-- The loop of `fs_dup_min` that looks for a free number; `none` means that the fuel ran out.
abbrev pub has_fd : ℕ → List FdEntry → Bool
has_fd fd [] = false
has_fd fd (e ∷ es) = if e.fd == fd then true else has_fd fd es

unfoldable pub lowest_free : (fuel : ℕ) → List FdEntry → ℕ → Option ℕ
lowest_free zero es newfd = none
lowest_free (suc fuel) es newfd =
    let rest = lowest_free fuel es (next_int newfd) in if has_fd newfd es then rest else some newfd

-- The new entry at the end of the list, and its reference.
abbrev pub add_fd_entry : FdEntry → Files → Files
add_fd_entry e s = record {
  entries = s.entries ++ (e ∷ []);
  next_fd = if int_leb s.next_fd e.fd then next_int e.fd else s.next_fd;
  opens = change_count e.file increment s.opens;
}

abbrev pub dup_to : (room cloexec : Bool) → (file newfd : ℕ) → Files → Ret × Files
dup_to room cloexec file newfd s =
    if room
    then (count newfd, add_fd_entry (record { fd = newfd; cloexec = cloexec; file = file }) s)
    else (fail minus_one, s)

-- The outer `none` is that of the loop.
unfoldable pub fs_dup_min :
    (room : Bool) → (oldfd minfd : ℕ) → (cloexec : Bool) → Files → Option (Ret × Files)
fs_dup_min room oldfd minfd cloexec s = elim (find_fd_entry oldfd s.entries) [
  | none ↦ some (fail minus_one, s)
  | some old ↦
      if old.file == 0
      then some (fail minus_one, s)
      else option_map (λ newfd. dup_to room cloexec old.file newfd s)
          (lowest_free (suc (length s.entries)) s.entries minfd)
]

unfoldable pub set_cloexec : ℕ → Bool → List FdEntry → List FdEntry
set_cloexec fd on [] = []
set_cloexec fd on (e ∷ es) =
    if e.fd == fd then record e { cloexec = on } ∷ es else e ∷ set_cloexec fd on es

-- Where `newfd` is open, `fs_dup2_fd` closes it first.
unfoldable pub close_target : ℕ → Files → Files
close_target newfd s = elim (find_fd_entry newfd s.entries) [
  | none ↦ s
  | some e ↦ record s {
    opens = open_file_put e.file s.opens;
    entries = free_fd_entry newfd s.entries;
  }
]

unfoldable pub fs_dup2_fd :
    (room : Bool) → (oldfd newfd : ℕ) → (cloexec : Bool) → Files → Ret × Files
fs_dup2_fd room oldfd newfd cloexec s =
    if is_negative newfd then (fail minus_one, s) else elim (find_fd_entry oldfd s.entries) [
      | none ↦ (fail minus_one, s)
      | some old ↦
          if oldfd == newfd
          then (count newfd, record s { entries = set_cloexec oldfd cloexec s.entries })
          else if old.file == 0
          then (fail minus_one, s)
          else dup_to room cloexec old.file newfd (close_target newfd s)
    ]

-- `fs_close_on_exec`: the loop over the entries that were there before.
unfoldable pub close_marked : List FdEntry → Files → Files
close_marked [] s = s
close_marked (e ∷ es) s = close_marked es (if e.cloexec then (fs_close e.fd s).1 else s)

unfoldable pub fs_close_on_exec : Files → Files
fs_close_on_exec s = close_marked s.entries s

-- The loop of `fs_close_range`, which casts its bounds to int: the number of closed entries.
unfoldable pub close_between : (first last : ℕ) → List FdEntry → (closed : ℕ) → Files → ℕ × Files
close_between first last [] closed s = (closed, s)
close_between first last (e ∷ es) closed s =
    let hit = int_leb first e.fd && int_leb e.fd last in
    close_between first last es (if hit then closed + 1 else closed)
      (if hit then (fs_close e.fd s).1 else s)

unfoldable pub fs_close_range : (first last : ℕ) → Files → ℕ × Files
fs_close_range first last s = close_between first last s.entries 0 s
