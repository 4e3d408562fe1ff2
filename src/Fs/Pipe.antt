-- ===== src/Fs/Pipe.antt =====
-- fs/pipe.c: the ring buffer behind pipe() and named pipes. A call that may block is cut into
-- the rounds of its loop; interrupts are off, so nothing else runs between two sleeps.
pub mod Ring
pub mod Invariant
pub mod Read
pub mod Write
pub mod Nonblock
pub mod Stream
use scepter.Base.{
  ℕ, zero, suc, ◌+◌, ◌-◌, ◌%◌, List, [], ◌∷◌, ◌++◌, Bool, true, false, Option, none, some, ◌==◌,
  ltb, leb, ◌&&◌, if◌then◌else◌, length, get_or, set, take, min, drop, bit_and, ◌!=◌,
}
use scepter.Fs.Errno.{Ret, count, fail, eintr, eagain, epipe}

abbrev pub pipe_size : ℕ
pipe_size = 4096

-- `pipe_t` without its wait queues: the wake-ups that a call makes are part of its result. The
-- counters of waiting opens, which nothing reads, and the destroy hook are left out.
pub record Pipe : Type 0 where
  pub buf : List ℕ
  pub head : ℕ
  pub tail : ℕ
  pub filled : ℕ
  pub readers : ℕ
  pub writers : ℕ

-- `wake_up` on one of the pipe's queues, or `vfs_poll_wakeup`.
pub data Wake : Type 0 where
  read_wq write_wq open_wq poll : Wake

-- `memory` is what `kalloc` returns: its bytes are not cleared.
unfoldable pub pipe_create : Option (List ℕ) → Option Pipe
pipe_create none = none
pipe_create (some memory) =
    some (record { buf = memory; head = 0; tail = 0; filled = 0; readers = 1; writers = 1 })

-- `for (i = …; i < …; i++) … = p->buf[(p->tail + i) % PIPE_SIZE]`, `n` rounds from `i` on.
abbrev pub read_bytes : (buf : List ℕ) (tail i n : ℕ) → List ℕ
read_bytes buf tail i zero = []
read_bytes buf tail i (suc n) =
    get_or buf ((tail + i) % pipe_size) 0 ∷ read_bytes buf tail (suc i) n

-- `p->buf[(p->head + i) % PIPE_SIZE] = buf[total + i]` for each byte of the list.
unfoldable pub write_bytes : (buf : List ℕ) (head i : ℕ) → List ℕ → List ℕ
write_bytes buf head i [] = buf
write_bytes buf head i (x ∷ xs) = write_bytes (set buf ((head + i) % pipe_size) x) head (suc i) xs

-- Taking `n` bytes out, and what comes out.
unfoldable pub take_out : Pipe → ℕ → Pipe
take_out p n = record p { tail = (p.tail + n) % pipe_size; filled = p.filled - n }

abbrev pub front : Pipe → ℕ → List ℕ
front p n = read_bytes p.buf p.tail 0 n

-- Putting bytes in.
unfoldable pub put_in : Pipe → List ℕ → Pipe
put_in p xs = record p {
  buf = write_bytes p.buf p.head 0 xs;
  head = (p.head + length xs) % pipe_size;
  filled = p.filled + length xs;
}

-- How one round of a blocking call ends.
pub data Round : Type 0 where
  returns : Ret → Round
  again : Round
  sleeps : Round

-- `pipe_read`: `got` holds the bytes already copied to the caller's buffer, `total` of them.
unfoldable pub read_round : Pipe → (got : List ℕ) → ℕ → Round × Pipe × List ℕ × List Wake
unfolding take_out
read_round p got n =
    if leb n (length got)
    then (returns (count (length got)), p, got, [])
    else if ltb 0 p.filled
    then (let size = if ltb (n - length got) p.filled then n - length got else p.filled in
        (again, take_out p size, got ++ front p size, write_wq ∷ poll ∷ []))
    else if p.writers == 0
    then (returns (count (length got)), p, got, poll ∷ [])
    else (sleeps, p, got, [])

-- What a reader does when it wakes: `pending` says that a signal is pending.
unfoldable pub read_resume : Bool → (got : List ℕ) → Round
read_resume pending got =
    if pending
    then returns (if ltb 0 (length got) then count (length got) else fail eintr)
    else again

-- `pipe_write`: `rest` holds the bytes not yet written, `total` bytes are.
unfoldable pub write_round :
    Pipe → (total : ℕ) → (rest : List ℕ) → Round × Pipe × List ℕ × List Wake
unfolding put_in
write_round p total [] = (returns (count total), p, [], [])
write_round p total (x ∷ xs) =
    if p.readers == 0
    then (returns (if ltb 0 total then count total else fail epipe), p, x ∷ xs, [])
    else if ltb p.filled pipe_size
    then (let space = pipe_size - p.filled in
        let n = if ltb space (length (x ∷ xs)) then space else length (x ∷ xs) in
        (again, put_in p (take n (x ∷ xs)), drop n (x ∷ xs), read_wq ∷ poll ∷ []))
    else (sleeps, p, x ∷ xs, [])

-- The rounds of a call until it returns or sleeps; `none` means that the fuel ran out.
abbrev pub Run : Type 0
Run = Option (Round × Pipe × List ℕ × List Wake)

abbrev pub after_wakes : List Wake → Run → Run
after_wakes w none = none
after_wakes w (some (r, p, bytes, w')) = some (r, p, bytes, w ++ w')

unfoldable pub read_run : (fuel : ℕ) → Pipe → (got : List ℕ) → ℕ → Run
read_run zero p got n = none
read_run (suc fuel) p got n =
    let (r, p', got', w) = read_round p got n in
    elim r [
      | again ↦ after_wakes w (read_run fuel p' got' n)
      | returns code ↦ some (returns code, p', got', w)
      | sleeps ↦ some (sleeps, p', got', w)
    ]

unfoldable pub write_run : (fuel : ℕ) → Pipe → (total : ℕ) → (rest : List ℕ) → Run
write_run zero p total rest = none
write_run (suc fuel) p total rest =
    let (r, p', rest', w) = write_round p total rest in
    elim r [
      | again ↦ after_wakes w (write_run fuel p' (total + (length rest - length rest')) rest')
      | returns code ↦ some (returns code, p', rest', w)
      | sleeps ↦ some (sleeps, p', rest', w)
    ]

-- `pipe_read_nonblock`, with the bytes copied to the caller.
unfoldable pub read_nonblock : Pipe → ℕ → Ret × Pipe × List ℕ × List Wake
unfolding take_out
read_nonblock p n =
    if ltb 0 p.filled
    then (let size = if ltb n p.filled then n else p.filled in
        (count size, take_out p size, front p size, write_wq ∷ poll ∷ []))
    else if p.writers == 0
    then (count 0, p, [], [])
    else (fail eagain, p, [], [])

-- `pipe_write_nonblock`.
unfoldable pub write_nonblock : Pipe → List ℕ → Ret × Pipe × List Wake
unfolding put_in
write_nonblock p xs =
    let space = pipe_size - p.filled in
    let n = if ltb space (length xs) then space else length xs in
    if p.readers == 0
    then (fail epipe, p, [])
    else if space == 0
    then (fail eagain, p, [])
    else (count n, put_in p (take n xs), read_wq ∷ poll ∷ [])

abbrev pub o_rdonly : ℕ
o_rdonly = 1

abbrev pub o_wronly : ℕ
o_wronly = 2

abbrev pub pollin : ℕ
pollin = 1

abbrev pub pollout : ℕ
pollout = 4

abbrev pub pollerr : ℕ
pollerr = 8

abbrev pub pollhup : ℕ
pollhup = 16

unfoldable pub pipe_poll : Pipe → (flags : ℕ) → ℕ
pipe_poll p flags =
    if bit_and flags o_wronly != 0
    then (if p.readers == 0 then pollerr else if ltb p.filled pipe_size then pollout else 0)
    else if ltb 0 p.filled
    then pollin
    else if p.writers == 0
    then pollin + pollhup
    else 0

-- `kfree` when both sides are closed; `none` is the freed pipe, after its destroy hook.
pub release : Pipe → Option Pipe
release p = if (p.readers == 0) && (p.writers == 0) then none else some p

unfoldable pub pipe_read_release : Pipe → Option Pipe × List Wake
unfolding release
pipe_read_release p =
    let p' = record p { readers = if ltb 0 p.readers then p.readers - 1 else p.readers } in
    (release p', (if p'.readers == 0 then write_wq ∷ [] else []) ++ (open_wq ∷ []))

unfoldable pub pipe_write_release : Pipe → Option Pipe × List Wake
unfolding release
pipe_write_release p =
    let p' = record p { writers = if ltb 0 p.writers then p.writers - 1 else p.writers } in
    (release p', (if p'.writers == 0 then read_wq ∷ [] else []) ++ (open_wq ∷ []))
