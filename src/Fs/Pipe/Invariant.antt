-- ===== src/Fs/Pipe/Invariant.antt =====
-- The invariant of a pipe, and what taking out and putting in do to its contents.
use scepter.Fs.Pipe.Ring.{contents, length-write_bytes, read_bytes-write}
use scepter.Base.{ℕ, ◌+◌, ◌%◌, ◌≤◌, ◌<◌, ◌≡◌, length, arith, List, some, [], ◌∙◌, ◌++◌, refl}
use scepter.Fs.Pipe.{Pipe, pipe_size, take_out, put_in, pipe_create}

pub record IsValid (p : Pipe) : Type 0 where
  pub storage : length p.buf ≡ pipe_size
  pub room : p.filled ≤ pipe_size
  pub tail_in : p.tail < pipe_size
  pub next : p.head ≡ (p.tail + p.filled) % pipe_size

-- A new pipe is valid and empty, whatever the memory held.
pipe_create-IsValid :
    (memory : List ℕ)
    → length memory ≡ pipe_size
    → (p : Pipe) × (pipe_create (some memory) ≡ some p) × IsValid p × (contents p ≡ [])
unfolding pipe_create
pipe_create-IsValid memory h = (
  record { buf = memory; head = 0; tail = 0; filled = 0; readers = 1; writers = 1 },
  refl,
  record { storage = h; room = omega arith; tail_in = omega arith; next = refl },
  refl,
)

pub take_out-IsValid : (p : Pipe) (n : ℕ) → IsValid p → n ≤ p.filled → IsValid (take_out p n)
unfolding take_out
take_out-IsValid p n v h = record {
  storage = v.storage;
  room = omega arith;
  tail_in = omega arith;
  next = omega (arith, v.next);
}

pub put_in-IsValid :
    (p : Pipe) (xs : List ℕ) → IsValid p → p.filled + length xs ≤ pipe_size → IsValid (put_in p xs)
unfolding put_in
put_in-IsValid p xs v h = record {
  storage = length-write_bytes p.buf p.head 0 xs ∙ v.storage;
  room = h;
  tail_in = v.tail_in;
  next = omega (arith, v.next);
}

-- Putting bytes in appends them.
pub contents-put_in :
    (p : Pipe) (xs : List ℕ)
    → IsValid p
    → p.filled + length xs ≤ pipe_size
    → contents (put_in p xs) ≡ contents p ++ xs
unfolding put_in
contents-put_in p xs v h =
    read_bytes-write p.buf p.tail p.head 0 p.filled xs (omega (arith, v.next)) h v.storage
