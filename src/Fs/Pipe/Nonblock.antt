-- ===== src/Fs/Pipe/Nonblock.antt =====
-- The non-blocking calls, `pipe_poll`, and closing an end.
use scepter.Fs.Pipe.Ring.{contents, take-read_bytes, contents-take_out}
use scepter.Fs.Pipe.Invariant.{IsValid, take_out-IsValid, contents-put_in, put_in-IsValid}
use scepter.Base.{
  ℕ, if◌then◌else◌, Bool-cases, arith, ◌==◌, ◌+◌, ◌≤◌, ◌∷◌, List, ◌↔◌, ◌≡◌, inl, min, ◌++◌, suc,
  drop, ltb, inr, take, length, ◌-◌, sym, length-take, refl, append-nil,
}
use scepter.Fs.Pipe.{
  Pipe, read_nonblock, write_nonblock, pipe_poll, pipe_size, o_rdonly, pollin, pollhup, o_wronly,
  pollerr,
}
use scepter.Fs.Errno.{count, fail, eagain, epipe}

-- In a valid pipe `pipe_read_nonblock` takes the oldest bytes, as many as are asked for and are
-- there, leaves the rest, and returns their number; from an empty pipe it returns 0 if no writer
-- is left and EAGAIN if one is. The result is valid.
pub read_nonblock-contents :
    (p : Pipe) (n : ℕ)
    → IsValid p
    → let (ret, p', out, w) = read_nonblock p n in
      let size = min n p.filled in
      (out ≡ take size (contents p))
      × (contents p' ≡ drop size (contents p))
      × IsValid p'
      × (ret ≡ (
          if p.filled == 0 then (if p.writers == 0 then count 0 else fail eagain) else count size))
unfolding read_nonblock
read_nonblock-contents p n v = elim (Bool-cases (ltb 0 p.filled)) [
  | inl some_bytes ↦
      let cut : (if ltb n p.filled then n else p.filled) ≡ min n p.filled = ground arith in
      rw (some_bytes, cut)
        (
          sym (take-read_bytes p.buf p.tail 0 (min n p.filled) p.filled (omega arith)),
          contents-take_out p (min n p.filled) (omega arith),
          take_out-IsValid p (min n p.filled) v (omega arith),
          ground arith,
        )
  | inr empty ↦
      let nothing : min n p.filled ≡ 0 = ground arith in
      elim (Bool-cases (p.writers == 0)) [
        | inl eof ↦ rw (empty, nothing, eof) (refl, refl, v, ground arith)
        | inr more_to_come ↦ rw (empty, nothing, more_to_come) (refl, refl, v, ground arith)
      ]
]

-- In a valid pipe `pipe_write_nonblock` fails with EPIPE if no reader is left, fails with EAGAIN
-- if the pipe is full, and otherwise appends the first bytes, as many as there is space for, and
-- returns their number. The result is valid.
pub write_nonblock-contents :
    (p : Pipe) (xs : List ℕ)
    → IsValid p
    → let (ret, p', w) = write_nonblock p xs in
      let size = if p.readers == 0 then 0 else min (pipe_size - p.filled) (length xs) in
      (contents p' ≡ contents p ++ take size xs)
      × IsValid p'
      × (ret ≡ (
          if p.readers == 0
          then fail epipe
          else if p.filled == pipe_size
          then fail eagain
          else count size))
unfolding write_nonblock
write_nonblock-contents p xs v = elim (Bool-cases (p.readers == 0)) [
  | inl none_left ↦ rw none_left (sym (append-nil (contents p)), v, refl)
  | inr open_end ↦ elim (Bool-cases (pipe_size - p.filled == 0)) [
    | inl full ↦
        let nothing : min (pipe_size - p.filled) (length xs) ≡ 0 = ground arith in
        rw (open_end, full, nothing) (sym (append-nil (contents p)), v, ground arith)
    | inr space ↦
        let size = min (pipe_size - p.filled) (length xs) in
        let cut : (if ltb (pipe_size - p.filled) (length xs)
              then pipe_size - p.filled
              else length xs)
            ≡ size =
          ground arith in
        let fits : p.filled + length (take size xs) ≤ pipe_size =
          omega (arith, length-take size xs, v.room) in
        rw (open_end, space, cut)
          (
            contents-put_in p (take size xs) v fits,
            put_in-IsValid p (take size xs) v fits,
            ground arith,
          )
  ]
]

-- In a pipe that is not overfull, `pipe_poll` reports exactly what the non-blocking calls would do: nothing when they would
-- fail with EAGAIN, POLLERR when a write would fail with EPIPE, POLLHUP at the end of the file.
pub pipe_poll-nonblock :
    (p : Pipe) (n x : ℕ) (xs : List ℕ)
    → p.filled ≤ pipe_size
    → ((pipe_poll p o_rdonly ≡ 0) ↔ ((read_nonblock p (suc n)).0 ≡ fail eagain))
      × ((pipe_poll p o_rdonly ≡ pollin + pollhup) ↔ ((read_nonblock p (suc n)).0 ≡ count 0))
      × ((pipe_poll p o_wronly ≡ 0) ↔ ((write_nonblock p (x ∷ xs)).0 ≡ fail eagain))
      × ((pipe_poll p o_wronly ≡ pollerr) ↔ ((write_nonblock p (x ∷ xs)).0 ≡ fail epipe))
unfolding pipe_poll read_nonblock write_nonblock
pipe_poll-nonblock p n x xs h = (
  (ground arith, ground arith),
  (ground arith, ground arith),
  (ground arith, ground arith),
  (ground arith, ground arith),
)
