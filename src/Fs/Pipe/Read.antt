-- ===== src/Fs/Pipe/Read.antt =====
-- `pipe_read`: what a call has done when it returns or sleeps.
use scepter.Fs.Pipe.Invariant.{IsValid, take_out-IsValid}
use scepter.Fs.Pipe.Ring.{contents, take-read_bytes, length-read_bytes, contents-take_out}
use scepter.Fs.Errno.{count}
use scepter.Fs.Pipe.{
  Pipe, read_round, Round, again, Wake, take_out, returns, write_wq, sleeps, poll, read_run,
}
use scepter.Base.{
  ℕ, List, length, ◌≤◌, min, ◌≡◌, ◌⊎◌, ◌-◌, if◌then◌else◌, ◌<◌, leb, ◌++◌, take, Bool-cases, inl,
  ◌==◌, [], drop, ◌∷◌, arith, inr, ◌+◌, ltb, some, suc, refl, ◌&&◌, length-take, length-append, sym,
  append-nil,
}

-- What is left of the bytes asked for, and in the pipe.
abbrev pub readable : Pipe → (got : List ℕ) → ℕ → ℕ
readable p got n = min (n - length got) p.filled

-- How the call stands once `got` is all that it can have.
abbrev pub read_verdict : (writers : ℕ) → (got : List ℕ) → ℕ → Round
read_verdict writers got n =
    if leb n (length got)
    then returns (count (length got))
    else if writers == 0
    then returns (count (length got))
    else sleeps

-- `p'` and `got'` are `p` and `got` after the call.
pub record ReadDone (p : Pipe) (got : List ℕ) (n : ℕ) (r : Round) (p' : Pipe) (got' : List ℕ)
    : Type 0 where
  pub copied : got' ≡ got ++ take (readable p got n) (contents p)
  pub left : contents p' ≡ drop (readable p got n) (contents p)
  pub verdict : r ≡ read_verdict p.writers got' n
  pub valid : IsValid p'
  pub ends : (p'.readers ≡ p.readers) × (p'.writers ≡ p.writers)

-- A round that finds data.
pub read_round_data :
    (p : Pipe) (got : List ℕ) (n : ℕ)
    → length got < n
    → 0 < p.filled
    → read_round p got n ≡ (
      again,
      take_out p (readable p got n),
      got ++ take (readable p got n) (contents p),
      write_wq ∷ poll ∷ [],
    )
unfolding read_round
read_round_data p got n more some_bytes =
    ground (arith, take-read_bytes p.buf p.tail 0 (readable p got n) p.filled (omega arith))

-- A round that moves no byte.
pub read_round_idle :
    (p : Pipe) (got : List ℕ) (n : ℕ)
    → (n ≤ length got) ⊎ (p.filled ≡ 0)
    → ((read_round p got n).1 ≡ p) × ((read_round p got n).2 ≡ got)
unfolding read_round
read_round_idle p got n stop = ground arith

-- A round that finds none, or that has all it wants, ends the call.
read_run_end :
    (p : Pipe) (got : List ℕ) (n f : ℕ)
    → (n ≤ length got) ⊎ (p.filled ≡ 0)
    → (w : List Wake) × (read_run (suc f) p got n ≡ some (read_verdict p.writers got n, p, got, w))
unfolding read_run read_round
read_run_end p got n f stop = elim (Bool-cases (leb n (length got))) [
  | inl all ↦ ([], ground arith)
  | inr more ↦ elim (Bool-cases (p.writers == 0)) [
    | inl eof ↦ (poll ∷ [], ground arith)
    | inr more_to_come ↦ ([], ground arith)
  ]
]

length-contents : (p : Pipe) → length (contents p) ≡ p.filled
length-contents p = length-read_bytes p.buf p.tail 0 p.filled

-- A round that goes on, and the rest of the call.
read_run_again :
    (f n : ℕ) (p : Pipe) (got : List ℕ) {p' q : Pipe} {got' bytes : List ℕ} {w w' : List Wake}
    {r : Round}
    → read_round p got n ≡ (again, p', got', w)
    → read_run f p' got' n ≡ some (r, q, bytes, w')
    → read_run (suc f) p got n ≡ some (r, q, bytes, w ++ w')
unfolding read_run
read_run_again f n p got first rest = rw (first, read_run) (simp (first, rest))

-- After a round that found data there is nothing more to do.
stops :
    (p : Pipe) (got : List ℕ) (n : ℕ) (got' : List ℕ)
    → length got ≤ n
    → length got' ≡ length got + readable p got n
    → (n ≤ length got') ⊎ ((take_out p (readable p got n)).filled ≡ 0)
unfolding take_out
stops p got n got' small full = elim (Bool-cases (leb (n - length got) p.filled)) [
  | inl enough ↦ inl (ground arith)
  | inr short ↦ inr (ground arith)
]

-- In a valid pipe `pipe_read` moves as many of the oldest bytes as were asked for and are there, in order, and
-- leaves the rest; then it returns their number if it has all that was asked for or no writer is
-- left, and sleeps otherwise. Two rounds are enough.
pub read_run-ReadDone :
    (p : Pipe) (got : List ℕ) (n f : ℕ)
    → IsValid p
    → length got ≤ n
    → (r : Round) × (p' : Pipe) × (got' : List ℕ) × (w : List Wake) × (read_run
          (suc (suc f))
          p
          got
          n
        ≡ some (r, p', got', w))
      × ReadDone p got n r p' got'
unfolding take_out
read_run-ReadDone p got n f v small = elim (Bool-cases (ltb (length got) n && ltb 0 p.filled)) [
  | inl more ↦
      let size = readable p got n in
      let p' = take_out p size in
      let got' = got ++ take size (contents p) in
      let full : length got' ≡ length got + size = omega (
        arith,
        length-append got (take size (contents p)),
        length-take size (contents p),
        length-contents p,
      ) in
      let (w, e) = read_run_end p' got' n f (stops p got n got' small full) in
      (
        read_verdict p.writers got' n,
        p',
        got',
        (write_wq ∷ poll ∷ []) ++ w,
        read_run_again (suc f) n p got (read_round_data p got n (ground arith) (ground arith)) e,
        record {
          copied = refl;
          left = contents-take_out p size (omega arith);
          verdict = refl;
          valid = take_out-IsValid p size v (omega arith);
          ends = (refl, refl);
        },
      )
  | inr stop ↦
      let (w, e) = read_run_end p got n (suc f) (ground arith) in
      let none_left : readable p got n ≡ 0 = ground arith in
      (
        read_verdict p.writers got n,
        p,
        got,
        w,
        e,
        record {
          copied = rw none_left (sym (append-nil got));
          left = rw none_left;
          verdict = refl;
          valid = v;
          ends = (refl, refl);
        },
      )
]
