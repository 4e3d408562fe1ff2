-- ===== src/Fs/Pipe/Write.antt =====
-- `pipe_write`: what a call has done when it returns or sleeps.
use scepter.Fs.Pipe.Invariant.{IsValid, contents-put_in, put_in-IsValid}
use scepter.Fs.Pipe.Ring.{contents}
use scepter.Base.{
  ℕ, ◌==◌, if◌then◌else◌, suc, leb, ◌-◌, ◌≢◌, [], drop, length, ◌⊎◌, min, ◌+◌, zero, ◌++◌, arith,
  ltb, refl, some, ◌≤◌, ◌≡◌, inl, inr, ◌∷◌, List, ◌<◌, take, Bool-cases, ap, length-drop, sym,
  append-nil, length-take,
}
use scepter.Fs.Pipe.{
  Pipe, Round, Wake, returns, sleeps, again, write_round, write_run, put_in, pipe_size,
}
use scepter.Fs.Pipe.{read_wq, poll}
use scepter.Fs.Errno.{count, fail, epipe}

-- How many of the bytes fit, if there is anyone to read them.
abbrev pub writable : Pipe → List ℕ → ℕ
writable p rest = if p.readers == 0 then 0 else min (pipe_size - p.filled) (length rest)

-- How the call stands once `total` bytes are in and `rest` cannot be.
abbrev pub write_verdict : (readers total : ℕ) → (rest : List ℕ) → Round
write_verdict readers total [] = returns (count total)
write_verdict readers total (x ∷ xs) =
    if readers == 0 then returns (if ltb 0 total then count total else fail epipe) else sleeps

-- `p'` and `rest'` are `p` and `rest` after the call.
pub record WriteDone (p : Pipe) (total : ℕ) (rest : List ℕ) (r : Round) (p' : Pipe) (rest' : List ℕ)
    : Type 0 where
  pub appended : contents p' ≡ contents p ++ take (writable p rest) rest
  pub left : rest' ≡ drop (writable p rest) rest
  pub verdict : r ≡ write_verdict p.readers (total + writable p rest) rest'
  pub valid : IsValid p'
  pub ends : (p'.readers ≡ p.readers) × (p'.writers ≡ p.writers)

-- Nothing to do for this call.
abbrev pub IsStuck : Pipe → List ℕ → Type 0
IsStuck p rest = (rest ≡ []) ⊎ ((p.readers ≡ 0) ⊎ (pipe_size ≤ p.filled))

-- A round that finds space.
pub write_round_space :
    (p : Pipe) (total : ℕ) (rest : List ℕ)
    → rest ≢ []
    → p.readers ≢ 0
    → p.filled < pipe_size
    → write_round p total rest ≡ (
      again,
      put_in p (take (writable p rest) rest),
      drop (writable p rest) rest,
      read_wq ∷ poll ∷ [],
    )
unfolding write_round
write_round_space p total [] some_bytes open_end space = absurd (some_bytes refl)
write_round_space p total (x ∷ xs) some_bytes open_end space = ground arith

-- A round that moves no byte.
pub write_round_idle :
    (p : Pipe) (total : ℕ) (rest : List ℕ)
    → IsStuck p rest
    → ((write_round p total rest).1 ≡ p) × ((write_round p total rest).2 ≡ rest)
unfolding write_round
write_round_idle p total [] stop = (refl, refl)
write_round_idle p total (x ∷ xs) (inl e) = absurd (cc)
write_round_idle p total (x ∷ xs) (inr stop) = ground arith

-- A round that finds none, no reader, or nothing to write, ends the call.
write_run_end :
    (p : Pipe) (total : ℕ) (rest : List ℕ) (f : ℕ)
    → (rest ≡ []) ⊎ ((p.readers ≡ 0) ⊎ (pipe_size ≤ p.filled))
    → write_run (suc f) p total rest ≡ some (write_verdict p.readers total rest, p, rest, [])
unfolding write_run write_round
write_run_end p total [] f stop = refl
write_run_end p total (x ∷ xs) f (inl e) = absurd (cc)
write_run_end p total (x ∷ xs) f (inr stop) = ground arith

-- A round that goes on, and the rest of the call.
write_run_again :
    (f total : ℕ) (p : Pipe) (rest : List ℕ) {p' q : Pipe} {rest' rest'' : List ℕ}
    {w w' : List Wake} {r : Round}
    → write_round p total rest ≡ (again, p', rest', w)
    → write_run f p' (total + (length rest - length rest')) rest' ≡ some (r, q, rest'', w')
    → write_run (suc f) p total rest ≡ some (r, q, rest'', w ++ w')
unfolding write_run
write_run_again f total p rest first next = rw (first, write_run) (simp (first, next))

drop_all : (n : ℕ) (rest : List ℕ) → length rest ≤ n → drop n rest ≡ []
drop_all zero [] h = refl
drop_all zero (x ∷ xs) h = absurd (omega arith)
drop_all (suc n) [] h = refl
drop_all (suc n) (x ∷ xs) h = drop_all n xs (omega arith)

-- After a round that found space there is nothing more to do.
IsStuck-after :
    (p : Pipe) (rest : List ℕ)
    → p.readers ≢ 0
    → length (take (writable p rest) rest) ≡ writable p rest
    → p.filled ≤ pipe_size
    → IsStuck (put_in p (take (writable p rest) rest)) (drop (writable p rest) rest)
unfolding put_in
IsStuck-after p rest open_end size room =
    elim (Bool-cases (leb (length rest) (pipe_size - p.filled))) [
      | inl fits ↦ inl (drop_all (writable p rest) rest (ground arith))
      | inr full ↦ inr (inr (ground arith))
    ]

pub writable-le : (p : Pipe) (rest : List ℕ) → writable p rest ≤ length rest
writable-le p rest = ground arith

pub IsStuck-or_space :
    (p : Pipe) (rest : List ℕ)
    → IsStuck p rest ⊎ ((rest ≢ []) × (p.readers ≢ 0) × (p.filled < pipe_size))
IsStuck-or_space p [] = inl (inl refl)
IsStuck-or_space p (x ∷ xs) = elim (Bool-cases (p.readers == 0)) [
  | inl none_left ↦ inl (inr (inl (ground arith)))
  | inr open_end ↦ elim (Bool-cases (ltb p.filled pipe_size)) [
    | inl space ↦ inr ((λ e. cc), ground arith, ground arith)
    | inr full ↦ inl (inr (inr (ground arith)))
  ]
]

writable_stuck : (p : Pipe) (rest : List ℕ) → IsStuck p rest → writable p rest ≡ 0
writable_stuck p rest (inl e) = rw e (ground arith)
writable_stuck p rest (inr stop) = ground arith

-- In a valid pipe `pipe_write` appends as many of its bytes as there is space for, in order, while a reader is
-- left; then it returns how many it wrote if it wrote all of them or no reader is left (EPIPE
-- if it wrote none), and sleeps otherwise. Two rounds are enough.
pub write_run-WriteDone :
    (p : Pipe) (total : ℕ) (rest : List ℕ) (f : ℕ)
    → IsValid p
    → (r : Round) × (p' : Pipe) × (rest' : List ℕ) × (w : List Wake) × (write_run
          (suc (suc f))
          p
          total
          rest
        ≡ some (r, p', rest', w))
      × WriteDone p total rest r p' rest'
unfolding put_in
write_run-WriteDone p total rest f v = elim (IsStuck-or_space p rest) [
  | inl stop ↦
      let nothing = writable_stuck p rest stop in
      (
        write_verdict p.readers total rest,
        p,
        rest,
        [],
        write_run_end p total rest (suc f) stop,
        record {
          appended = rw nothing (sym (append-nil (contents p)));
          left = rw nothing;
          verdict = ap (λ t. write_verdict p.readers t rest) (omega (arith, nothing));
          valid = v;
          ends = (refl, refl);
        },
      )
  | inr (some_bytes, open_end, space) ↦
      let n = writable p rest in
      let p' = put_in p (take n rest) in
      let size : length (take n rest) ≡ n = omega (arith, length-take n rest, writable-le p rest) in
      let sum : total + (length rest - length (drop n rest)) ≡ total + n =
        omega (arith, length-drop n rest, writable-le p rest) in
      let fits : p.filled + length (take n rest) ≤ pipe_size = ground arith in
      (
        write_verdict p.readers (total + n) (drop n rest),
        p',
        drop n rest,
        (read_wq ∷ poll ∷ []) ++ [],
        write_run_again (suc f) total p rest
            (write_round_space p total rest some_bytes open_end space)
            (rw sum (
              write_run_end p' (total + n) (drop n rest) f
                (IsStuck-after p rest open_end size v.room))),
        record {
          appended = contents-put_in p (take n rest) v fits;
          left = refl;
          verdict = refl;
          valid = put_in-IsValid p (take n rest) v fits;
          ends = (refl, refl);
        },
      )
]
