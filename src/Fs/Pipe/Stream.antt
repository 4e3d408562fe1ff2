-- ===== src/Fs/Pipe/Stream.antt =====
-- fs/pipe.c: interleavings of readers, writers and closes.
use scepter.Fs.Pipe.Write.{
  IsStuck-or_space, write_round_idle, writable, writable-le, write_round_space,
}
use scepter.Fs.Pipe.Nonblock.{read_nonblock-contents, write_nonblock-contents}
use scepter.Fs.Pipe.Read.{readable, read_round_data, read_round_idle}
use scepter.Fs.Pipe.Ring.{contents, contents-take_out}
use scepter.Fs.Pipe.Invariant.{IsValid, contents-put_in, take_out-IsValid, put_in-IsValid}
use scepter.Fs.Errno.{Ret, count, fail}
use scepter.Base.{
  ℕ, ◌∷◌, some, ◌-◌, take, [], List, ◌≡◌, drop, length, none, ◌++◌, Option, sym, ◌∙◌, drop-length,
  take-append-drop, inl, ◌≤◌, ltb, ◌&&◌, append-nil, ◌+◌, append_assoc, drop-length-append, ap, inr,
  arith, Bool-cases, length-drop, length-take, min, if◌then◌else◌, ◌==◌,
}
use scepter.Fs.Pipe.{
  Pipe, read_round, write_round, read_nonblock, write_nonblock, pipe_read_release,
  pipe_write_release, pipe_size, take_out, put_in, release,
}

-- One round of some process, or a close. A read round starts with `got` already copied.
pub data Event : Type 0 where
  reads : (got : List ℕ) → ℕ → Event
  writes : (total : ℕ) → (rest : List ℕ) → Event
  reads_nonblock : ℕ → Event
  writes_nonblock : List ℕ → Event
  closes_read closes_write : Event

-- How many bytes a call says that it wrote.
abbrev pub written : Ret → ℕ
written (count n) = n
written (fail e) = 0

-- The pipe, with all that was ever put in and taken out. A freed pipe is `none`.
pub record System : Type 0 where
  pub pipe : Option Pipe
  pub sent : List ℕ
  pub received : List ℕ

abbrev pub step_open : Pipe → List ℕ → List ℕ → Event → System
step_open p sent received (reads got n) =
    let (r, p', got', w) = read_round p got n in
    record { pipe = some p'; sent = sent; received = received ++ drop (length got) got' }
step_open p sent received (writes total rest) =
    let (r, p', rest', w) = write_round p total rest in
    record {
      pipe = some p';
      sent = sent ++ take (length rest - length rest') rest;
      received = received;
    }
step_open p sent received (reads_nonblock n) =
    let (ret, p', out, w) = read_nonblock p n in
    record { pipe = some p'; sent = sent; received = received ++ out }
step_open p sent received (writes_nonblock xs) =
    let (ret, p', w) = write_nonblock p xs in
    record { pipe = some p'; sent = sent ++ take (written ret) xs; received = received }
step_open p sent received closes_read = record {
  pipe = (pipe_read_release p).0;
  sent = sent;
  received = received;
}
step_open p sent received closes_write = record {
  pipe = (pipe_write_release p).0;
  sent = sent;
  received = received;
}

abbrev pub step_at : Option Pipe → (sent received : List ℕ) → Event → System
step_at none sent received e = record { pipe = none; sent = sent; received = received }
step_at (some p) sent received e = step_open p sent received e

pub step : System → Event → System
step s e = step_at s.pipe s.sent s.received e

pub run : System → List Event → System
run s [] = s
run s (e ∷ es) = run (step s e) es

-- What was received is what was sent, but for the bytes that are in the pipe, or that were lost
-- when both sides were closed.
abbrev pub FlowsAt : Option Pipe → (sent received : List ℕ) → Type 0
FlowsAt none sent received = (lost : List ℕ) × (sent ≡ received ++ lost)
FlowsAt (some p) sent received = IsValid p × (sent ≡ received ++ contents p)

abbrev pub Flows : System → Type 0
Flows s = FlowsAt s.pipe s.sent s.received

module _ (p : Pipe) (sent received : List ℕ) (v : IsValid p)
    (flows : sent ≡ received ++ contents p) where
  -- Moving `m` bytes out.
  flows-take_out :
      (m : ℕ) → m ≤ p.filled → sent ≡ (received ++ take m (contents p)) ++ contents (take_out p m)
  flows-take_out m h =
      flows
      ∙ sym (
          append_assoc received (take m (contents p)) (contents (take_out p m))
          ∙ ap (λ r. received ++ (take m (contents p) ++ r)) (contents-take_out p m h)
          ∙ ap (◌++◌ received) (take-append-drop m (contents p)))

  flows-put_in :
      (xs : List ℕ)
      → p.filled + length xs ≤ pipe_size
      → sent ++ xs ≡ received ++ contents (put_in p xs)
  flows-put_in xs h =
      ap (λ s. s ++ xs) flows
      ∙ append_assoc received (contents p) xs
      ∙ ap (◌++◌ received) (sym (contents-put_in p xs v h))

  reads-Flows : (got : List ℕ) (n : ℕ) → Flows (step_open p sent received (reads got n))
  reads-Flows got n = elim (Bool-cases (ltb (length got) n && ltb 0 p.filled)) [
    | inl more ↦
        let m = readable p got n in
        let h : m ≤ p.filled = omega arith in
        rw (read_round_data p got n (ground arith) (ground arith)) (
          take_out-IsValid p m v h,
          rw (drop-length-append got (take m (contents p))) (flows-take_out m h),
        )
    | inr stop ↦
        let (same, none_copied) = read_round_idle p got n (ground arith) in
        rw (same, none_copied, drop-length got, append-nil received) (v, flows)
  ]

  writes-Flows : (total : ℕ) (rest : List ℕ) → Flows (step_open p sent received (writes total rest))
  writes-Flows total rest = elim (IsStuck-or_space p rest) [
    | inl stop ↦
        let (same, none_written) = write_round_idle p total rest stop in
        let nothing : length rest - length rest ≡ 0 = omega arith in
        rw (same, none_written, nothing, append-nil sent) (v, flows)
    | inr (some_bytes, open_end, space) ↦
        let m = writable p rest in
        let size : length (take m rest) ≡ m =
          omega (arith, length-take m rest, writable-le p rest) in
        let moved : length rest - length (drop m rest) ≡ m =
          omega (arith, length-drop m rest, writable-le p rest) in
        let fits : p.filled + length (take m rest) ≤ pipe_size = ground arith in
        rw (write_round_space p total rest some_bytes open_end space, moved)
          (put_in-IsValid p (take m rest) v fits, flows-put_in (take m rest) fits)
  ]

  reads_nonblock-Flows : (n : ℕ) → Flows (step_open p sent received (reads_nonblock n))
  reads_nonblock-Flows n =
      let (out, left, v', ret) = read_nonblock-contents p n v in
      (
        v',
        rw (out, left)
            (flows
              ∙ ap (◌++◌ received) (sym (take-append-drop (min n p.filled) (contents p)))
              ∙ sym (append_assoc received _ _)),
      )

  writes_nonblock-Flows : (xs : List ℕ) → Flows (step_open p sent received (writes_nonblock xs))
  writes_nonblock-Flows xs =
      let (put, v', ret) = write_nonblock-contents p xs v in
      let k = if p.readers == 0 then 0 else min (pipe_size - p.filled) (length xs) in
      let moved : written (write_nonblock p xs).0 ≡ k = rw ret (ground (arith, v.room)) in
      (
        v',
        rw (moved, put)
            (ap (λ s. s ++ take k xs) flows ∙ append_assoc received (contents p) (take k xs)),
      )

  release-Flows :
      (r w : ℕ) → FlowsAt (release (record p { readers = r; writers = w })) sent received
  unfolding release
  release-Flows r w = elim (Bool-cases ((r == 0) && (w == 0))) [
    | inl freed ↦ rw freed (contents p, flows)
    | inr held ↦
        rw held
          (record { storage = v.storage; room = v.room; tail_in = v.tail_in; next = v.next }, flows)
  ]

  step_open-Flows : (e : Event) → Flows (step_open p sent received e)
  unfolding pipe_read_release pipe_write_release
  step_open-Flows (reads got n) = reads-Flows got n
  step_open-Flows (writes total rest) = writes-Flows total rest
  step_open-Flows (reads_nonblock n) = reads_nonblock-Flows n
  step_open-Flows (writes_nonblock xs) = writes_nonblock-Flows xs
  step_open-Flows closes_read = release-Flows _ p.writers
  step_open-Flows closes_write = release-Flows p.readers _

step_at-Flows :
    (o : Option Pipe) (sent received : List ℕ) (e : Event)
    → FlowsAt o sent received
    → Flows (step_at o sent received e)
step_at-Flows none sent received e h = h
step_at-Flows (some p) sent received e (v, h) = step_open-Flows p sent received v h e

-- From a state for which this holds, whatever rounds of readers and writers follow one another, blocking or not, and whatever ends
-- are closed: what was received is, in order, what was sent, but for the bytes that are still in
-- the pipe, or that were lost when both sides were closed.
pub run-Flows : (s : System) (es : List Event) → Flows s → Flows (run s es)
unfolding run step
run-Flows s [] h = h
run-Flows s (e ∷ es) h = run-Flows (step s e) es (step_at-Flows s.pipe s.sent s.received e h)
