-- ===== src/Tests/Pipe.antt =====
-- fs/pipe.c at a small pipe.
use scepter.Fs.Pipe.Write.{WriteDone, write_run-WriteDone}
use scepter.Fs.Pipe.Read.{ReadDone, read_run-ReadDone}
use scepter.Fs.Pipe.Invariant.{IsValid}
use scepter.Fs.Pipe.Nonblock.{read_nonblock-contents, pipe_poll-nonblock}
use scepter.Fs.Pipe.Ring.{contents}
use scepter.Fs.Errno.{count, fail, eagain, epipe}
use scepter.Fs.Pipe.Stream.{
  Flows, System, run, reads_nonblock, writes, closes_write, reads, closes_read, run-Flows,
}
use scepter.Fs.Pipe.{
  read_resume, read_nonblock, Round, pipe_poll, pipe_size, front, write_nonblock, Pipe, Wake,
  returns, o_rdonly, read_run, write_run, pollin, pollhup, o_wronly, pollerr,
}
use scepter.Base.{
  ℕ, ◌≡◌, refl, arith, ◌∷◌, [], ◌↔◌, ◌+◌, some, replicate, length-replicate, List, true, length-set,
  set, ◌∙◌, take, drop,
}

abbrev memory : List ℕ
memory = replicate pipe_size 0

-- A pipe with three bytes that lie around the end of the buffer.
abbrev wrapped : Pipe
wrapped = record {
  buf = set (set (set memory 4094 10) 4095 11) 0 12;
  head = 1;
  tail = 4094;
  filled = 3;
  readers = 1;
  writers = 1;
}

wrapped-IsValid : IsValid wrapped
wrapped-IsValid = record {
  storage =
      length-set (set (set memory 4094 10) 4095 11) 0 12
      ∙ length-set (set memory 4094 10) 4095 11
      ∙ length-set memory 4094 10
      ∙ length-replicate {A = ℕ} pipe_size 0;
  room = omega arith;
  tail_in = omega arith;
  next = refl;
}

reads_around : front wrapped 3 ≡ 10 ∷ 11 ∷ 12 ∷ []
reads_around = refl

reads_two : (read_nonblock wrapped 2).0 ≡ count 2
unfolding read_nonblock
reads_two = refl

waits_at_end : read_resume true (10 ∷ []) ≡ returns (count 1)
unfolding read_resume
waits_at_end = refl

read_run-ReadDone_example :
    (r : Round) × (p' : Pipe) × (got' : List ℕ) × (w : List Wake) × (read_run 2 wrapped [] 2
      ≡ some (r, p', got', w))
    × ReadDone wrapped [] 2 r p' got'
read_run-ReadDone_example = read_run-ReadDone wrapped [] 2 0 wrapped-IsValid (omega arith)

write_run-WriteDone_example :
    (r : Round) × (p' : Pipe) × (rest' : List ℕ) × (w : List Wake) × (write_run 2 wrapped 0
        (7 ∷ 8 ∷ [])
      ≡ some (r, p', rest', w))
    × WriteDone wrapped 0 (7 ∷ 8 ∷ []) r p' rest'
write_run-WriteDone_example = write_run-WriteDone wrapped 0 (7 ∷ 8 ∷ []) 0 wrapped-IsValid

read_nonblock-contents_example :
    let (ret, p', out, w) = read_nonblock wrapped 2 in
    (out ≡ take 2 (contents wrapped))
    × (contents p' ≡ drop 2 (contents wrapped))
    × IsValid p'
    × (ret ≡ count 2)
read_nonblock-contents_example = read_nonblock-contents wrapped 2 wrapped-IsValid

pipe_poll-nonblock_example :
    ((pipe_poll wrapped o_rdonly ≡ 0) ↔ ((read_nonblock wrapped 5).0 ≡ fail eagain))
    × ((pipe_poll wrapped o_rdonly ≡ pollin + pollhup) ↔ ((read_nonblock wrapped 5).0 ≡ count 0))
    × ((pipe_poll wrapped o_wronly ≡ 0) ↔ ((write_nonblock wrapped (7 ∷ [])).0 ≡ fail eagain))
    × ((pipe_poll wrapped o_wronly ≡ pollerr) ↔ ((write_nonblock wrapped (7 ∷ [])).0 ≡ fail epipe))
pipe_poll-nonblock_example = pipe_poll-nonblock wrapped 4 7 [] (omega arith)

abbrev opened : System
opened = record { pipe = some wrapped; sent = contents wrapped; received = [] }

opened-Flows : Flows opened
opened-Flows = (wrapped-IsValid, refl)

run-Flows_example : Flows (
    run opened
      (reads_nonblock 2 ∷ writes 0 (7 ∷ []) ∷ closes_write ∷ reads [] 9 ∷ closes_read ∷ []))
run-Flows_example =
    run-Flows opened
      (reads_nonblock 2 ∷ writes 0 (7 ∷ []) ∷ closes_write ∷ reads [] 9 ∷ closes_read ∷ [])
      opened-Flows
