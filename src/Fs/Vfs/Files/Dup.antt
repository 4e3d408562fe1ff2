-- ===== src/Fs/Vfs/Files/Dup.antt =====
-- fs/vfs.c: dup(), dup2() and the loops that close descriptors, and the reference counts.
use scepter.Fs.Vfs.Files.Counts.{refs-set_cloexec, refs-find_fd_entry, Holds}
use scepter.Fs.Errno.{Ret, fail, minus_one, count}
use scepter.Fs.Vfs.Files.Balance.{
  IsCounted, fs_close-IsCounted, fs_dup_min-IsCounted, dup_to-IsCounted, close_target-IsCounted,
}
use scepter.Fs.Vfs.Files.{
  find_fd_entry, Files, close_marked, fs_close_on_exec, close_between, close_target, fs_dup2_fd,
  free_fd_entry, fs_close_range, FdEntry, fs_close, fail, Ret, fs_dup_min, set_cloexec, dup_to,
  is_negative, int_leb,
}
use mathlib.Core.Path.{subst}
use scepter.Base.{
  ℕ, ◌∙◌, ◌≢◌, ◌∷◌, Option-cases, ◌≡◌, [], refl, ◌&&◌, some, List, if◌then◌else◌, ◌==◌, sym, Bool,
  inl, ◌+◌, false, inr, Bool-cases, arith, true, Option, none,
}

find_fd_entry-free_other :
    (fd other : ℕ) (es : List FdEntry)
    → (fd == other) ≡ false
    → find_fd_entry fd (free_fd_entry other es) ≡ find_fd_entry fd es
unfolding find_fd_entry free_fd_entry
find_fd_entry-free_other fd other [] h = refl
find_fd_entry-free_other fd other (e ∷ es) h = elim (Bool-cases (e.fd == other)) [
  | inl t ↦
      let apart : (e.fd == fd) ≡ false = ground arith in
      rw (free_fd_entry, t, find_fd_entry, apart) refl
  | inr t ↦
      let ih = find_fd_entry-free_other fd other es h in
      rw (free_fd_entry, t, find_fd_entry, ih) refl
]

find_fd_entry-close_target :
    (fd other : ℕ) (s : Files)
    → (fd == other) ≡ false
    → find_fd_entry fd (close_target other s).entries ≡ find_fd_entry fd s.entries
unfolding close_target
find_fd_entry-close_target fd other s h = elim (Option-cases (find_fd_entry other s.entries)) [
  | inl en ↦ rw (close_target, en) refl
  | inr (e, ee) ↦ rw (close_target, ee) (find_fd_entry-free_other fd other s.entries h)
]

module _ (held : ℕ → ℕ) where
  fs_dup2_fd-IsCounted :
      (room : Bool) (oldfd newfd : ℕ) (cloexec : Bool) (s : Files)
      → IsCounted held s
      → IsCounted held (fs_dup2_fd room oldfd newfd cloexec s).1
  unfolding fs_dup2_fd
  fs_dup2_fd-IsCounted room oldfd newfd cloexec s c = elim (Bool-cases (is_negative newfd)) [
    | inl neg ↦
        let eq : fs_dup2_fd room oldfd newfd cloexec s ≡ (fail minus_one, s) =
          rw (fs_dup2_fd, neg) refl in
        subst (λ r. IsCounted held r.1) (sym eq) c
    | inr neg ↦ elim (Option-cases (find_fd_entry oldfd s.entries)) [
      | inl en ↦
          let eq : fs_dup2_fd room oldfd newfd cloexec s ≡ (fail minus_one, s) =
            rw (fs_dup2_fd, neg, en) refl in
          subst (λ r. IsCounted held r.1) (sym eq) c
      | inr (old, eo) ↦ elim (Bool-cases (oldfd == newfd)) [
        | inl t ↦
            let eq : fs_dup2_fd room oldfd newfd cloexec s
                ≡ (count newfd, record s { entries = set_cloexec oldfd cloexec s.entries }) =
              rw (fs_dup2_fd, neg, eo, t) refl in
            subst (λ r. IsCounted held r.1) (sym eq)
              (λ a ha.
                subst (λ n. Holds a s.opens (n + held a))
                  (sym (refs-set_cloexec oldfd a cloexec s.entries)) (c a ha))
        | inr t ↦ elim (Bool-cases (old.file == 0)) [
          | inl z ↦
              let eq : fs_dup2_fd room oldfd newfd cloexec s ≡ (fail minus_one, s) =
                rw (fs_dup2_fd, neg, eo, t, z) refl in
              subst (λ r. IsCounted held r.1) (sym eq) c
          | inr z ↦
              let real : old.file ≢ 0 = ground arith in
              let eq : fs_dup2_fd room oldfd newfd cloexec s
                  ≡ dup_to room cloexec old.file newfd (close_target newfd s) =
                rw (fs_dup2_fd, neg, eo, t, z) refl in
              let kept = find_fd_entry-close_target oldfd newfd s t ∙ eo in
              subst (λ r. IsCounted held r.1) (sym eq)
                (dup_to-IsCounted held room cloexec old.file newfd (close_target newfd s) real
                  (refs-find_fd_entry oldfd (close_target newfd s).entries old kept)
                  (close_target-IsCounted held newfd s c))
        ]
      ]
    ]
  ]

  if-IsCounted :
      (t : Bool) (s s' : Files)
      → IsCounted held s
      → IsCounted held s'
      → IsCounted held (if t then s else s')
  if-IsCounted true s s' c c' = c
  if-IsCounted false s s' c c' = c'

  close_marked-IsCounted :
      (es : List FdEntry) (s : Files) → IsCounted held s → IsCounted held (close_marked es s)
  unfolding close_marked
  close_marked-IsCounted [] s c = c
  close_marked-IsCounted (e ∷ es) s c =
      close_marked-IsCounted es (if e.cloexec then (fs_close e.fd s).1 else s)
        (if-IsCounted e.cloexec (fs_close e.fd s).1 s (fs_close-IsCounted held e.fd s c) c)

  close_between-IsCounted :
      (first last : ℕ) (es : List FdEntry) (closed : ℕ) (s : Files)
      → IsCounted held s
      → IsCounted held (close_between first last es closed s).1
  unfolding close_between
  close_between-IsCounted first last [] closed s c = c
  close_between-IsCounted first last (e ∷ es) closed s c =
      let hit = int_leb first e.fd && int_leb e.fd last in
      close_between-IsCounted first last es (if hit then closed + 1 else closed)
        (if hit then (fs_close e.fd s).1 else s)
        (if-IsCounted hit (fs_close e.fd s).1 s (fs_close-IsCounted held e.fd s c) c)

-- The calls that change the descriptors of a task.
pub data Call : Type 0 where
  close : (fd : ℕ) → Call
  dup : (room : Bool) → (oldfd minfd : ℕ) → (cloexec : Bool) → Call
  dup2 : (room : Bool) → (oldfd newfd : ℕ) → (cloexec : Bool) → Call
  on_exec : Call
  close_range : (first last : ℕ) → Call

-- The state after a call; one whose loop ran out of fuel would leave it as it is.
abbrev pub after_dup : Files → Option (Ret × Files) → Files
after_dup s none = s
after_dup s (some r) = r.1

abbrev pub after_call : Call → Files → Files
after_call (close fd) s = (fs_close fd s).1
after_call (dup room oldfd minfd cloexec) s = after_dup s (fs_dup_min room oldfd minfd cloexec s)
after_call (dup2 room oldfd newfd cloexec) s = (fs_dup2_fd room oldfd newfd cloexec s).1
after_call on_exec s = fs_close_on_exec s
after_call (close_range first last) s = (fs_close_range first last s).1

after_dup-IsCounted :
    (held : ℕ → ℕ) (room : Bool) (oldfd minfd : ℕ) (cloexec : Bool) (s : Files)
    → IsCounted held s
    → IsCounted held (after_dup s (fs_dup_min room oldfd minfd cloexec s))
after_dup-IsCounted held room oldfd minfd cloexec s c =
    elim (Option-cases (fs_dup_min room oldfd minfd cloexec s)) [
      | inl en ↦ subst (λ o. IsCounted held (after_dup s o)) (sym en) c
      | inr (r, er) ↦
          subst (λ o. IsCounted held (after_dup s o)) (sym er)
            (fs_dup_min-IsCounted held room oldfd minfd cloexec s r c er)
    ]

-- While every open file is counted once for each descriptor of this task and of the others, and is
-- freed exactly where there is none, that stays so whatever close, dup, dup2, exec and close_range
-- do, with memory or without.
pub after_call-IsCounted :
    (held : ℕ → ℕ) (s : Files) (call : Call) → IsCounted held s → IsCounted held (after_call call s)
unfolding fs_close_on_exec fs_close_range
after_call-IsCounted held s (close fd) c = fs_close-IsCounted held fd s c
after_call-IsCounted held s (dup room oldfd minfd cloexec) c =
    after_dup-IsCounted held room oldfd minfd cloexec s c
after_call-IsCounted held s (dup2 room oldfd newfd cloexec) c =
    fs_dup2_fd-IsCounted held room oldfd newfd cloexec s c
after_call-IsCounted held s on_exec c = close_marked-IsCounted held s.entries s c
after_call-IsCounted held s (close_range first last) c =
    close_between-IsCounted held first last s.entries 0 s c
