-- ===== src/Fs/Vfs/Files/Balance.antt =====
-- fs/vfs.c: the reference counts of the open files and the descriptors that refer to them.
use scepter.Fs.Errno.{fail, Ret, minus_one, count}
use scepter.Fs.Vfs.Files.Counts.{
  count_of-change_other, refs-free_fd_entry, refs, count_of-change, count_of-free,
  count_of-free_other, refs-append, refs-find_fd_entry, Holds, is_open-free, is_open-change,
  is_open-free_other,
}
use scepter.Base.Int.{ℤ, pos}
use scepter.Fs.Vfs.Files.{
  open_file_put, fs_close, Files, find_fd_entry, count_of, FdEntry, OpenCount, free_fd_entry, ℤ,
  pos, decrement, change_count, is_zero, free_open, close_target, fs_dup_min, fail, dup_to,
  add_fd_entry, lowest_free, increment, is_open,
}
use mathlib.Core.Path.{subst}
use scepter.Base.{
  ℕ, ◌==◌, one_if, some, arith, List, ◌∙◌, true, ◌+◌, sym, inr, ap, false, suc, Option-cases, inl,
  Bool, if◌then◌else◌, ◌≡◌, Bool-cases, refl, ◌≢◌, zero, none≢some, ◌∷◌, length, ◌-◌, ◌<◌, some_inj,
  ◌++◌, [], ltb,
}

ltb_positive : (n : ℕ) → ltb 0 (suc n) ≡ true
ltb_positive n = ground arith

if-Holds :
    (t : Bool) (a : ℕ) (u v : List OpenCount) (n : ℕ)
    → Holds a u n
    → Holds a v n
    → Holds a (if t then u else v) n
if-Holds true a u v n hu hv = hu
if-Holds false a u v n hu hv = hv

change-Holds_other :
    (a b : ℕ) (g : ℤ → ℤ) (os : List OpenCount) (n : ℕ)
    → a ≢ b
    → Holds b os n
    → Holds b (change_count a g os) n
change-Holds_other a b g os n h (e, o) =
    (count_of-change_other a b g os h ∙ e, is_open-change a b g os ∙ o)

-- One reference more, and one less.
increment-Holds :
    (a n : ℕ) (os : List OpenCount)
    → Holds a os (suc n)
    → Holds a (change_count a increment os) (suc (suc n))
increment-Holds a n os (e, o) = (
  count_of-change a increment os n e,
  is_open-change a a increment os ∙ o ∙ ltb_positive n ∙ sym (ltb_positive (suc n)),
)

freed_at_zero :
    (a n : ℕ) (os : List OpenCount)
    → count_of a os ≡ pos n
    → is_open a os ≡ true
    → Holds a (if is_zero (pos n) then free_open a os else os) n
freed_at_zero a zero os e o = (count_of-free a os, is_open-free a os)
freed_at_zero a (suc n) os e o = (e, o ∙ sym (ltb_positive n))

open_file_put-Holds :
    (a n : ℕ) (os : List OpenCount) → a ≢ 0 → Holds a os (suc n) → Holds a (open_file_put a os) n
unfolding open_file_put
open_file_put-Holds a n os ha (e, o) =
    let less : count_of a (change_count a decrement os) ≡ pos n =
      count_of-change a decrement os n e in
    let real : (a == 0) ≡ false = ground arith in
    rw (open_file_put, real, less)
      (freed_at_zero a n (change_count a decrement os) less
        (is_open-change a a decrement os ∙ o ∙ ltb_positive n))

open_file_put-Holds_other :
    (a b : ℕ) (os : List OpenCount) (n : ℕ) → a ≢ b → Holds b os n → Holds b (open_file_put a os) n
unfolding open_file_put
open_file_put-Holds_other a b os n h was =
    let (e, o) = change-Holds_other a b decrement os n h was in
    if-Holds (a == 0) b os _ n was (
      if-Holds _ b (free_open a (change_count a decrement os)) (change_count a decrement os) n
        (
          count_of-free_other a b (change_count a decrement os) h ∙ e,
          is_open-free_other a b (change_count a decrement os) h ∙ o,
        )
        (e, o))

-- Every open file is counted once for each descriptor of the current task and, by `held`, for
-- those of the other tasks; it is there where there is one, and freed where there is none.
abbrev pub IsCounted : (held : ℕ → ℕ) → Files → Type 0
IsCounted held s =
    (a : ℕ)
    → a ≢ 0
    → (count_of a s.opens ≡ pos (refs a s.entries + held a))
      × (is_open a s.opens ≡ ltb 0 (refs a s.entries + held a))

module _ (held : ℕ → ℕ) where
  pub closed-IsCounted :
      (fd : ℕ) (s : Files) (e : FdEntry)
      → find_fd_entry fd s.entries ≡ some e
      → IsCounted held s
      → IsCounted held
          (record s { opens = open_file_put e.file s.opens; entries = free_fd_entry fd s.entries })
  closed-IsCounted fd s e h c a ha =
      let freed = refs-free_fd_entry fd a s.entries e h in
      elim (Bool-cases (e.file == a)) [
        | inl t ↦
            let same : e.file ≡ a = ground arith in
            let one : one_if (e.file == a) ≡ 1 = ap one_if t in
            let more : refs a s.entries + held a
                ≡ suc (refs a (free_fd_entry fd s.entries) + held a) =
              omega arith in
            subst
              (λ f.
                Holds a (open_file_put f s.opens) (refs a (free_fd_entry fd s.entries) + held a))
              (sym same)
              (open_file_put-Holds a (refs a (free_fd_entry fd s.entries) + held a) s.opens ha
                (subst (Holds a s.opens) more (c a ha)))
        | inr t ↦
            let apart : e.file ≢ a = ground arith in
            let none_less : one_if (e.file == a) ≡ 0 = ap one_if t in
            let after : refs a s.entries + held a ≡ refs a (free_fd_entry fd s.entries) + held a =
              omega arith in
            open_file_put-Holds_other e.file a s.opens _ apart
              (subst (Holds a s.opens) after (c a ha))
      ]

  pub fs_close-IsCounted :
      (fd : ℕ) (s : Files) → IsCounted held s → IsCounted held (fs_close fd s).1
  unfolding fs_close
  fs_close-IsCounted fd s c = elim (Option-cases (find_fd_entry fd s.entries)) [
    | inl en ↦
        let eq : fs_close fd s ≡ (fail minus_one, s) = rw (fs_close, en) refl in
        subst (λ r. IsCounted held r.1) (sym eq) c
    | inr (e, ee) ↦
        let eq : fs_close fd s ≡ (
          count 0,
          record s { opens = open_file_put e.file s.opens; entries = free_fd_entry fd s.entries },
        ) =
          rw (fs_close, ee) refl in
        subst (λ r. IsCounted held r.1) (sym eq) (closed-IsCounted fd s e ee c)
  ]

  -- A new descriptor of a file that has one already.
  add_fd_entry-IsCounted :
      (e : FdEntry) (s : Files)
      → e.file ≢ 0
      → 0 < refs e.file s.entries
      → IsCounted held s
      → IsCounted held (add_fd_entry e s)
  add_fd_entry-IsCounted e s he hr c a ha =
      let total = refs-append a s.entries (e ∷ []) in
      elim (Bool-cases (e.file == a)) [
        | inl t ↦
            let same : e.file ≡ a = ground arith in
            let one : one_if (e.file == a) ≡ 1 = ap one_if t in
            let some_ref : 0 < refs a s.entries = subst (λ f. 0 < refs f s.entries) same hr in
            let before : refs a s.entries + held a ≡ suc (refs a s.entries + held a - 1) =
              omega arith in
            let after : suc (suc (refs a s.entries + held a - 1))
                ≡ refs a (s.entries ++ (e ∷ [])) + held a =
              omega arith in
            subst
              (λ f.
                Holds a (change_count f increment s.opens)
                  (refs a (s.entries ++ (e ∷ [])) + held a))
              (sym same)
              (subst (Holds a (change_count a increment s.opens)) after (
                increment-Holds a (refs a s.entries + held a - 1) s.opens
                  (subst (Holds a s.opens) before (c a ha))))
        | inr t ↦
            let apart : e.file ≢ a = ground arith in
            let none_more : one_if (e.file == a) ≡ 0 = ap one_if t in
            let after : refs a s.entries + held a ≡ refs a (s.entries ++ (e ∷ [])) + held a =
              omega arith in
            change-Holds_other e.file a increment s.opens _ apart
              (subst (Holds a s.opens) after (c a ha))
      ]

  pub dup_to-IsCounted :
      (room cloexec : Bool) (file newfd : ℕ) (s : Files)
      → file ≢ 0
      → 0 < refs file s.entries
      → IsCounted held s
      → IsCounted held (dup_to room cloexec file newfd s).1
  dup_to-IsCounted true cloexec file newfd s hf hr c =
      add_fd_entry-IsCounted (record { fd = newfd; cloexec = cloexec; file = file }) s hf hr c
  dup_to-IsCounted false cloexec file newfd s hf hr c = c

  pub fs_dup_min-IsCounted :
      (room : Bool) (oldfd minfd : ℕ) (cloexec : Bool) (s : Files) (r : Ret × Files)
      → IsCounted held s
      → fs_dup_min room oldfd minfd cloexec s ≡ some r
      → IsCounted held r.1
  unfolding fs_dup_min
  fs_dup_min-IsCounted room oldfd minfd cloexec s r c e =
      elim (Option-cases (find_fd_entry oldfd s.entries)) [
        | inl en ↦ subst (λ q. IsCounted held q.1) (some_inj (rw (fs_dup_min, en) at e)) c
        | inr (old, eo) ↦ elim (Bool-cases (old.file == 0)) [
          | inl t ↦ subst (λ q. IsCounted held q.1) (some_inj (rw (fs_dup_min, eo, t) at e)) c
          | inr t ↦
              let real : old.file ≢ 0 = ground arith in
              elim (Option-cases (lowest_free (suc (length s.entries)) s.entries minfd)) [
                | inl el ↦ absurd (none≢some r (rw (fs_dup_min, eo, t, el) at e))
                | inr (newfd, el) ↦
                    subst (λ q. IsCounted held q.1) (some_inj (rw (fs_dup_min, eo, t, el) at e))
                      (dup_to-IsCounted room cloexec old.file newfd s real
                        (refs-find_fd_entry oldfd s.entries old eo) c)
              ]
        ]
      ]

  pub close_target-IsCounted :
      (newfd : ℕ) (s : Files) → IsCounted held s → IsCounted held (close_target newfd s)
  unfolding close_target
  close_target-IsCounted newfd s c = elim (Option-cases (find_fd_entry newfd s.entries)) [
    | inl en ↦
        let eq : close_target newfd s ≡ s = rw (close_target, en) refl in
        subst (IsCounted held) (sym eq) c
    | inr (e, ee) ↦
        let eq : close_target newfd s ≡ record s {
          opens = open_file_put e.file s.opens;
          entries = free_fd_entry newfd s.entries;
        } =
          rw (close_target, ee) refl in
        subst (IsCounted held) (sym eq) (closed-IsCounted newfd s e ee c)
  ]
