-- ===== src/Fs/Vfs/Files/Lowest.antt =====
-- The number that fs_dup_min of fs/vfs.c gives a descriptor.
use scepter.Fs.Errno.{count}
use mathlib.Core.Path.{subst}
use scepter.Fs.Vfs.Files.{
  lowest_free, FdEntry, has_fd, find_fd_entry, fs_dup_min, Files, count, add_fd_entry, next_int,
}
use scepter.Base.{
  ℕ, ◌&&◌, ◌<◌, Bool, ◌==◌, one_if, inl, false, true≢false, [], ◌≤◌, true, Bool-cases, zero, some,
  leb, length, sym, List, inr, ◌∷◌, suc, arith, ◌≡◌, ◌+◌, ◌++◌, ◌≢◌, ◌∙◌, ==_refl, refl, ==_of_ne,
  ap, ◌^◌,
}

-- The number of descriptors from `n` on.
abbrev above : ℕ → List FdEntry → ℕ
above n [] = 0
above n (e ∷ es) = one_if (leb n e.fd) + above n es

above-suc : (n : ℕ) (es : List FdEntry) → above (suc n) es ≤ above n es
above-suc n [] = omega arith
above-suc n (e ∷ es) = let ih = above-suc n es in ground arith

above-has_fd : (n : ℕ) (es : List FdEntry) → has_fd n es ≡ true → above (suc n) es < above n es
above-has_fd n [] h = absurd (true≢false (sym h))
above-has_fd n (e ∷ es) h = elim (Bool-cases (e.fd == n)) [
  | inl t ↦ let ih = above-suc n es in ground arith
  | inr t ↦ let ih = above-has_fd n es (rw t at h) in ground arith
]

above-bound : (n : ℕ) (es : List FdEntry) → above n es ≤ length es
above-bound n [] = omega arith
above-bound n (e ∷ es) = let ih = above-bound n es in ground arith

-- All of `n`, `n + 1`, …, `n + d - 1` are in use.
abbrev pub all_used : List FdEntry → (n d : ℕ) → Bool
all_used es n zero = true
all_used es n (suc d) = has_fd n es && all_used es (suc n) d

lowest_free_lem :
    (fuel n : ℕ) (es : List FdEntry)
    → above n es < fuel
    → n + fuel < 2 ^ 32
    → (d : ℕ) × ((lowest_free fuel es n ≡ some (n + d))
        × ((has_fd (n + d) es ≡ false) × (all_used es n d ≡ true)))
unfolding lowest_free
lowest_free_lem zero n es h room = absurd (omega arith)
lowest_free_lem (suc fuel) n es h room = elim (Bool-cases (has_fd n es)) [
  | inl t ↦
      let next : next_int n ≡ suc n = omega arith in
      let (d, (e, (free, used))) =
        lowest_free_lem fuel (suc n) es (omega (arith, above-has_fd n es t)) (omega arith) in
      let shift : suc n + d ≡ n + suc d = omega arith in
      (
        suc d,
        (
          rw t (ap (lowest_free fuel es) next ∙ e ∙ ap some shift),
          (subst (λ k. has_fd k es ≡ false) shift free, rw t used),
        ),
      )
  | inr t ↦
      let none_used : n ≡ n + 0 = omega arith in
      (0, (rw t (ap some none_used), (subst (λ k. has_fd k es ≡ false) none_used t, refl)))
]

find_fd_entry-append :
    (es : List FdEntry) (e : FdEntry)
    → has_fd e.fd es ≡ false
    → find_fd_entry e.fd (es ++ (e ∷ [])) ≡ some e
unfolding find_fd_entry
find_fd_entry-append [] e h = rw (==_refl e.fd) refl
find_fd_entry-append (f ∷ es) e h = elim (Bool-cases (f.fd == e.fd)) [
  | inl t ↦ absurd (true≢false (rw t at h))
  | inr t ↦ rw (find_fd_entry, t) (find_fd_entry-append es e (rw t at h))
]

-- A dup of an open descriptor, with memory for the new entry and `minfd` plus the number of
-- descriptors below 2 ^ 31, always ends: it returns the lowest number from `minfd` on that is
-- free, and that number then stands for the same open file.
pub fs_dup_min-Lowest :
    (oldfd minfd : ℕ) (cloexec : Bool) (s : Files) (old : FdEntry)
    → find_fd_entry oldfd s.entries ≡ some old
    → old.file ≢ 0
    → minfd + length s.entries < 2 ^ 31
    → (d : ℕ) × ((s' : Files) × ((fs_dup_min true oldfd minfd cloexec s
            ≡ some (count (minfd + d), s'))
          × ((has_fd (minfd + d) s.entries ≡ false)
              × ((all_used s.entries minfd d ≡ true)
                  × (find_fd_entry (minfd + d) s'.entries
                      ≡ some (record { fd = minfd + d; cloexec = cloexec; file = old.file }))))))
unfolding fs_dup_min
fs_dup_min-Lowest oldfd minfd cloexec s old eo hf room =
    let real : (old.file == 0) ≡ false = ==_of_ne old.file 0 hf in
    let enough : above minfd s.entries < suc (length s.entries) =
      omega (arith, above-bound minfd s.entries) in
    let (d, (e, (free, used))) =
      lowest_free_lem (suc (length s.entries)) minfd s.entries enough (omega arith) in
    let new : FdEntry = record { fd = minfd + d; cloexec = cloexec; file = old.file } in
    (
      d,
      (
        add_fd_entry new s,
        (
          rw (fs_dup_min, eo, real, e) refl,
          (free, (used, find_fd_entry-append s.entries new free)),
        ),
      ),
    )
