-- ===== src/Fs/Vfs/Files/Counts.antt =====
-- fs/vfs.c: what each step does to the reference count of an open file.
use scepter.Base.Int.{pos, pos_part, ℤ}
use scepter.Fs.Vfs.Files.{
  find_fd_entry, set_cloexec, count_of, FdEntry, change_count, free_open, free_fd_entry, OpenCount,
  is_open,
}
use mathlib.Core.Path.{subst}
use scepter.Base.{
  ℕ, Bool, ◌∷◌, ◌<◌, some, ◌++◌, ◌≡◌, none≢some, inr, suc, ap, Bool-cases, [], ◌≢◌, arith, ==_refl,
  some_inj, refl, ◌==◌, List, inl, true, ◌+◌, false, one_if, ltb,
}

-- What is known of an open file with `n` references: its count, and that it is freed exactly
-- where there is none.
abbrev pub Holds : (a : ℕ) → List OpenCount → ℕ → Type 0
Holds a os n = (count_of a os ≡ pos n) × (is_open a os ≡ ltb 0 n)

pub is_open-change :
    (a b : ℕ) (g : ℤ → ℤ) (os : List OpenCount) → is_open b (change_count a g os) ≡ is_open b os
unfolding change_count
is_open-change a b g [] = refl
is_open-change a b g (o ∷ os) =
    let ih = is_open-change a b g os in
    elim (Bool-cases (o.address == a)) [ inl t ↦ rw (t, ih) refl | inr t ↦ rw (t, ih) refl ]

pub is_open-free : (a : ℕ) (os : List OpenCount) → is_open a (free_open a os) ≡ false
unfolding free_open
is_open-free a [] = refl
is_open-free a (o ∷ os) = elim (Bool-cases (o.address == a)) [
  | inl t ↦ rw t (is_open-free a os)
  | inr t ↦ rw (t, t) (is_open-free a os)
]

pub is_open-free_other :
    (a b : ℕ) (os : List OpenCount) → a ≢ b → is_open b (free_open a os) ≡ is_open b os
unfolding free_open
is_open-free_other a b [] h = refl
is_open-free_other a b (o ∷ os) h = elim (Bool-cases (o.address == a)) [
  | inl t ↦
      let apart : (o.address == b) ≡ false = ground arith in
      rw (t, apart) (is_open-free_other a b os h)
  | inr t ↦ let ih = is_open-free_other a b os h in rw (t, ih) refl
]

-- The number of descriptors that refer to an open file.
abbrev pub refs : ℕ → List FdEntry → ℕ
refs a [] = 0
refs a (e ∷ es) = one_if (e.file == a) + refs a es

pos_apart : (n : ℕ) → pos 0 ≢ pos (suc n)
pos_apart n e = let h : 0 ≡ suc n = ap pos_part e in omega arith

pub count_of-change :
    (a : ℕ) (g : ℤ → ℤ) (os : List OpenCount) (n : ℕ)
    → count_of a os ≡ pos (suc n)
    → count_of a (change_count a g os) ≡ g (pos (suc n))
unfolding count_of change_count
count_of-change a g [] n e = absurd (pos_apart n e)
count_of-change a g (o ∷ os) n e = elim (Bool-cases (o.address == a)) [
  | inl t ↦ rw (count_of, change_count, t, t) (ap g (rw (count_of, t) at e))
  | inr t ↦ rw (count_of, change_count, t, t) (count_of-change a g os n (rw (count_of, t) at e))
]

pub count_of-change_other :
    (a b : ℕ) (g : ℤ → ℤ) (os : List OpenCount)
    → a ≢ b
    → count_of b (change_count a g os) ≡ count_of b os
unfolding count_of change_count
count_of-change_other a b g [] h = refl
count_of-change_other a b g (o ∷ os) h = elim (Bool-cases (o.address == a)) [
  | inl t ↦
      let apart : (o.address == b) ≡ false = ground arith in
      rw (t, apart) (count_of-change_other a b g os h)
  | inr t ↦ let ih = count_of-change_other a b g os h in rw (t, ih) refl
]

pub count_of-free : (a : ℕ) (os : List OpenCount) → count_of a (free_open a os) ≡ pos 0
unfolding count_of free_open
count_of-free a [] = refl
count_of-free a (o ∷ os) = elim (Bool-cases (o.address == a)) [
  | inl t ↦ rw t (count_of-free a os)
  | inr t ↦ rw (t, t) (count_of-free a os)
]

pub count_of-free_other :
    (a b : ℕ) (os : List OpenCount) → a ≢ b → count_of b (free_open a os) ≡ count_of b os
unfolding count_of free_open
count_of-free_other a b [] h = refl
count_of-free_other a b (o ∷ os) h = elim (Bool-cases (o.address == a)) [
  | inl t ↦
      let apart : (o.address == b) ≡ false = ground arith in
      rw (t, apart) (count_of-free_other a b os h)
  | inr t ↦ let ih = count_of-free_other a b os h in rw (t, ih) refl
]

pub refs-append : (a : ℕ) (es fs : List FdEntry) → refs a (es ++ fs) ≡ refs a es + refs a fs
refs-append a [] fs = omega arith
refs-append a (e ∷ es) fs = omega (arith, refs-append a es fs)

-- The entry that is freed is the one that was found.
pub refs-free_fd_entry :
    (fd a : ℕ) (es : List FdEntry) (e : FdEntry)
    → find_fd_entry fd es ≡ some e
    → refs a (free_fd_entry fd es) + one_if (e.file == a) ≡ refs a es
unfolding find_fd_entry free_fd_entry
refs-free_fd_entry fd a [] e h = absurd (none≢some e h)
refs-free_fd_entry fd a (f ∷ es) e h = elim (Bool-cases (f.fd == fd)) [
  | inl t ↦
      let same : f ≡ e = some_inj (rw (find_fd_entry, t) at h) in
      subst (λ x. refs a (free_fd_entry fd (f ∷ es)) + one_if (x.file == a) ≡ refs a (f ∷ es)) same
        (rw (free_fd_entry, t) (omega arith))
  | inr t ↦
      let ih = refs-free_fd_entry fd a es e (rw (find_fd_entry, t) at h) in
      rw (free_fd_entry, t) (omega arith)
]

pub refs-find_fd_entry :
    (fd : ℕ) (es : List FdEntry) (e : FdEntry) → find_fd_entry fd es ≡ some e → 0 < refs e.file es
refs-find_fd_entry fd es e h =
    let found = refs-free_fd_entry fd e.file es e h in
    let same : (e.file == e.file) ≡ true = ==_refl e.file in
    let one : one_if (e.file == e.file) ≡ 1 = ap one_if same in omega arith

pub refs-set_cloexec :
    (fd a : ℕ) (on : Bool) (es : List FdEntry) → refs a (set_cloexec fd on es) ≡ refs a es
unfolding set_cloexec
refs-set_cloexec fd a on [] = refl
refs-set_cloexec fd a on (e ∷ es) = elim (Bool-cases (e.fd == fd)) [
  | inl t ↦ rw t refl
  | inr t ↦ rw t (omega (arith, refs-set_cloexec fd a on es))
]
