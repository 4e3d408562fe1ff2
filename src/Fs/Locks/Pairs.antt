-- ===== src/Fs/Locks/Pairs.antt =====
-- Relations that hold between any two open files of one file, and writes to one open file.
use scepter.Fs.Locks.{
  find_open, OpenFile, Stat, LockState, same_inode, same_file, update_open, all_files, descriptors,
  find_fd, Holder, fd_files,
}
use mathlib.Core.Path.{subst}
use scepter.Base.{
  ℕ, Bool, Option, false, true, ◌≢◌, ◌≡◌, [], if◌then◌else◌, some, ◌==◌, arith, refl, List, none,
  ◌||◌, ◌∷◌, option_map, Bool-cases, sym, ◌∙◌, ◌!=◌, inr, ap, inl, Option-cases, ◌++◌,
}

abbrev pub listed : ℕ → List ℕ → Bool
listed n [] = false
listed n (x ∷ xs) = x == n || listed n xs

pub listed-append : (n : ℕ) (xs ys : List ℕ) → listed n (xs ++ ys) ≡ (listed n xs || listed n ys)
listed-append n [] ys = refl
listed-append n (x ∷ xs) ys = ground (arith, listed-append n xs ys)

listed-find_fd :
    (fd : ℕ) (fds : List (ℕ × ℕ)) {a : ℕ} → find_fd fd fds ≡ some a → listed a (fd_files fds) ≡ true
unfolding find_fd
listed-find_fd fd [] e = absurd (cc)
listed-find_fd fd ((n, b) ∷ fds) {a = a} e = ground (arith, listed-find_fd fd fds {a = a})

-- What a task's descriptor leads to is behind some descriptor.
pub listed-descriptors :
    (fd pid : ℕ) (hs : List Holder) {a : ℕ}
    → find_fd fd (descriptors pid hs) ≡ some a
    → listed a (all_files hs) ≡ true
unfolding descriptors all_files find_fd
listed-descriptors fd pid [] e = absurd (nothing_there e)
  where
    nothing_there : {a : ℕ} → find_fd fd [] ≡ some a → ⊥
    nothing_there p = cc
listed-descriptors fd pid (h ∷ hs) {a = a} e = elim (Bool-cases (h.pid == pid)) [
  | inl here ↦
      listed-append a (fd_files h.files) (all_files hs)
      ∙ ground (arith, listed-find_fd fd h.files (rw here at e))
  | inr later ↦
      listed-append a (fd_files h.files) (all_files hs)
      ∙ ground (arith, listed-descriptors fd pid hs (rw later at e))
]

pub find_open-address :
    (a : ℕ) (fs : List OpenFile) {f : OpenFile} → find_open a fs ≡ some f → f.address ≡ a
unfolding find_open
find_open-address a [] e = absurd (cc)
find_open-address a (g ∷ fs) {f = f} e = ground (arith, find_open-address a fs {f = f})

pub find_open-update :
    (a i : ℕ) (h : OpenFile → OpenFile) (fs : List OpenFile)
    → ((f : OpenFile) → (h f).address ≡ f.address)
    → find_open i (update_open a h fs)
      ≡ (if a == i then option_map h (find_open i fs) else find_open i fs)
unfolding find_open update_open
find_open-update a i h [] keep = ground arith
find_open-update a i h (f ∷ fs) keep = ground (arith, keep f, find_open-update a i h fs keep)

pub same_inode_sym : (a b : Option (ℕ × ℕ)) → same_inode a b ≡ same_inode b a
same_inode_sym none none = refl
same_inode_sym none (some b) = refl
same_inode_sym (some a) none = refl
same_inode_sym (some a) (some b) = ground arith

-- Any two open files that descriptors lead to, of one underlying file, are related by `R`.
abbrev pub Pairwise : Stat → (OpenFile → OpenFile → Type 0) → LockState → Type 0
Pairwise stat_of R s =
    (i j : ℕ) (f g : OpenFile)
    → find_open i s.opens ≡ some f
    → find_open j s.opens ≡ some g
    → i ≢ j
    → listed i (all_files s.holders) ≡ true
    → listed j (all_files s.holders) ≡ true
    → same_file stat_of f g ≡ true
    → R f g

-- The parts of an open file that say which file it is.
pub record SameIdentity (f g : OpenFile) : Type 0 where
  pub address : g.address ≡ f.address
  pub pipe : g.pipe ≡ f.pipe
  pub fs_id : g.fs_id ≡ f.fs_id
  pub fs_private : g.fs_private ≡ f.fs_private
  pub file_private : g.file_private ≡ f.file_private

-- The last test of `same_file`.
abbrev by_inode : Option (ℕ → Option (ℕ × ℕ)) → (a b : ℕ) → Bool
by_inode none a b = a == b
by_inode (some fstat) a b = same_inode (fstat a) (fstat b)

by_inode_sym : (o : Option (ℕ → Option (ℕ × ℕ))) (a b : ℕ) → by_inode o a b ≡ by_inode o b a
by_inode_sym none a b = ground arith
by_inode_sym (some fstat) a b = same_inode_sym (fstat a) (fstat b)

module _ (stat_of : Stat) where
  same_file_tests :
      (a b : OpenFile)
      → same_file stat_of a b ≡ (
          if a.pipe != 0 || b.pipe != 0
          then a.pipe == b.pipe
          else if a.fs_id != b.fs_id
          then false
          else if a.fs_private != b.fs_private
          then false
          else by_inode (stat_of a.fs_id) a.file_private b.file_private)
  unfolding same_file
  same_file_tests a b = elim (Option-cases (stat_of a.fs_id)) [
    | inl e ↦ rw (same_file, e) refl
    | inr (fstat, e) ↦ rw (same_file, e) refl
  ]

  pub same_file_sym : (a b : OpenFile) → same_file stat_of a b ≡ true → same_file stat_of b a ≡ true
  same_file_sym a b h = elim (Bool-cases (a.fs_id == b.fs_id)) [
    | inl same ↦
        let e : a.fs_id ≡ b.fs_id = ground arith in
        ground (
          arith,
          same_file_tests a b,
          same_file_tests b a,
          ap stat_of e,
          h,
          by_inode_sym (stat_of b.fs_id) a.file_private b.file_private,
        )
    | inr apart ↦ ground (arith, same_file_tests a b, same_file_tests b a, h, apart)
  ]

  pub same_file-SameIdentity :
      (f g a : OpenFile)
      → SameIdentity f g
      → (same_file stat_of g a ≡ same_file stat_of f a)
        × (same_file stat_of a g ≡ same_file stat_of a f)
  same_file-SameIdentity f g a v = (
    same_file_tests g a
        ∙ rw (v.pipe, v.fs_id, v.fs_private, v.file_private) (sym (same_file_tests f a)),
    same_file_tests a g
        ∙ rw (v.pipe, v.fs_id, v.fs_private, v.file_private) (sym (same_file_tests a f)),
  )

  -- A write to one open file keeps the relation if the written file is related to all others.
  pub Pairwise-update :
      (R : OpenFile → OpenFile → Type 0) (h : OpenFile → OpenFile) (a : ℕ) (s : LockState)
      (me : OpenFile)
      → find_open a s.opens ≡ some me
      → ((f : OpenFile) → SameIdentity f (h f))
      → ((j : ℕ) (g : OpenFile)
          → a ≢ j
          → find_open j s.opens ≡ some g
          → listed j (all_files s.holders) ≡ true
          → same_file stat_of me g ≡ true
          → R (h me) g × R g (h me))
      → Pairwise stat_of R s
      → Pairwise stat_of R (record s { opens = update_open a h s.opens })
  Pairwise-update R h a s me found keeps related pairs i j f g fi gj ne li lj same =
      elim (Bool-cases (a == i)) [
        | inl at_i ↦
            let ei : a ≡ i = ground arith in
            let ne_j : a ≢ j = (λ e. ne (sym ei ∙ e)) in
            let mine = written i f at_i fi (ap (λ x. find_open x s.opens) (sym ei) ∙ found) in
            let g_old = kept j g (ground arith) gj in
            let same' =
              sym (same_file-SameIdentity me (h me) g (keeps me)).0
              ∙ ap (λ x. same_file stat_of x g) mine
              ∙ same in
            subst (λ x. R x g) mine (related j g ne_j g_old lj same').0
        | inr not_i ↦ elim (Bool-cases (a == j)) [
          | inl at_j ↦
              let ej : a ≡ j = ground arith in
              let ne_i : a ≢ i = (λ e. ne (sym e ∙ ej)) in
              let mine = written j g at_j gj (ap (λ x. find_open x s.opens) (sym ej) ∙ found) in
              let f_old = kept i f (ground arith) fi in
              let same' =
                sym (same_file-SameIdentity me (h me) f (keeps me)).1
                ∙ ap (λ x. same_file stat_of f x) mine
                ∙ same in
              subst (λ x. R f x) mine (related i f ne_i f_old li (same_file_sym f me same')).1
          | inr not_j ↦ pairs i j f g (kept i f not_i fi) (kept j g not_j gj) ne li lj same
        ]
      ]
    where
      after :
          (k : ℕ)
          → find_open k (update_open a h s.opens)
            ≡ (if a == k then option_map h (find_open k s.opens) else find_open k s.opens)
      after k = find_open-update a k h s.opens (λ f. (keeps f).address)

      written :
          (k : ℕ) (x : OpenFile)
          → (a == k) ≡ true
          → find_open k (update_open a h s.opens) ≡ some x
          → find_open k s.opens ≡ some me
          → h me ≡ x
      written k x at e old = same_some (h me) x (sym (after k ∙ rw (at, old) refl) ∙ e)
        where
          same_some : (x y : OpenFile) → some x ≡ some y → x ≡ y
          same_some x y p = cc

      kept :
          (k : ℕ) (x : OpenFile)
          → (a == k) ≡ false
          → find_open k (update_open a h s.opens) ≡ some x
          → find_open k s.opens ≡ some x
      kept k x away e = sym (after k ∙ rw away refl) ∙ e
