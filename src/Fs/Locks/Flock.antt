-- ===== src/Fs/Locks/Flock.antt =====
-- fs/locks.c: flock() and the locks of other open files.
use scepter.Fs.Locks.Records.{locks_release_file}
use scepter.Base.Bits.{test_bit}
use scepter.Fs.Locks.Pairs.{
  listed, SameIdentity, Pairwise, find_open-address, Pairwise-update, find_open-update,
  same_file_sym, listed-descriptors,
}
use scepter.Fs.Locks.{
  Stat, OpenFile, flock_conflict, LockState, lock_ex, take_flock, find_open, flock_clash, all_files,
  lock_sh, update_open, same_file, flock_round, flock_file, lock_nb_bit, fs_flock, lock_un_bit,
  flock_resume, find_fd, descriptors,
}
use scepter.Base.{
  ℕ, Bool, ◌⊎◌, refl, none, false, ◌||◌, ◌==◌, arith, sym, ◌≡◌, ◌∙◌, ◌∷◌, some, inl, Bool-cases,
  inr, true≢false, ◌≢◌, List, [], ap, true, bit_and, not, ◌&&◌, Option-cases,
}

-- If the first open file is locked exclusively, the second is not locked at all.
abbrev pub Excludes : OpenFile → OpenFile → Type 0
Excludes f g = (f.flock_type ≡ lock_ex) → g.flock_type ≡ 0

-- A conflict that was not found is not there.
no_conflict :
    (stat_of : Stat) (me : OpenFile) (kind : ℕ) (opens : List OpenFile) (addresses : List ℕ)
    → flock_conflict stat_of me kind opens addresses ≡ false
    → (j : ℕ) (g : OpenFile) → listed j addresses ≡ true
    → find_open j opens ≡ some g
    → flock_clash stat_of me kind g ≡ false
unfolding flock_conflict
no_conflict stat_of me kind opens [] h j g l e = absurd (true≢false (sym l))
no_conflict stat_of me kind opens (a ∷ addresses) h j g l e = elim (Bool-cases (a == j)) [
  | inr other ↦ no_conflict stat_of me kind opens addresses (rest h) j g (ground arith) e
  | inl here ↦
      let same : a ≡ j = ground arith in head (rw (ap (λ x. find_open x opens) same ∙ e) at h)
]
  where
    rest :
        ((elim (find_open a opens) as (λ _. Bool) [
          | none ↦ false
          | some f ↦ flock_clash stat_of me kind f
        ])
            || flock_conflict stat_of me kind opens addresses)
          ≡ false
        → flock_conflict stat_of me kind opens addresses ≡ false
    rest p = ground (arith, p)

    head :
        (flock_clash stat_of me kind g || flock_conflict stat_of me kind opens addresses) ≡ false
        → flock_clash stat_of me kind g ≡ false
    head p = ground (arith, p)

module _ (stat_of : Stat) where
  take_flock_keeps : (kind owner : ℕ) (f : OpenFile) → SameIdentity f (take_flock kind owner f)
  take_flock_keeps kind owner f = record {
    address = refl;
    pipe = refl;
    fs_id = refl;
    fs_private = refl;
    file_private = refl;
  }

  -- Writing a lock that conflicts with no other.
  set_flock :
      (kind owner : ℕ) (s : LockState) (me : OpenFile)
      → find_open me.address s.opens ≡ some me
      → ((j : ℕ) (g : OpenFile)
          → find_open j s.opens ≡ some g
          → listed j (all_files s.holders) ≡ true
          → flock_clash stat_of me kind g ≡ false)
      → (kind ≡ 0) ⊎ ((kind ≡ lock_sh) ⊎ (kind ≡ lock_ex))
      → Pairwise stat_of Excludes s
      → Pairwise stat_of Excludes
          (record s { opens = update_open me.address (take_flock kind owner) s.opens })
  set_flock kind owner s me found clear kinds pairs =
      Pairwise-update stat_of Excludes (take_flock kind owner) me.address s me found
        (take_flock_keeps kind owner) related pairs
    where
      related :
          (j : ℕ) (g : OpenFile)
          → me.address ≢ j
          → find_open j s.opens ≡ some g
          → listed j (all_files s.holders) ≡ true
          → same_file stat_of me g ≡ true
          → Excludes (take_flock kind owner me) g × Excludes g (take_flock kind owner me)
      related j g ne e l same =
          let other : g.address ≡ j = find_open-address j s.opens e in
          let free = clear j g e l in
          (
            (λ ex. ground (arith, free, same, other)),
            (λ ex. ground (arith, free, same, other, kinds)),
          )

  -- Dropping a lock.
  drop_flock :
      (h : OpenFile → OpenFile) (s : LockState) (a : ℕ)
      → ((f : OpenFile) → SameIdentity f (h f))
      → ((f : OpenFile) → (h f).flock_type ≡ 0)
      → Pairwise stat_of Excludes s
      → Pairwise stat_of Excludes (record s { opens = update_open a h s.opens })
  drop_flock h s a keeps free pairs = elim (Option-cases (find_open a s.opens)) [
    | inl missing ↦
        λ i j f g fi gj. pairs i j f g (unchanged missing i f fi) (unchanged missing j g gj)
    | inr (me, found) ↦
        Pairwise-update stat_of Excludes h a s me found keeps
          (λ j g ne e l same. ((λ ex. absurd (zero_not_ex (sym (free me) ∙ ex))), (λ ex. free me)))
          pairs
  ]
    where
      zero_not_ex : 0 ≡ lock_ex → ⊥
      zero_not_ex e = omega arith

      unchanged :
          find_open a s.opens ≡ none
          → (k : ℕ) (x : OpenFile) → find_open k (update_open a h s.opens) ≡ some x
          → find_open k s.opens ≡ some x
      unchanged missing k x e = elim (Bool-cases (a == k)) [
        | inr away ↦
            sym (find_open-update a k h s.opens (λ f. (keeps f).address) ∙ rw away refl) ∙ e
        | inl at ↦
            let same : a ≡ k = ground arith in
            let gone = ap (λ x. find_open x s.opens) (sym same) ∙ missing in
            absurd (
              none_some (
                sym (find_open-update a k h s.opens (λ f. (keeps f).address) ∙ rw (at, gone) refl)
                ∙ e))
      ]
        where
          none_some : none ≡ some x → ⊥
          none_some p = cc

  flock_round-Excludes :
      (pid op kind : ℕ) (f : OpenFile) (s : LockState)
      → find_open f.address s.opens ≡ some f
      → (kind ≡ lock_sh) ⊎ (kind ≡ lock_ex)
      → Pairwise stat_of Excludes s
      → Pairwise stat_of Excludes (flock_round stat_of pid op kind f s).1
  unfolding flock_round
  flock_round-Excludes pid op kind f s found kinds pairs =
      elim (Bool-cases (flock_conflict stat_of f kind s.opens (all_files s.holders))) [
        | inr clear ↦
            rw (flock_round, clear)
              (set_flock kind pid s f found
                (λ j g e l. no_conflict stat_of f kind s.opens (all_files s.holders) clear j g l e)
                (inr kinds) pairs)
        | inl busy ↦ elim (Bool-cases (test_bit op lock_nb_bit)) [
          | inl now ↦ rw (flock_round, busy, now) pairs
          | inr later ↦ rw (flock_round, busy, later) pairs
        ]
      ]

  flock_file-Excludes :
      (pid op : ℕ) (f : OpenFile) (s : LockState)
      → find_open f.address s.opens ≡ some f
      → listed f.address (all_files s.holders) ≡ true
      → Pairwise stat_of Excludes s
      → Pairwise stat_of Excludes (flock_file stat_of pid op f s).1
  unfolding flock_file
  flock_file-Excludes pid op f s found mine pairs =
      let kind = bit_and op 3 in
      elim (Bool-cases (test_bit op lock_un_bit)) [
        | inl unlocks ↦
            rw (flock_file, unlocks)
              (drop_flock (take_flock 0 0) s f.address (take_flock_keeps 0 0) (λ f. refl) pairs)
        | inr sets ↦ elim (Bool-cases (not (kind == lock_sh) && not (kind == lock_ex))) [
          | inl strange ↦ rw (flock_file, sets, strange) pairs
          | inr known ↦ elim (Bool-cases (f.flock_type == kind)) [
            | inl held ↦ rw (flock_file, sets, known, held) (again kind held)
            | inr other ↦
                rw (flock_file, sets, known, other)
                  (flock_round-Excludes pid op kind f s found (kinds kind known) pairs)
          ]
        ]
      ]
    where
      kinds :
          (k : ℕ)
          → (not (k == lock_sh) && not (k == lock_ex)) ≡ false
          → (k ≡ lock_sh) ⊎ (k ≡ lock_ex)
      kinds k h = ground arith

      again :
          (k : ℕ)
          → (f.flock_type == k) ≡ true
          → Pairwise stat_of Excludes
              (record s { opens = update_open f.address (take_flock k pid) s.opens })
      again k held =
          let e : f.flock_type ≡ k = ground arith in
          Pairwise-update stat_of Excludes (take_flock k pid) f.address s f found
            (take_flock_keeps k pid)
            (λ j g ne e' l same. (
              (λ ex. pairs f.address j f g found e' ne mine l same (e ∙ ex)),
              (λ ex.
                  sym e
                  ∙ pairs j f.address g f e' found (λ z. ne (sym z)) l mine
                      (same_file_sym stat_of f g same) ex),
            ))
            pairs

-- flock() keeps exclusive locks exclusive: while no file is locked exclusively by one open file
-- and locked by another, neither a call, nor its going on after a sleep, nor a last close
-- changes that.
pub fs_flock-Excludes :
    (stat_of : Stat) (pid fd op kind a : ℕ) (pending : Bool) (f : OpenFile) (s : LockState)
    → Pairwise stat_of Excludes s
    → find_open f.address s.opens ≡ some f
    → (kind ≡ lock_sh) ⊎ (kind ≡ lock_ex)
    → Pairwise stat_of Excludes (fs_flock stat_of pid fd op s).1
      × Pairwise stat_of Excludes (flock_resume stat_of pending pid op kind f s).1
      × Pairwise stat_of Excludes (locks_release_file a s)
unfolding fs_flock flock_resume locks_release_file
fs_flock-Excludes stat_of pid fd op kind a pending f s pairs found kinds =
    (called, resumed pending, closed)
  where
    called : Pairwise stat_of Excludes (fs_flock stat_of pid fd op s).1
    called = elim (Option-cases (find_fd fd (descriptors pid s.holders))) [
      | inl bad ↦ rw (fs_flock, bad) pairs
      | inr (b, e) ↦ elim (Option-cases (find_open b s.opens)) [
        | inl gone ↦ rw (fs_flock, e, gone) pairs
        | inr (g, there) ↦
            let at : g.address ≡ b = find_open-address b s.opens there in
            rw (fs_flock, e, there)
              (flock_file-Excludes stat_of pid op g s (ap (λ x. find_open x s.opens) at ∙ there)
                (ap (λ x. listed x (all_files s.holders)) at
                  ∙ listed-descriptors fd pid s.holders e)
                pairs)
      ]
    ]

    resumed : (b : Bool) → Pairwise stat_of Excludes (flock_resume stat_of b pid op kind f s).1
    resumed true = pairs
    resumed false = flock_round-Excludes stat_of pid op kind f s found kinds pairs

    closed : Pairwise stat_of Excludes (locks_release_file a s)
    closed =
        drop_flock stat_of (λ f. record f { flock_type = 0; flock_owner = 0; locks = [] }) s a
          (λ f. record {
            address = refl;
            pipe = refl;
            fs_id = refl;
            fs_private = refl;
            file_private = refl;
          })
          (λ f. refl) pairs
