-- ===== src/Fs/Locks/Grants.antt =====
-- fcntl(): what a call and its turns do to the record locks.
use scepter.Fs.Errno.{count, fail, enomem}
use scepter.Fs.Locks.Exclusion.{
  Apart, remove-Apart, remove_keeps, add-Apart, searched, new_rec, no_rec_conflict,
}
use scepter.Fs.Locks.Pairs.{
  Pairwise, listed, find_open-address, listed-descriptors, find_open-update, same_file-SameIdentity,
}
use scepter.Fs.Locks.{
  f_wrlck, Stat, OpenFile, LockState, find_open, all_files, update_open, f_setlk, find_fd,
  descriptors, f_setlkw, f_unlck, f_rdlck, f_wrlck, Locking, f_getlk, locked, same_file,
}
use scepter.Fs.Locks.Records.{
  rec_conflict, fs_fcntl_lock, rec_round, fcntl_file, rec_resume, FlockK, rec_remove_owner,
  rec_conflict, absolute_start, add_rec, rec_in_file, rec_search,
}
use scepter.Base.{
  ℕ, Bool, arith, ◌≡◌, sym, false, not, ◌∙◌, inr, ==_refl, ap, ◌==◌, none, ==_of_ne, true,
  if◌then◌else◌, ◌&&◌, some, Bool-cases, Option-cases, refl, Option, ◌≢◌, inl, ◌||◌,
}

module _ (stat_of : Stat) where
  rec_round-Apart :
      (has_memory : Bool) (pid cmd kind start len : ℕ) (me : OpenFile) (s : LockState)
      → find_open me.address s.opens ≡ some me
      → listed me.address (all_files s.holders) ≡ true
      → Pairwise stat_of Apart s
      → Pairwise stat_of Apart (rec_round stat_of has_memory pid cmd kind start len me s).1
  unfolding rec_round
  rec_round-Apart has_memory pid cmd kind start len me s found mine pairs =
      elim (Option-cases
        (rec_conflict stat_of me kind start len pid s.opens (all_files s.holders))) [
          | inr (r, busy) ↦ elim (Bool-cases (cmd == f_setlk)) [
            | inl now ↦ rw (rec_round, busy, now) pairs
            | inr later ↦ rw (rec_round, busy, later) pairs
          ]
          | inl clear ↦ rw (rec_round, clear) (granted clear has_memory)
        ]
    where
      dropped : LockState
      dropped = record s { opens = update_open me.address (rec_remove_owner pid) s.opens }

      dropped-Apart : Pairwise stat_of Apart dropped
      dropped-Apart = remove-Apart stat_of pid s me found mine pairs

      at_me : find_open me.address dropped.opens ≡ some (rec_remove_owner pid me)
      at_me =
          find_open-update me.address me.address (rec_remove_owner pid) s.opens (λ f. refl)
          ∙ rw (==_refl me.address, found) refl

      other : (j : ℕ) → me.address ≢ j → find_open j dropped.opens ≡ find_open j s.opens
      other j ne =
          find_open-update me.address j (rec_remove_owner pid) s.opens (λ f. refl)
          ∙ rw (==_of_ne me.address j ne) refl

      granted :
          rec_conflict stat_of me kind start len pid s.opens (all_files s.holders) ≡ none
          → (b : Bool)
          → let r : Locking × LockState =
              (if b
                then (
                  locked (count 0),
                  record dropped {
                    opens = update_open me.address (add_rec kind start len pid) dropped.opens;
                  },
                )
                else (locked (fail enomem), dropped)) in
            Pairwise stat_of Apart r.1
      granted clear false = dropped-Apart
      granted clear true =
          add-Apart stat_of kind start len pid dropped (rec_remove_owner pid me) at_me mine
            (λ j g ne e l same. searched (new_rec kind start len pid) g.locks (
              inner j g ne (sym (other j ne) ∙ e) l same (
                no_rec_conflict stat_of me kind start len pid s.opens (all_files s.holders) clear j
                  g l (sym (other j ne) ∙ e))))
            dropped-Apart
        where
          inner :
              (j : ℕ) (g : OpenFile)
              → me.address ≢ j
              → find_open j s.opens ≡ some g
              → listed j (all_files s.holders) ≡ true
              → same_file stat_of (rec_remove_owner pid me) g ≡ true
              → rec_in_file stat_of me kind start len pid (some g) ≡ none
              → rec_search kind start len pid g.locks ≡ none
          inner j g ne e l same free =
              let at : g.address ≡ j = find_open-address j s.opens e in
              let away : (g.address == me.address) ≡ false = ground (arith, at, ne) in
              let one : same_file stat_of me g ≡ true =
                sym
                  (same_file-SameIdentity stat_of me (rec_remove_owner pid me) g
                    (remove_keeps stat_of pid me)).0
                ∙ same in
              rw (away, one) at free

  fcntl_file-Apart :
      (has_memory can_write : Bool) (pid cmd size : ℕ) (k : FlockK) (f : OpenFile) (s : LockState)
      → find_open f.address s.opens ≡ some f
      → listed f.address (all_files s.holders) ≡ true
      → Pairwise stat_of Apart s
      → Pairwise stat_of Apart (fcntl_file stat_of has_memory can_write pid cmd size k f s).1
  unfolding fcntl_file
  fcntl_file-Apart has_memory can_write pid cmd size k f s found mine pairs =
      elim (Bool-cases (cmd == f_setlk || cmd == f_setlkw)) [
        | inl sets ↦ elim (Bool-cases (k.l_type == f_unlck)) [
          | inl unlocks ↦
              rw (fcntl_file, sets, unlocks) (remove-Apart stat_of pid s f found mine pairs)
          | inr other ↦ elim (Bool-cases (not (k.l_type == f_rdlck) && not (k.l_type == f_wrlck))) [
            | inl strange ↦ rw (fcntl_file, sets, other, strange) pairs
            | inr known ↦
                rw (fcntl_file, sets, other, known)
                  (rec_round-Apart has_memory pid cmd k.l_type (absolute_start k f size) k.l_len f s
                    found mine pairs)
          ]
        ]
        | inr asks ↦ elim (Bool-cases (cmd == f_getlk)) [
          | inl gets ↦ elim (Bool-cases can_write) [
            | inl fine ↦ rw (fcntl_file, asks, gets, fine) pairs
            | inr fault ↦ rw (fcntl_file, asks, gets, fault) pairs
          ]
          | inr strange ↦ rw (fcntl_file, asks, strange) pairs
        ]
      ]

-- fcntl() keeps record locks apart: while no two locks of different owners in different open
-- files of one file have a byte in common, unless both are read locks or the end of one of them
-- passes the 32-bit offsets, neither a call nor its going on after a sleep changes that.
pub fs_fcntl_lock-Apart :
    (stat_of : Stat) (has_memory can_write pending : Bool) (pid fd cmd size kind start len : ℕ)
    (request : Option FlockK) (f : OpenFile) (s : LockState)
    → Pairwise stat_of Apart s
    → find_open f.address s.opens ≡ some f
    → listed f.address (all_files s.holders) ≡ true
    → Pairwise stat_of Apart
        (fs_fcntl_lock stat_of has_memory can_write pid fd cmd size request s).1
      × Pairwise stat_of Apart (rec_resume stat_of pending has_memory pid cmd kind start len f s).1
unfolding fs_fcntl_lock rec_resume
fs_fcntl_lock-Apart stat_of has_memory can_write pending pid fd cmd size kind start len request f s
      pairs found mine =
    (called request, resumed pending)
  where
    called :
        (q : Option FlockK)
        → Pairwise stat_of Apart (fs_fcntl_lock stat_of has_memory can_write pid fd cmd size q s).1
    called q = elim (Option-cases (find_fd fd (descriptors pid s.holders))) [
      | inl bad ↦ rw (fs_fcntl_lock, bad) pairs
      | inr (b, e) ↦ elim (Option-cases (find_open b s.opens)) [
        | inl gone ↦ rw (fs_fcntl_lock, e, gone) pairs
        | inr (g, there) ↦
            let at : g.address ≡ b = find_open-address b s.opens there in
            elim (Option-cases q) [
              | inl fault ↦ rw (fs_fcntl_lock, e, there, fault) pairs
              | inr (k, good) ↦
                  rw (fs_fcntl_lock, e, there, good)
                    (fcntl_file-Apart stat_of has_memory can_write pid cmd size k g s
                      (ap (λ x. find_open x s.opens) at ∙ there)
                      (ap (λ x. listed x (all_files s.holders)) at
                        ∙ listed-descriptors fd pid s.holders e)
                      pairs)
            ]
      ]
    ]

    resumed :
        (b : Bool)
        → Pairwise stat_of Apart (rec_resume stat_of b has_memory pid cmd kind start len f s).1
    resumed true = pairs
    resumed false = rec_round-Apart stat_of has_memory pid cmd kind start len f s found mine pairs
