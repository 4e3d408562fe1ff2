-- ===== src/Fs/Locks/Exclusion.antt =====
-- fs/locks.c: record locks in two open files of one file.
use scepter.Fs.Locks.Pairs.{SameIdentity, listed, Pairwise, same_file_sym, Pairwise-update}
use scepter.Fs.Locks.{
  Stat, LockRec, OpenFile, LockState, find_open, all_files, same_file, update_open,
}
use scepter.Fs.Locks.Records.{
  rec_search, rec_clash, rec_conflict, without_owner, add_rec, rec_remove_owner, rec_in_file,
  first_rec,
}
use scepter.Base.{
  ℕ, Bool-cases, true≢false, ◌∙◌, inr, Option, ◌≢◌, ◌++◌, ◌≡◌, refl, arith, ◌==◌, sym, ap, inl, [],
  List, ◌∷◌, some, true, none,
}
use scepter.Fs.Locks.Overlap.{Clear, Clear-sym, Clear-rec_clash}

abbrev pub AllRecs : (LockRec → Type 0) → List LockRec → Type 0
AllRecs P [] = Unit {0}
AllRecs P (r ∷ rs) = P r × AllRecs P rs

-- Each lock of the one open file is clear of each of the other.
abbrev pub Apart : OpenFile → OpenFile → Type 0
Apart f g = AllRecs (λ r. AllRecs (Clear r) g.locks) f.locks

module _ (P Q : LockRec → Type 0) (f : (r : LockRec) → P r → Q r) where
  AllRecs-map : (rs : List LockRec) → AllRecs P rs → AllRecs Q rs
  AllRecs-map [] h = tt
  AllRecs-map (r ∷ rs) (p, h) = (f r p, AllRecs-map rs h)

module _ (P : LockRec → Type 0) where
  AllRecs-without :
      (owner : ℕ) (rs : List LockRec) → AllRecs P rs → AllRecs P (without_owner owner rs)
  unfolding without_owner
  AllRecs-without owner [] h = tt
  AllRecs-without owner (r ∷ rs) (p, h) = elim (Bool-cases (r.owner == owner)) [
    | inl mine ↦ rw mine (AllRecs-without owner rs h)
    | inr other ↦ rw other (p, AllRecs-without owner rs h)
  ]

  AllRecs-snoc : (rs : List LockRec) (r : LockRec) → AllRecs P rs → P r → AllRecs P (rs ++ (r ∷ []))
  AllRecs-snoc [] r h p = (p, tt)
  AllRecs-snoc (q ∷ rs) r (q_ok, h) p = (q_ok, AllRecs-snoc rs r h p)

-- A search that found nothing.
pub searched :
    (r : LockRec) (qs : List LockRec)
    → rec_search r.kind r.start r.len r.owner qs ≡ none
    → AllRecs (Clear r) qs
unfolding rec_search
searched r [] h = tt
searched r (q ∷ qs) h = elim (Bool-cases (rec_clash r.kind r.start r.len r.owner q)) [
  | inl found ↦ absurd (some_none q (rw found at h))
  | inr clear ↦ (Clear-rec_clash r q clear, searched r qs (rw clear at h))
]
  where
    some_none : (q : LockRec) → some q ≡ none → ⊥
    some_none q p = cc

module _ (stat_of : Stat) (me : OpenFile) (kind start len owner : ℕ) (opens : List OpenFile) where
  -- A conflict that was not found is in no other open file of the same file.
  pub no_rec_conflict :
      (addresses : List ℕ)
      → rec_conflict stat_of me kind start len owner opens addresses ≡ none
      → (j : ℕ) (g : OpenFile) → listed j addresses ≡ true
      → find_open j opens ≡ some g
      → rec_in_file stat_of me kind start len owner (some g) ≡ none
  unfolding rec_conflict
  no_rec_conflict [] h j g l e = absurd (true≢false (sym l))
  no_rec_conflict (a ∷ addresses) h j g l e =
      let (head, rest) =
        first_none (rec_in_file stat_of me kind start len owner (find_open a opens))
          (rec_conflict stat_of me kind start len owner opens addresses) h in
      elim (Bool-cases (a == j)) [
        | inr other ↦ no_rec_conflict addresses rest j g (ground arith) e
        | inl here ↦
            let same : a ≡ j = ground arith in
            ap (rec_in_file stat_of me kind start len owner)
              (sym (ap (λ x. find_open x opens) same ∙ e))
            ∙ head
      ]
    where
      first_none : (x y : Option LockRec) → first_rec x y ≡ none → (x ≡ none) × (y ≡ none)
      first_none none y p = (refl, p)
      first_none (some r) y p = absurd (some_none r p)
        where
          some_none : (q : LockRec) → some q ≡ none → ⊥
          some_none q p = cc

abbrev pub new_rec : (kind start len owner : ℕ) → LockRec
new_rec kind start len owner = record { kind = kind; start = start; len = len; owner = owner }

module _ (stat_of : Stat) where
  pub remove_keeps : (owner : ℕ) (f : OpenFile) → SameIdentity f (rec_remove_owner owner f)
  remove_keeps owner f = record {
    address = refl;
    pipe = refl;
    fs_id = refl;
    fs_private = refl;
    file_private = refl;
  }

  add_keeps :
      (kind start len owner : ℕ) (f : OpenFile) → SameIdentity f (add_rec kind start len owner f)
  add_keeps kind start len owner f = record {
    address = refl;
    pipe = refl;
    fs_id = refl;
    fs_private = refl;
    file_private = refl;
  }

  -- Removing locks.
  pub remove-Apart :
      (owner : ℕ) (s : LockState) (me : OpenFile)
      → find_open me.address s.opens ≡ some me
      → listed me.address (all_files s.holders) ≡ true
      → Pairwise stat_of Apart s
      → Pairwise stat_of Apart
          (record s { opens = update_open me.address (rec_remove_owner owner) s.opens })
  remove-Apart owner s me found mine pairs =
      Pairwise-update stat_of Apart (rec_remove_owner owner) me.address s me found
        (remove_keeps owner)
        (λ j g ne e l same. (
          AllRecs-without (λ r. AllRecs (Clear r) g.locks) owner me.locks
              (pairs me.address j me g found e ne mine l same),
          AllRecs-map (λ r. AllRecs (Clear r) me.locks)
              (λ r. AllRecs (Clear r) (without_owner owner me.locks))
              (λ r. AllRecs-without (Clear r) owner me.locks) g.locks
              (pairs j me.address g me e found (λ z. ne (sym z)) l mine
                (same_file_sym stat_of me g same)),
        ))
        pairs

  -- Adding a lock that conflicts with none.
  pub add-Apart :
      (kind start len owner : ℕ) (s : LockState) (me : OpenFile)
      → find_open me.address s.opens ≡ some me
      → listed me.address (all_files s.holders) ≡ true
      → ((j : ℕ) (g : OpenFile)
          → me.address ≢ j
          → find_open j s.opens ≡ some g
          → listed j (all_files s.holders) ≡ true
          → same_file stat_of me g ≡ true
          → AllRecs (Clear (new_rec kind start len owner)) g.locks)
      → Pairwise stat_of Apart s
      → Pairwise stat_of Apart
          (record s { opens = update_open me.address (add_rec kind start len owner) s.opens })
  add-Apart kind start len owner s me found mine clear pairs =
      Pairwise-update stat_of Apart (add_rec kind start len owner) me.address s me found
        (add_keeps kind start len owner) related pairs
    where
      new : LockRec
      new = new_rec kind start len owner

      with_new :
          (gs : List LockRec)
          → AllRecs (λ r. AllRecs (Clear r) me.locks) gs
          → AllRecs (Clear new) gs
          → AllRecs (λ r. AllRecs (Clear r) (me.locks ++ (new ∷ []))) gs
      with_new [] a b = tt
      with_new (g ∷ gs) (a, rest_a) (b, rest_b) =
          (AllRecs-snoc (Clear g) me.locks new a (Clear-sym new g b), with_new gs rest_a rest_b)

      related :
          (j : ℕ) (g : OpenFile)
          → me.address ≢ j
          → find_open j s.opens ≡ some g
          → listed j (all_files s.holders) ≡ true
          → same_file stat_of me g ≡ true
          → Apart (add_rec kind start len owner me) g × Apart g (add_rec kind start len owner me)
      related j g ne e l same = (
        AllRecs-snoc (λ r. AllRecs (Clear r) g.locks) me.locks new
            (pairs me.address j me g found e ne mine l same) (clear j g ne e l same),
        with_new g.locks
            (pairs j me.address g me e found (λ z. ne (sym z)) l mine
              (same_file_sym stat_of me g same))
            (clear j g ne e l same),
      )
