-- ===== src/Fs/Vfs/Mounts/Table.antt =====
-- The mount table of fs/vfs.c: how often a path is mounted, before and after a call.
use scepter.Fs.Vfs.Mounts.{free_slot, release_slot, fs_is_mounted, MountPoint, same_string}
use mathlib.Core.Path.{subst}
use scepter.Base.{
  ℕ, ◌≡◌, set, true≢false, none≢some, ◌==◌, lt→ltb, arith, ◌&&◌, ap, inl, Bool-cases, [], some_inj,
  some, Option-cases, none, ◌∙◌, ltb, inr, refl, sym, ◌+◌, true, ◌∷◌, List, ap₂, both_true, one_if,
}

abbrev pub mounts_at : List ℕ → List MountPoint → ℕ
mounts_at path [] = 0
mounts_at path (m ∷ ms) = one_if (m.in_use && same_string m.mount_path path) + mounts_at path ms

pub fs_is_mounted-mounts_at :
    (ms : List MountPoint) (path : List ℕ) → fs_is_mounted ms path ≡ ltb 0 (mounts_at path ms)
unfolding fs_is_mounted
fs_is_mounted-mounts_at [] path = refl
fs_is_mounted-mounts_at (m ∷ ms) path =
    elim (Bool-cases (m.in_use && same_string m.mount_path path)) [
      | inl t ↦ rw t (sym (lt→ltb 0 (1 + mounts_at path ms) (omega arith)))
      | inr t ↦ rw t (fs_is_mounted-mounts_at ms path ∙ ap (ltb 0) (omega arith))
    ]

pub same_string-eq : (xs ys : List ℕ) → same_string xs ys ≡ true → xs ≡ ys
same_string-eq [] [] e = refl
same_string-eq [] (y ∷ ys) e = absurd (true≢false (sym e))
same_string-eq (x ∷ xs) [] e = absurd (true≢false (sym e))
same_string-eq (x ∷ xs) (y ∷ ys) e =
    let (ex, es) = both_true (x == y) (same_string xs ys) e in
    let head : x ≡ y = ground arith in ap₂ ◌∷◌ head (same_string-eq xs ys es)

-- A new mount in a free slot is counted once more.
pub set-mounts_at :
    (path : List ℕ) (ms : List MountPoint) (slot : ℕ) (m : MountPoint)
    → free_slot ms ≡ some slot
    → mounts_at path (set ms slot m)
      ≡ one_if (m.in_use && same_string m.mount_path path) + mounts_at path ms
unfolding free_slot
set-mounts_at path [] slot m e = absurd (none≢some slot e)
set-mounts_at path (f ∷ ms) slot m e = elim (Bool-cases f.in_use) [
  | inl t ↦ elim (Option-cases (free_slot ms)) [
    | inl en ↦ absurd (none≢some slot (rw (free_slot, t, en) at e))
    | inr (j, ej) ↦
        subst
          (λ k.
            mounts_at path (set (f ∷ ms) k m)
            ≡ one_if (m.in_use && same_string m.mount_path path) + mounts_at path (f ∷ ms))
          (some_inj (rw (free_slot, t, ej) at e)) (omega (arith, set-mounts_at path ms j m ej))
  ]
  | inr t ↦
      subst
        (λ k.
          mounts_at path (set (f ∷ ms) k m)
          ≡ one_if (m.in_use && same_string m.mount_path path) + mounts_at path (f ∷ ms))
        (some_inj (rw (free_slot, t) at e)) (rw t (omega arith))
]

-- The slot that is released is counted no more.
released :
    (path q : List ℕ) (m : MountPoint) (n : ℕ)
    → (m.in_use && same_string m.mount_path path) ≡ true
    → n + one_if (same_string path q) ≡ one_if (m.in_use && same_string m.mount_path q) + n
released path q m n t =
    let (used, named) = both_true m.in_use (same_string m.mount_path path) t in
    rw (used, same_string-eq m.mount_path path named) (omega arith)

pub release_slot-mounts_at :
    (path q : List ℕ) (ms ms' : List MountPoint)
    → release_slot path ms ≡ some ms'
    → mounts_at q ms' + one_if (same_string path q) ≡ mounts_at q ms
unfolding release_slot
release_slot-mounts_at path q [] ms' e = absurd (none≢some ms' e)
release_slot-mounts_at path q (m ∷ ms) ms' e =
    elim (Bool-cases (m.in_use && same_string m.mount_path path)) [
      | inl t ↦
          subst (λ xs. mounts_at q xs + one_if (same_string path q) ≡ mounts_at q (m ∷ ms))
            (some_inj (rw (release_slot, t) at e))
            (omega (arith, released path q m (mounts_at q ms) t))
      | inr t ↦ elim (Option-cases (release_slot path ms)) [
        | inl en ↦ absurd (none≢some ms' (rw (release_slot, t, en) at e))
        | inr (rest, er) ↦
            subst (λ xs. mounts_at q xs + one_if (same_string path q) ≡ mounts_at q (m ∷ ms))
              (some_inj (rw (release_slot, t, er) at e))
              (omega (arith, release_slot-mounts_at path q ms rest er))
      ]
    ]

pub release_slot-none :
    (path : List ℕ) (ms : List MountPoint) → release_slot path ms ≡ none → mounts_at path ms ≡ 0
unfolding release_slot
release_slot-none path [] e = refl
release_slot-none path (m ∷ ms) e = elim (Bool-cases (m.in_use && same_string m.mount_path path)) [
  | inl t ↦ absurd (none≢some _ (sym (rw (release_slot, t) at e)))
  | inr t ↦ elim (Option-cases (release_slot path ms)) [
    | inl en ↦ rw t (omega (arith, release_slot-none path ms en))
    | inr (rest, er) ↦ absurd (none≢some _ (sym (rw (release_slot, t, er) at e)))
  ]
]
