-- ===== src/Fs/Vfs/Mounts/Calls.antt =====
-- fs_mount and fs_unmount of fs/vfs.c: what they do to the mount table.
use scepter.Fs.Errno.{count, fail, minus_one}
use scepter.Base.Int.{ℤ}
use scepter.Fs.Vfs.Mounts.Table.{
  mounts_at, same_string-eq, fs_is_mounted-mounts_at, set-mounts_at, release_slot-none,
  release_slot-mounts_at,
}
use scepter.Fs.Vfs.Mounts.{
  fs_unmount, Vfs, fs_mount, same_string, MountPoint, ℤ, find_fs_driver, fs_is_mounted, count, fail,
  write_slot, free_slot, driver_private, release_slot,
}
use mathlib.Core.Path.{subst}
use scepter.Base.{
  ℕ, ◌+◌, sym, arith, some, refl, [], ap, ◌≤◌, true, false, ◌≡◌, ◌⊎◌, ==_refl, Bool-cases, inl, inr,
  ◌∙◌, List, ◌∷◌, ltb, Option-cases, Option, one_if,
}

-- The conditions under which a mount succeeds.
pub record CanMount (answer : ℕ → Option (Option ℕ)) (fs_type path : List ℕ) (v : Vfs)
    (fs_id slot fs_private : ℕ) : Type 0 where
  pub unmounted : mounts_at path v.mount_table ≡ 0
  pub known : find_fs_driver v.fs_drivers fs_type ≡ some fs_id
  pub free : free_slot v.mount_table ≡ some slot
  pub accepted : driver_private (answer fs_id) ≡ some fs_private

not_mounted :
    (path : List ℕ) (ms : List MountPoint) → mounts_at path ms ≡ 0 → fs_is_mounted ms path ≡ false
not_mounted path ms e = fs_is_mounted-mounts_at ms path ∙ ap (ltb 0) e

pub fs_mount-mounts_at :
    (answer : ℕ → Option (Option ℕ)) (device_id partition_id : ℤ) (fs_type path : List ℕ) (v : Vfs)
    (fs_id slot fs_private : ℕ)
    → CanMount answer fs_type path v fs_id slot fs_private
    → (v' : Vfs) × ((fs_mount answer device_id partition_id fs_type path v ≡ (count 0, v'))
        × ((q : List ℕ)
            → mounts_at q v'.mount_table ≡ one_if (same_string path q) + mounts_at q v.mount_table))
unfolding fs_mount
fs_mount-mounts_at answer device_id partition_id fs_type path v fs_id slot fs_private c =
    let m : MountPoint = record {
      mount_path = path;
      fs_id = fs_id;
      device_id = device_id;
      partition_id = partition_id;
      fs_private = fs_private;
      in_use = true;
    } in
    (
      write_slot slot m v,
      (
        rw (not_mounted path v.mount_table c.unmounted, c.known, c.free, c.accepted) refl,
        λ q. set-mounts_at q v.mount_table slot m c.free,
      ),
    )

-- Where one of the conditions fails, a mount returns -1 and changes nothing.
pub fs_mount-cases :
    (answer : ℕ → Option (Option ℕ)) (device_id partition_id : ℤ) (fs_type path : List ℕ) (v : Vfs)
    → (fs_mount answer device_id partition_id fs_type path v ≡ (fail minus_one, v))
      ⊎ ((fs_id : ℕ) × ((slot : ℕ) × ((fs_private : ℕ) × CanMount answer fs_type path v fs_id slot
                fs_private)))
unfolding fs_mount
fs_mount-cases answer device_id partition_id fs_type path v =
    elim (Bool-cases (fs_is_mounted v.mount_table path)) [
      | inl t ↦ inl (rw t refl)
      | inr t ↦ elim (Option-cases (find_fs_driver v.fs_drivers fs_type)) [
        | inl ed ↦ inl (rw (t, ed) refl)
        | inr (fs_id, ed) ↦ elim (Option-cases (free_slot v.mount_table)) [
          | inl es ↦ inl (rw (t, ed, es) refl)
          | inr (slot, es) ↦ elim (Option-cases (driver_private (answer fs_id))) [
            | inl ea ↦ inl (rw (t, ed, es, ea) refl)
            | inr (fs_private, ea) ↦
                let none_there : mounts_at path v.mount_table ≡ 0 =
                  let h = sym (fs_is_mounted-mounts_at v.mount_table path) ∙ t in ground arith in
                inr (
                  fs_id,
                  (
                    slot,
                    (
                      fs_private,
                      record { unmounted = none_there; known = ed; free = es; accepted = ea },
                    ),
                  ),
                )
          ]
        ]
      ]
    ]

-- What an unmount does: it fails and changes nothing where the path is not mounted, and otherwise
-- takes one mount of it away, and none of any other path.
pub fs_unmount-mounts_at :
    (path : List ℕ) (v : Vfs)
    → ((mounts_at path v.mount_table ≡ 0) × (fs_unmount path v ≡ (fail minus_one, v)))
      ⊎ ((v' : Vfs) × ((fs_unmount path v ≡ (count 0, v'))
            × ((q : List ℕ)
                → mounts_at q v'.mount_table + one_if (same_string path q)
                  ≡ mounts_at q v.mount_table)))
unfolding fs_unmount
fs_unmount-mounts_at path v = elim (Option-cases (release_slot path v.mount_table)) [
  | inl en ↦ inl (release_slot-none path v.mount_table en, rw (fs_unmount, en) refl)
  | inr (ms, er) ↦ inr (
    record v { mount_table = ms },
    (rw (fs_unmount, er) refl, λ q. release_slot-mounts_at path q v.mount_table ms er),
  )
]

abbrev pub IsUnique : Vfs → Type 0
IsUnique v = (q : List ℕ) → mounts_at q v.mount_table ≤ 1

one_if-same :
    (path q : List ℕ) (n : ℕ)
    → (same_string path q ≡ true → n ≡ 0)
    → n ≤ 1
    → one_if (same_string path q) + n ≤ 1
one_if-same path q n h hn = elim (Bool-cases (same_string path q)) [
  | inl t ↦ rw t (omega (arith, h t))
  | inr t ↦ rw t (omega arith)
]

fs_mount-IsUnique :
    (answer : ℕ → Option (Option ℕ)) (device_id partition_id : ℤ) (fs_type path : List ℕ) (v : Vfs)
    → IsUnique v
    → IsUnique (fs_mount answer device_id partition_id fs_type path v).1
fs_mount-IsUnique answer device_id partition_id fs_type path v u =
    elim (fs_mount-cases answer device_id partition_id fs_type path v) [
      | inl e ↦ subst (λ r. IsUnique r.1) (sym e) u
      | inr (fs_id, (slot, (fs_private, c))) ↦
          let (v', (e, counts)) =
            fs_mount-mounts_at answer device_id partition_id fs_type path v fs_id slot fs_private
              c in
          subst (λ r. IsUnique r.1) (sym e)
            (λ q. rw (counts q) (
              one_if-same path q (mounts_at q v.mount_table)
                (λ t.
                  ap (λ p. mounts_at p v.mount_table) (sym (same_string-eq path q t)) ∙ c.unmounted)
                (u q)))
    ]

fs_unmount-IsUnique : (path : List ℕ) (v : Vfs) → IsUnique v → IsUnique (fs_unmount path v).1
fs_unmount-IsUnique path v u = elim (fs_unmount-mounts_at path v) [
  | inl (_, e) ↦ subst (λ r. IsUnique r.1) (sym e) u
  | inr (v', (e, counts)) ↦ subst (λ r. IsUnique r.1) (sym e) (λ q. omega (arith, counts q, u q))
]

-- While no path is mounted twice, that stays so whatever a mount or an unmount does, with any
-- driver and any arguments.
pub mounts-IsUnique :
    (answer : ℕ → Option (Option ℕ)) (device_id partition_id : ℤ) (fs_type path : List ℕ) (v : Vfs)
    → IsUnique v
    → IsUnique (fs_mount answer device_id partition_id fs_type path v).1
      × IsUnique (fs_unmount path v).1
mounts-IsUnique answer device_id partition_id fs_type path v u =
    (fs_mount-IsUnique answer device_id partition_id fs_type path v u, fs_unmount-IsUnique path v u)

same_string_refl : (xs : List ℕ) → same_string xs xs ≡ true
same_string_refl [] = refl
same_string_refl (x ∷ xs) = rw (==_refl x, same_string_refl xs) refl

-- Where the path is not mounted, the file system is known, a slot is free and the driver accepts,
-- a mount succeeds and the path is mounted once; an unmount of it then succeeds, and every path is
-- mounted as often as before.
pub fs_unmount-fs_mount :
    (answer : ℕ → Option (Option ℕ)) (device_id partition_id : ℤ) (fs_type path : List ℕ) (v : Vfs)
    (fs_id slot fs_private : ℕ)
    → CanMount answer fs_type path v fs_id slot fs_private
    → (v' : Vfs) × ((w : Vfs) × ((fs_mount answer device_id partition_id fs_type path v
            ≡ (count 0, v'))
          × ((fs_is_mounted v'.mount_table path ≡ true)
              × ((fs_unmount path v' ≡ (count 0, w))
                  × ((q : List ℕ) → mounts_at q w.mount_table ≡ mounts_at q v.mount_table)))))
fs_unmount-fs_mount answer device_id partition_id fs_type path v fs_id slot fs_private c =
    let (v', (e, counts)) =
      fs_mount-mounts_at answer device_id partition_id fs_type path v fs_id slot fs_private c in
    let once : mounts_at path v'.mount_table ≡ 1 =
      counts path ∙ rw (same_string_refl path, c.unmounted) refl in
    elim (fs_unmount-mounts_at path v') [
      | inl (gone, _) ↦ absurd (omega arith)
      | inr (w, (eu, after)) ↦ (
        v',
        (
          w,
          (
            e,
            (
              fs_is_mounted-mounts_at v'.mount_table path ∙ ap (ltb 0) once,
              (eu, λ q. omega (arith, counts q, after q)),
            ),
          ),
        ),
      )
    ]
