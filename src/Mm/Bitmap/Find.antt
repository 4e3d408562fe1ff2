-- ===== src/Mm/Bitmap/Find.antt =====
-- mm/buddy.c: the scan of the bitmap for free pages.
use scepter.Base.{
  ℕ, zero, suc, ◌+◌, ◌≤◌, ◌<◌, ◌≡◌, refl, ◌≢◌, List, true, false, some, inl, inr, ◌==◌, ltb,
  if◌then◌else◌, arith, Bool-cases,
}
use scepter.Mm.Bitmap.{bitmap_test, find_loop, find_free}

-- Pages `[s, s + n)` are free.
abbrev pub FreeRun : List ℕ → (s n : ℕ) → Type 0
FreeRun bm s n = (q : ℕ) → s ≤ q → q < s + n → bitmap_test bm q ≡ false

module _ (bm : List ℕ) where
  -- What the scan knows of the pages just before `i`.
  record Before (i consecutive start : ℕ) : Type 0 where
    ends : consecutive ≢ 0 → start + consecutive ≡ i
    free : consecutive ≢ 0 → FreeRun bm start consecutive

  Before-zero : (i start : ℕ) → Before i 0 start
  Before-zero i start = record { ends = λ ne. absurd (ne refl); free = λ ne. absurd (ne refl) }

  Before-suc :
      {i consecutive start : ℕ}
      → Before i consecutive start
      → bitmap_test bm i ≡ false
      → Before (i + 1) (consecutive + 1) (if consecutive == 0 then i else start)
  Before-suc {i} {consecutive} {start} b free_i = record {
    ends = λ _. ground (arith, b.ends);
    free = λ _ q lo hi. elim (Bool-cases (q == i)) [
      | inl this ↦ ground arith
      | inr other ↦ ground (arith, b.ends, λ (ne : consecutive ≢ 0). b.free ne q)
    ];
  }

module _ (bm : List ℕ) (count total : ℕ) where
  find_loop_sound :
      (left i consecutive start : ℕ) {s : ℕ}
      → Before bm i consecutive start
      → i + left ≡ total
      → find_loop bm count left i consecutive start ≡ some s
      → FreeRun bm s count × (s + count ≤ total)
  unfolding find_loop
  find_loop_sound zero i consecutive start b sum e = absurd (cc)
  find_loop_sound (suc left) i consecutive start {s} b sum e =
      elim (Bool-cases (bitmap_test bm i)) [
        | inl used ↦
            find_loop_sound left (i + 1) 0 start (Before-zero bm (i + 1) start) (omega arith)
              (ground arith)
        | inr free_i ↦
            let b' = Before-suc bm b free_i in
            elim (Bool-cases (consecutive + 1 == count)) [
              | inl done ↦
                  let at : s ≡ (if consecutive == 0 then i else start) = ground arith in
                  let size : count ≡ consecutive + 1 = ground arith in
                  let end = b'.ends (omega arith) in
                  (λ q lo hi. b'.free (omega arith) q (rw (← at) lo) (omega arith), omega arith)
              | inr more ↦
                  find_loop_sound left (i + 1) (consecutive + 1) _ b' (omega arith) (ground arith)
            ]
      ]

  find_loop-first :
      (left i consecutive start : ℕ) (s : ℕ)
      → Before bm i consecutive start
      → i + left ≡ total
      → consecutive < count
      → FreeRun bm s count
      → s + count ≤ total
      → i ≤ s + consecutive
      → (r : ℕ) × (find_loop bm count left i consecutive start ≡ some r) × (r ≤ s)
  unfolding find_loop
  find_loop-first zero i consecutive start s b sum few run fits near = absurd (omega arith)
  find_loop-first (suc left) i consecutive start s b sum few run fits near =
      elim (Bool-cases (bitmap_test bm i)) [
        | inl used ↦
            let past : i < s = before used in
            rw (used, find_loop)
              (find_loop-first left (i + 1) 0 start s (Before-zero bm (i + 1) start) (omega arith)
                (omega arith) run fits (omega arith))
        | inr free_i ↦
            let b' = Before-suc bm b free_i in
            elim (Bool-cases (consecutive + 1 == count)) [
              | inl done ↦ (
                if consecutive == 0 then i else start,
                rw (free_i, done, find_loop),
                omega (arith, b'.ends (omega arith)),
              )
              | inr more ↦
                  rw (free_i, more, find_loop)
                    (find_loop-first left (i + 1) (consecutive + 1) _ s b' (omega arith)
                      (ground arith) run fits (omega arith))
            ]
      ]
    where
      -- A page in use lies outside the run.
      before : bitmap_test bm i ≡ true → i < s
      before used = elim (Bool-cases (ltb i s)) [
        | inl lt ↦ ground arith
        | inr ge ↦ ground (arith, run i)
      ]

-- A run that the scan returns is free and lies below `total`.
pub find_free_sound :
    (bm : List ℕ) (total count : ℕ) {s : ℕ}
    → find_free bm total count ≡ some s
    → FreeRun bm s count × (s + count ≤ total)
unfolding find_free
find_free_sound bm total count e =
    find_loop_sound bm count total total 0 0 0 (Before-zero bm 0 0) (omega arith) e

-- Where there is a free run, the scan finds one, no later than it.
pub find_free-first :
    (bm : List ℕ) (total count s : ℕ)
    → 0 < count
    → FreeRun bm s count
    → s + count ≤ total
    → (r : ℕ) × (find_free bm total count ≡ some r) × (r ≤ s)
unfolding find_free
find_free-first bm total count s pos run fits =
    find_loop-first bm count total total 0 0 0 s (Before-zero bm 0 0) (omega arith) pos run fits
      (omega arith)
