-- ===== src/Mm/Bitmap/Bits.antt =====
-- A write to a page's bit, read back at any page.
use scepter.Base.{
  ℕ, zero, suc, ◌+◌, ◌*◌, ◌/◌, ◌%◌, ◌≤◌, ◌<◌, ◌≡◌, refl, ◌∙◌, List, Bool, true, false, inl, inr,
  ◌==◌, ltb, leb, ◌&&◌, if◌then◌else◌, get_or, set, length, replicate, get_or-replicate, length-set,
  get_or-set_self, get_or-set_ne, arith, Bool-cases,
}
use scepter.Base.Bits.{bit, bit-zero, test_bit-bit, bit-set_bit, bit-clear_bit}
use scepter.Mm.Bitmap.{bitmap_test, bitmap_set, bitmap_clear, set_range, clear_range}

-- A write to word `p / 32` whose bits are those of `w` but for bit `p % 32`, which is `v`.
update_word :
    (bm : List ℕ) (p q w : ℕ) (v : Bool)
    → p / 32 < length bm
    → ((c : ℕ) → c < 32 → bit w c ≡ (if p % 32 == c then v else bit (get_or bm (p / 32) 0) c))
    → bitmap_test (set bm (p / 32) w) q ≡ (if p == q then v else bitmap_test bm q)
unfolding bitmap_test
update_word bm p q w v h bits = elim (Bool-cases (p / 32 == q / 32)) [
  | inl same ↦
      let e : p / 32 ≡ q / 32 = ground arith in
      ground (
        arith,
        test_bit-bit (q % 32) (get_or (set bm (p / 32) w) (q / 32) 0),
        test_bit-bit (q % 32) (get_or bm (q / 32) 0),
        get_or-set_self bm (p / 32) w 0 h,
        bits (q % 32) (omega arith),
      )
  | inr other ↦ ground (arith, get_or-set_ne bm (p / 32) (q / 32) w 0)
]

pub test-bitmap_set :
    (bm : List ℕ) (p q : ℕ)
    → p / 32 < length bm
    → bitmap_test (bitmap_set bm p) q ≡ (if p == q then true else bitmap_test bm q)
unfolding bitmap_set
test-bitmap_set bm p q h =
    update_word bm p q _ true h (λ c _. bit-set_bit (get_or bm (p / 32) 0) (p % 32) c)

pub test-bitmap_clear :
    (bm : List ℕ) (p q : ℕ)
    → p / 32 < length bm
    → bitmap_test (bitmap_clear bm p) q ≡ (if p == q then false else bitmap_test bm q)
unfolding bitmap_clear
test-bitmap_clear bm p q h =
    update_word bm p q _ false h
      (λ c hc. bit-clear_bit (get_or bm (p / 32) 0) (p % 32) c (omega arith) hc)

pub length-bitmap_set : (bm : List ℕ) (p : ℕ) → length (bitmap_set bm p) ≡ length bm
unfolding bitmap_set
length-bitmap_set bm p = length-set bm _ _

pub length-bitmap_clear : (bm : List ℕ) (p : ℕ) → length (bitmap_clear bm p) ≡ length bm
unfolding bitmap_clear
length-bitmap_clear bm p = length-set bm _ _

pub length-set_range : (bm : List ℕ) (s n : ℕ) → length (set_range bm s n) ≡ length bm
unfolding set_range
length-set_range bm s zero = refl
length-set_range bm s (suc n) =
    length-bitmap_set (set_range bm s n) (s + n) ∙ length-set_range bm s n

pub length-clear_range : (bm : List ℕ) (s n : ℕ) → length (clear_range bm s n) ≡ length bm
unfolding clear_range
length-clear_range bm s zero = refl
length-clear_range bm s (suc n) =
    length-bitmap_clear (clear_range bm s n) (s + n) ∙ length-clear_range bm s n

-- A cleared bitmap.
pub test-replicate : (n p : ℕ) → bitmap_test (replicate n 0) p ≡ false
unfolding bitmap_test
test-replicate n p =
    rw (get_or-replicate {A = ℕ} n (p / 32) 0) (test_bit-bit (p % 32) 0 ∙ bit-zero (p % 32))

-- Page `q` lies in `[s, s + n)`.
abbrev pub within : (s n q : ℕ) → Bool
within s n q = leb s q && ltb q (s + n)

-- The loop marks its range and nothing else.
pub test-set_range :
    (bm : List ℕ) (s n q : ℕ)
    → s + n ≤ 32 * length bm
    → bitmap_test (set_range bm s n) q ≡ (if within s n q then true else bitmap_test bm q)
unfolding set_range
test-set_range bm s zero q h = ground arith
test-set_range bm s (suc n) q h = ground (
  arith,
  test-bitmap_set (set_range bm s n) (s + n) q (omega (arith, length-set_range bm s n)),
  test-set_range bm s n q (omega arith),
)

pub test-clear_range :
    (bm : List ℕ) (s n q : ℕ)
    → s + n ≤ 32 * length bm
    → bitmap_test (clear_range bm s n) q ≡ (if within s n q then false else bitmap_test bm q)
unfolding clear_range
test-clear_range bm s zero q h = ground arith
test-clear_range bm s (suc n) q h = ground (
  arith,
  test-bitmap_clear (clear_range bm s n) (s + n) q (omega (arith, length-clear_range bm s n)),
  test-clear_range bm s n q (omega arith),
)
