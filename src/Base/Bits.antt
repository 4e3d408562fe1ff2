-- ===== src/Base/Bits.antt =====
-- A uint32_t as its bits: `w |= 1U << b`, `w &= ~(1U << b)` and `w & (1U << b)` at variables.
mod Step
use Step.{bit_or_step, bit_and_step}
use Prim.Native.Nat.{
  ℕ, zero, suc, ◌+◌, ◌-◌, ◌*◌, ◌/◌, ◌%◌, ◌^◌, ◌≤◌, ◌<◌, min, max, bit_and, bit_or,
}
use mathlib.Core.Path.{◌≡◌, refl, ap, ◌∙◌}
use mathlib.Core.Logic.{◌⊎◌, inl, inr}
use mathlib.Core.Bool.{Bool, true, false, not, ◌&&◌, ◌||◌}
use native.Mathlib.Omega.{arith}
use native.Mathlib.Nat.{pow-suc, one-le-pow}
use scepter.Base.Tests.{◌==◌, ◌!=◌, ltb, if◌then◌else◌}

-- Bit `c` of `w`.
pub bit : ℕ → ℕ → Bool
bit w zero = w % 2 == 1
bit w (suc c) = bit (w / 2) c

pub bit-bit_or : (c a b : ℕ) → bit (bit_or a b) c ≡ (bit a c || bit b c)
unfolding bit
bit-bit_or zero a b = ground (arith, bit_or_step a b)
bit-bit_or (suc c) a b =
    let half : bit_or a b / 2 ≡ bit_or (a / 2) (b / 2) = omega (arith, bit_or_step a b) in
    rw half (bit-bit_or c (a / 2) (b / 2))

pub bit-bit_and : (c a b : ℕ) → bit (bit_and a b) c ≡ (bit a c && bit b c)
unfolding bit
bit-bit_and zero a b = ground (arith, bit_and_step a b)
bit-bit_and (suc c) a b =
    let half : bit_and a b / 2 ≡ bit_and (a / 2) (b / 2) = omega (arith, bit_and_step a b) in
    rw half (bit-bit_and c (a / 2) (b / 2))

pub bit-zero : (c : ℕ) → bit 0 c ≡ false
unfolding bit
bit-zero zero = refl
bit-zero (suc c) = bit-zero c

-- `1U << b`, for b < 32.
abbrev pub shl_one : ℕ → ℕ
shl_one b = 2 ^ b

pub bit-shl_one : (c b : ℕ) → bit (shl_one b) c ≡ (b == c)
unfolding bit
bit-shl_one zero zero = refl
bit-shl_one zero (suc b) = ground (arith, pow-suc 2 b)
bit-shl_one (suc c) zero = ground (arith, bit-zero c)
bit-shl_one (suc c) (suc b) =
    let half : shl_one (suc b) / 2 ≡ shl_one b = omega (arith, pow-suc 2 b) in
    rw half (ground (arith, bit-shl_one c b))

-- `~w`, at a width of k bits.
abbrev pub complement : ℕ → ℕ → ℕ
complement k w = 2 ^ k - 1 - w

pub bit-complement : (c k w : ℕ) → w < 2 ^ k → bit (complement k w) c ≡ (ltb c k && not (bit w c))
unfolding bit
bit-complement zero zero w h = ground arith
bit-complement zero (suc k) w h = ground (arith, pow-suc 2 k)
bit-complement (suc c) zero w h =
    let none_left : complement 0 w / 2 ≡ 0 = omega arith in
    rw none_left (ground (arith, bit-zero c))
bit-complement (suc c) (suc k) w h =
    let half : complement (suc k) w / 2 ≡ complement k (w / 2) = omega (arith, pow-suc 2 k) in
    rw half (ground (arith, bit-complement c k (w / 2) (omega (arith, pow-suc 2 k))))

bit_and-zero_below : (k w : ℕ) → w ≤ k → bit_and w 0 ≡ 0
bit_and-zero_below zero zero h = refl
bit_and-zero_below zero (suc w) h = absurd (omega arith)
bit_and-zero_below (suc k) w h =
    omega (arith, bit_and_step w 0, bit_and-zero_below k (w / 2) (omega arith))

pub bit_and-zero : (w : ℕ) → bit_and w 0 ≡ 0
bit_and-zero w = bit_and-zero_below w w (omega arith)

bit_and-double : (w v : ℕ) → bit_and w (v * 2) ≡ bit_and (w / 2) v * 2
bit_and-double w v =
    let half : v * 2 / 2 ≡ v = omega arith in
    omega (arith, bit_and_step w (v * 2), ap (bit_and (w / 2)) half)

-- The test `w & (1U << b)`.
abbrev pub test_bit : ℕ → ℕ → Bool
test_bit w b = bit_and w (shl_one b) != 0

pub test_bit-bit : (b w : ℕ) → test_bit w b ≡ bit w b
unfolding bit
test_bit-bit zero w = ground (arith, bit_and_step w 1, bit_and-zero (w / 2))
test_bit-bit (suc b) w =
    let twice : shl_one (suc b) ≡ shl_one b * 2 = omega (arith, pow-suc 2 b) in
    rw twice (ground (arith, bit_and-double w (shl_one b), test_bit-bit b (w / 2)))

-- `w |= 1U << b`.
abbrev pub set_bit : ℕ → ℕ → ℕ
set_bit w b = bit_or w (shl_one b)

-- `w &= ~(1U << b)` on a uint32_t.
abbrev pub clear_bit : ℕ → ℕ → ℕ
clear_bit w b = bit_and w (complement 32 (shl_one b))

pub bit-set_bit : (w b c : ℕ) → bit (set_bit w b) c ≡ (if b == c then true else bit w c)
bit-set_bit w b c = ground (arith, bit-bit_or c w (shl_one b), bit-shl_one c b)

pub pow-lt-pow : (b k : ℕ) → b < k → 2 ^ b < 2 ^ k
pow-lt-pow b zero h = absurd (omega arith)
pow-lt-pow zero (suc k) h = omega (arith, pow-suc 2 k, one-le-pow k 2 (omega arith))
pow-lt-pow (suc b) (suc k) h = omega (arith, pow-suc 2 b, pow-suc 2 k, pow-lt-pow b k (omega arith))

pub bit-clear_bit :
    (w b c : ℕ) → b < 32 → c < 32 → bit (clear_bit w b) c ≡ (if b == c then false else bit w c)
bit-clear_bit w b c hb hc = ground (
  arith,
  bit-bit_and c w (complement 32 (shl_one b)),
  bit-complement c 32 (shl_one b) (pow-lt-pow b 32 hb),
  bit-shl_one c b,
)

bit_and-le_below : (k a b : ℕ) → a + b ≤ k → bit_and a b ≤ a
bit_and-le_below zero zero zero h = omega arith
bit_and-le_below zero zero (suc b) h = absurd (omega arith)
bit_and-le_below zero (suc a) b h = absurd (omega arith)
bit_and-le_below (suc k) a b h =
    omega (arith, bit_and_step a b, bit_and-le_below k (a / 2) (b / 2) (omega arith))

pub bit_and-le : (a b : ℕ) → bit_and a b ≤ a
bit_and-le a b = bit_and-le_below (a + b) a b (omega arith)
