-- ===== src/Base/Bits/Step.antt =====
-- `&` and `|` on the lowest binary digit, from the recursion that the native operations stand for.
use Prim.Native.Nat.{
  ℕ, zero, suc, ◌+◌, ◌*◌, ◌/◌, ◌%◌, ◌≤◌, min, max, bit_and, bit_or, digits, bit_and-bitwise,
  bit_or-bitwise,
}
use mathlib.Core.Path.{◌≡◌, refl, ap}
use native.Mathlib.Omega.{arith}

module _ (rest : ℕ → ℕ) (op : ℕ → ℕ → ℕ) where
  -- Any fuel that covers the first word gives the same digits.
  enough_fuel : (k l w v : ℕ) → w ≤ k → w ≤ l → digits rest op k w v ≡ digits rest op l w v
  enough_fuel zero zero w v hk hl = refl
  enough_fuel zero (suc l) zero v hk hl = refl
  enough_fuel zero (suc l) (suc w) v hk hl = absurd (omega arith)
  enough_fuel (suc k) zero zero v hk hl = refl
  enough_fuel (suc k) zero (suc w) v hk hl = absurd (omega arith)
  enough_fuel (suc k) (suc l) zero v hk hl = refl
  enough_fuel (suc k) (suc l) (suc w) v hk hl =
      ap (λ d. d * 2 + op (suc w % 2) (v % 2))
        (enough_fuel k l (suc w / 2) (v / 2) (omega arith) (omega arith))

pub bit_or_step : (w v : ℕ) → bit_or w v ≡ bit_or (w / 2) (v / 2) * 2 + max (w % 2) (v % 2)
bit_or_step zero v = omega (arith, bit_or-bitwise 0 v, bit_or-bitwise 0 (v / 2))
bit_or_step (suc w) v = omega (
  arith,
  bit_or-bitwise (suc w) v,
  bit_or-bitwise (suc w / 2) (v / 2),
  enough_fuel (λ b. b) max w (suc w / 2) (suc w / 2) (v / 2) (omega arith) (omega arith),
)

pub bit_and_step : (w v : ℕ) → bit_and w v ≡ bit_and (w / 2) (v / 2) * 2 + min (w % 2) (v % 2)
bit_and_step zero v = omega (arith, bit_and-bitwise 0 v, bit_and-bitwise 0 (v / 2))
bit_and_step (suc w) v = omega (
  arith,
  bit_and-bitwise (suc w) v,
  bit_and-bitwise (suc w / 2) (v / 2),
  enough_fuel (λ b. zero) min w (suc w / 2) (suc w / 2) (v / 2) (omega arith) (omega arith),
)
