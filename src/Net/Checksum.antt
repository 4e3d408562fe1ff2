-- ===== src/Net/Checksum.antt =====
-- net/proto.c: big-endian words and the checksum of the Internet protocols.
pub mod Valid
use scepter.Base.{
  ℕ, ◌%◌, ◌*◌, option_map, [], ◌^◌, ◌+◌, ◌==◌, ◌/◌, ◌∷◌, suc, Option, none, some, if◌then◌else◌,
  ◌-◌, zero, List,
}

abbrev pub be16 : (hi lo : ℕ) → ℕ
be16 hi lo = hi * 256 + lo

-- The two bytes that `put_be16` writes.
abbrev pub put_be16 : ℕ → List ℕ
put_be16 v = v / 256 ∷ v % 256 ∷ []

-- The loop over the pairs of bytes, with the last odd byte; `sum` is a uint32_t.
abbrev pub sum_words : (sum : ℕ) → List ℕ → ℕ
sum_words sum [] = sum
sum_words sum (hi ∷ []) = (sum + hi * 256) % 2 ^ 32
sum_words sum (hi ∷ lo ∷ data_rest) = sum_words ((sum + be16 hi lo) % 2 ^ 32) data_rest

-- `while (sum >> 16)`; `none` means that the fuel ran out.
unfoldable pub fold_carries : (fuel : ℕ) → (sum : ℕ) → Option ℕ
fold_carries zero sum = none
fold_carries (suc fuel) sum =
    let rest = fold_carries fuel (sum % 65536 + sum / 65536) in
    if sum / 65536 == 0 then some sum else rest

unfoldable pub net_checksum : List ℕ → Option ℕ
net_checksum bytes = option_map (λ sum. 65535 - sum) (fold_carries 4 (sum_words 0 bytes))
