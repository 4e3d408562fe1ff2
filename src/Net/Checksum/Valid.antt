-- ===== src/Net/Checksum/Valid.antt =====
-- net_checksum of net/proto.c, as sender and receiver of a header use it.
use scepter.Net.Checksum.{fold_carries, be16, sum_words, net_checksum, put_be16}
use scepter.Base.{
  ℕ, ◌∷◌, [], some, ◌%◌, ap, ◌^◌, ◌+◌, List, ◌<◌, ◌≡◌, ◌≤◌, arith, ◌∙◌, ◌*◌, length, ◌==◌, Option,
  suc, inl, ltb→lt, true, false, Bool-cases, ltb, ◌/◌, refl, inr, ◌++◌, ◌⊎◌, option_map, zero, ◌-◌,
}

-- The words added up without a limit.
abbrev pub total : List ℕ → ℕ
total [] = 0
total (hi ∷ []) = hi * 256
total (hi ∷ lo ∷ xs) = be16 hi lo + total xs

pub data AllBytes : List ℕ → Type 0 where
  no_bytes : AllBytes []
  more_bytes : {x : ℕ} {xs : List ℕ} → x < 256 → AllBytes xs → AllBytes (x ∷ xs)

total-bound : (xs : List ℕ) → AllBytes xs → total xs ≤ 65535 * length xs
total-bound [] b = omega arith
total-bound (hi ∷ []) (more_bytes h b) = omega arith
total-bound (hi ∷ lo ∷ xs) (more_bytes h (more_bytes l b)) = omega (arith, total-bound xs b)

sum_words-total :
    (sum : ℕ) (xs : List ℕ) → sum + total xs < 2 ^ 32 → sum_words sum xs ≡ sum + total xs
sum_words-total sum [] h = omega arith
sum_words-total sum (hi ∷ []) h = omega arith
sum_words-total sum (hi ∷ lo ∷ xs) h =
    let small : (sum + be16 hi lo) % 2 ^ 32 ≡ sum + be16 hi lo = omega arith in
    ap (λ s. sum_words s xs) small
    ∙ sum_words-total (sum + be16 hi lo) xs (omega arith)
    ∙ omega arith

-- What folding has done: the result fits into 16 bits and differs by a multiple of 65535.
abbrev IsFolded : (sum : ℕ) → Option ℕ → Type 0
IsFolded sum o =
    (r : ℕ) × ((o ≡ some r)
      × ((r < 65536) × (((sum ≡ 0) ⊎ (0 < r)) × ((k : ℕ) × (sum ≡ r + 65535 * k)))))

zero_or_not : (n : ℕ) → (n ≡ 0) ⊎ (0 < n)
zero_or_not zero = inl refl
zero_or_not (suc n) = inr (omega arith)

fold-done : (fuel sum : ℕ) → sum < 65536 → IsFolded sum (fold_carries (suc fuel) sum)
unfolding fold_carries
fold-done fuel sum h =
    let none_left : (sum / 65536 == 0) ≡ true = ground arith in
    (sum, (rw none_left refl, (h, (zero_or_not sum, (0, omega arith)))))

fold-more :
    (fuel sum : ℕ)
    → 65536 ≤ sum
    → IsFolded (sum % 65536 + sum / 65536) (fold_carries fuel (sum % 65536 + sum / 65536))
    → IsFolded sum (fold_carries (suc fuel) sum)
unfolding fold_carries
fold-more fuel sum h (r, (e, (hr, (hz, (k, hk))))) =
    let some_left : (sum / 65536 == 0) ≡ false = ground arith in
    let positive : 0 < r = elim hz [ inl z ↦ absurd (omega arith) | inr p ↦ p ] in
    (r, (rw some_left e, (hr, (inr positive, (k + sum / 65536, omega arith)))))

fold-by :
    (fuel sum : ℕ)
    → (65536 ≤ sum
        → IsFolded (sum % 65536 + sum / 65536) (fold_carries fuel (sum % 65536 + sum / 65536)))
    → IsFolded sum (fold_carries (suc fuel) sum)
fold-by fuel sum h = elim (Bool-cases (ltb sum 65536)) [
  | inl t ↦ fold-done fuel sum (ltb→lt sum 65536 t)
  | inr t ↦ let big : 65536 ≤ sum = ground arith in fold-more fuel sum big (h big)
]

-- Four turns are more than enough for a sum of 32 bits.
fold_carries_lem : (sum : ℕ) → sum < 2 ^ 32 → IsFolded sum (fold_carries 4 sum)
fold_carries_lem sum h =
    let next = sum % 65536 + sum / 65536 in
    fold-by 3 sum
      (λ _. fold-by 2 next (λ big. fold-done 1 (next % 65536 + next / 65536) (omega arith)))

-- Bytes in pairs.
abbrev pub flatten : List (ℕ × ℕ) → List ℕ
flatten [] = []
flatten (p ∷ ps) = p.0 ∷ p.1 ∷ flatten ps

total-flatten :
    (ps : List (ℕ × ℕ)) (hi lo : ℕ) (ys : List ℕ)
    → total (flatten ps ++ (hi ∷ lo ∷ ys)) ≡ be16 hi lo + total (flatten ps ++ (0 ∷ 0 ∷ ys))
total-flatten [] hi lo ys = omega arith
total-flatten (p ∷ ps) hi lo ys = omega (arith, total-flatten ps hi lo ys)

checksum-total :
    (xs : List ℕ) (r : ℕ)
    → total xs < 2 ^ 32
    → fold_carries 4 (total xs) ≡ some r
    → net_checksum xs ≡ some (65535 - r)
unfolding net_checksum
checksum-total xs r h e =
    let sum : sum_words 0 xs ≡ total xs = sum_words-total 0 xs (omega arith) ∙ omega arith in
    ap (λ s. option_map (λ n. 65535 - n) (fold_carries 4 s)) sum
    ∙ ap (option_map (λ n. 65535 - n)) e

-- The checksum of a header of bytes in which the two bytes for it are 0, at an even place, is
-- found, and with it in that place the checksum of the header is 0, as a receiver tests.
pub net_checksum-Valid :
    (ps : List (ℕ × ℕ)) (ys : List ℕ)
    → AllBytes (flatten ps ++ (0 ∷ 0 ∷ ys))
    → length (flatten ps ++ (0 ∷ 0 ∷ ys)) ≤ 65536
    → (c : ℕ) × ((net_checksum (flatten ps ++ (0 ∷ 0 ∷ ys)) ≡ some c)
        × (net_checksum (flatten ps ++ (put_be16 c ++ ys)) ≡ some 0))
net_checksum-Valid ps ys b h =
    let zeroed = flatten ps ++ (0 ∷ 0 ∷ ys) in
    let bound = total-bound zeroed b in
    let (r, (er, (hr, (_, (k, hk))))) = fold_carries_lem (total zeroed) (omega arith) in
    let c = 65535 - r in
    let filled = flatten ps ++ (c / 256 ∷ c % 256 ∷ ys) in
    let sum : total filled ≡ 65535 * (k + 1) =
      total-flatten ps (c / 256) (c % 256) ys ∙ omega arith in
    let (r', (er', (hr', (hz', (k', hk'))))) = fold_carries_lem (total filled) (omega arith) in
    let full : 65535 - r' ≡ 0 = elim hz' [ inl z ↦ absurd (omega arith) | inr p ↦ omega arith ] in
    (
      c,
      (
        checksum-total zeroed r (omega arith) er,
        checksum-total filled r' (omega arith) er' ∙ ap some full,
      ),
    )

-- Of up to 65536 bytes the checksum is always found.
pub net_checksum-total :
    (xs : List ℕ) → AllBytes xs → length xs ≤ 65536 → (c : ℕ) × (net_checksum xs ≡ some c)
net_checksum-total xs b h =
    let bound = total-bound xs b in
    let (r, (er, _)) = fold_carries_lem (total xs) (omega arith) in
    (65535 - r, checksum-total xs r (omega arith) er)
