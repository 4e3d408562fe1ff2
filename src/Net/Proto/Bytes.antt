-- ===== src/Net/Proto/Bytes.antt =====
-- The bytes that net/proto.c writes into its replies, and a checksum among them.
use scepter.Net.Checksum.{put_be16, net_checksum}
use scepter.Net.Checksum.Valid.{AllBytes, flatten, more_bytes, no_bytes, net_checksum-Valid}
use scepter.Net.Proto.{write_at, checked, put_be16, with_checksum}
use mathlib.Core.Path.{subst}
use scepter.Base.{
  ℕ, length, ◌+◌, ◌/◌, suc, set, ◌<◌, ◌%◌, ◌∷◌, [], ◌∙◌, ◌++◌, arith, List, refl, ◌≡◌, ◌≤◌, drop,
  some, zero, ap, take, length-set,
}

pub AllBytes-take : (n : ℕ) (xs : List ℕ) → AllBytes xs → AllBytes (take n xs)
AllBytes-take zero xs b = no_bytes
AllBytes-take (suc n) [] b = no_bytes
AllBytes-take (suc n) (x ∷ xs) (more_bytes h b) = more_bytes h (AllBytes-take n xs b)

pub AllBytes-drop : (n : ℕ) (xs : List ℕ) → AllBytes xs → AllBytes (drop n xs)
AllBytes-drop zero xs b = b
AllBytes-drop (suc n) [] b = no_bytes
AllBytes-drop (suc n) (x ∷ xs) (more_bytes h b) = AllBytes-drop n xs b

AllBytes-set : (xs : List ℕ) (i v : ℕ) → v < 256 → AllBytes xs → AllBytes (set xs i v)
AllBytes-set [] i v h b = no_bytes
AllBytes-set (x ∷ xs) zero v h (more_bytes _ b) = more_bytes h b
AllBytes-set (x ∷ xs) (suc i) v h (more_bytes hx b) = more_bytes hx (AllBytes-set xs i v h b)

pub AllBytes-write_at :
    (buf : List ℕ) (i : ℕ) (xs : List ℕ) → AllBytes buf → AllBytes xs → AllBytes (write_at buf i xs)
AllBytes-write_at buf i [] b bx = b
AllBytes-write_at buf i (x ∷ xs) b (more_bytes h bx) =
    AllBytes-write_at (set buf i x) (i + 1) xs (AllBytes-set buf i x h b) bx

pub length-write_at : (buf : List ℕ) (i : ℕ) (xs : List ℕ) → length (write_at buf i xs) ≡ length buf
length-write_at buf i [] = refl
length-write_at buf i (x ∷ xs) = length-write_at (set buf i x) (i + 1) xs ∙ length-set buf i x

pub put_be16-AllBytes : (v : ℕ) → v < 65536 → AllBytes (put_be16 v)
put_be16-AllBytes v h = more_bytes (omega arith) (more_bytes (omega arith) no_bytes)

abbrev double : ℕ → ℕ
double zero = 0
double (suc n) = suc (suc (double n))

split_pairs :
    (n : ℕ) (xs : List ℕ)
    → double n + 2 ≤ length xs
    → (ps : List (ℕ × ℕ)) × ((a : ℕ) × ((b : ℕ) × ((ys : List ℕ) × ((xs
                ≡ flatten ps ++ (a ∷ b ∷ ys))
              × (length ps ≡ n)))))
split_pairs zero [] h = absurd (omega arith)
split_pairs zero (x ∷ []) h = absurd (omega arith)
split_pairs zero (x ∷ y ∷ xs) h = ([], (x, (y, (xs, (refl, refl)))))
split_pairs (suc n) [] h = absurd (omega arith)
split_pairs (suc n) (x ∷ []) h = absurd (omega arith)
split_pairs (suc n) (x ∷ y ∷ xs) h =
    let (ps, (a, (b, (ys, (e, l))))) = split_pairs n xs (omega arith) in
    ((x, y) ∷ ps, (a, (b, (ys, (ap (λ zs. x ∷ y ∷ zs) e, ap suc l)))))

set_pair :
    (ps : List (ℕ × ℕ)) (a b u v : ℕ) (ys : List ℕ)
    → set (set (flatten ps ++ (a ∷ b ∷ ys)) (double (length ps)) u) (suc (double (length ps))) v
      ≡ flatten ps ++ (u ∷ v ∷ ys)
set_pair [] a b u v ys = refl
set_pair (p ∷ ps) a b u v ys = ap (λ zs. p.0 ∷ p.1 ∷ zs) (set_pair ps a b u v ys)

write_at-pair :
    (ps : List (ℕ × ℕ)) (a b u v : ℕ) (ys : List ℕ)
    → length ps ≡ 5
    → write_at (flatten ps ++ (a ∷ b ∷ ys)) 10 (u ∷ v ∷ []) ≡ flatten ps ++ (u ∷ v ∷ ys)
write_at-pair ps a b u v ys h =
    let place : double (length ps) ≡ 10 = ap double h in
    subst (λ n. set (set (flatten ps ++ (a ∷ b ∷ ys)) n u) (suc n) v ≡ flatten ps ++ (u ∷ v ∷ ys))
      place (set_pair ps a b u v ys)

-- A checksum put into bytes 10 and 11, which were 0, makes the whole add up.
pub checked-Valid :
    (bytes : List ℕ)
    → AllBytes bytes
    → 12 ≤ length bytes
    → length bytes ≤ 65536
    → (header : List ℕ) × ((checked (write_at bytes 10 (put_be16 0)) 10 ≡ some header)
        × (net_checksum header ≡ some 0))
checked-Valid bytes bs hl hm =
    let (ps, (a, (b, (ys, (e, l))))) = split_pairs 5 bytes hl in
    let zeroed : write_at bytes 10 (put_be16 0) ≡ flatten ps ++ (0 ∷ 0 ∷ ys) =
      ap (λ xs. write_at xs 10 (0 ∷ 0 ∷ [])) e ∙ write_at-pair ps a b 0 0 ys l in
    let zeroed_bytes : AllBytes (flatten ps ++ (0 ∷ 0 ∷ ys)) =
      subst AllBytes zeroed
        (AllBytes-write_at bytes 10 (put_be16 0) bs (put_be16-AllBytes 0 (omega arith))) in
    let size : length (flatten ps ++ (0 ∷ 0 ∷ ys)) ≤ 65536 =
      subst (λ xs. length xs ≤ 65536) zeroed
        (omega (arith, length-write_at bytes 10 (put_be16 0))) in
    let (c, (ec, ev)) = net_checksum-Valid ps ys zeroed_bytes size in
    (
      flatten ps ++ (put_be16 c ++ ys),
      (
        ap (λ xs. checked xs 10) zeroed
            ∙ ap (with_checksum (flatten ps ++ (0 ∷ 0 ∷ ys)) 10) ec
            ∙ ap some (write_at-pair ps 0 0 (c / 256) (c % 256) ys l),
        ev,
      ),
    )
