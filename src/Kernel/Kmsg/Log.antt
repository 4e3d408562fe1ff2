-- ===== src/Kernel/Kmsg/Log.antt =====
-- kmsg_putchar of kernel/kmsg.c and the log that printk() writes through it.
use scepter.Kernel.Kmsg.Ring.{
  IsValid, bytes_from, contents, distance, bytes_from-set, length-bytes_from,
}
use scepter.Kernel.Kmsg.{kmsg_putchar, Kmsg, kmsg_init, kmsg_bufsize, next_pos}
use scepter.Base.{
  ℕ, ◌++◌, ◌∷◌, length-append, ◌≢◌, drop, length-set, set, [], List, length-drop, ◌≡◌, ◌<◌, ap, ◌∙◌,
  zero, length, ◌≤◌, ◌==◌, arith, refl, ◌-◌, ◌+◌, suc, sym, Bool, append_assoc, append-nil, false,
  true, if◌then◌else◌,
}

-- The last `n` bytes.
abbrev pub newest : ℕ → List ℕ → List ℕ
newest n xs = drop (length xs - n) xs

-- The bytes that printk() emits, one after another.
abbrev pub kmsg_log : Kmsg → List ℕ → Kmsg
kmsg_log s [] = s
kmsg_log s (c ∷ cs) = kmsg_log (kmsg_putchar s c) cs

pub kmsg_init-IsValid :
    (memory : List ℕ) → length memory ≡ kmsg_bufsize → IsValid (kmsg_init memory)
unfolding kmsg_init
kmsg_init-IsValid memory h = record {
  buf_size = h;
  write_bound = omega arith;
  read_bound = omega arith;
}

pub kmsg_putchar-IsValid : (s : Kmsg) (c : ℕ) → IsValid s → IsValid (kmsg_putchar s c)
unfolding kmsg_putchar
kmsg_putchar-IsValid s c v = record {
  buf_size = length-set s.buf s.write_pos c ∙ v.buf_size;
  write_bound = omega arith;
  read_bound = ground arith;
}

distance-grows :
    (at write : ℕ)
    → at < kmsg_bufsize
    → write < kmsg_bufsize
    → next_pos write ≢ at
    → distance at (next_pos write) ≡ suc (distance at write)
distance-grows at write ha hw h = ground arith

distance-full :
    (at write : ℕ)
    → at < kmsg_bufsize
    → write < kmsg_bufsize
    → next_pos write ≡ at
    → distance (next_pos at) (next_pos write) ≡ distance at write
distance-full at write ha hw h = ground arith

distance_last :
    (at write : ℕ)
    → at < kmsg_bufsize
    → write < kmsg_bufsize
    → next_pos write ≡ at
    → distance at write ≡ 8191
distance_last at write ha hw h = ground arith

distance_room :
    (at write : ℕ)
    → at < kmsg_bufsize
    → write < kmsg_bufsize
    → next_pos write ≢ at
    → distance at write < 8191
distance_room at write ha hw h = ground arith

drop-append : (n : ℕ) (xs ys : List ℕ) → n ≤ length xs → drop n (xs ++ ys) ≡ drop n xs ++ ys
drop-append zero xs ys h = refl
drop-append (suc n) [] ys h = absurd (omega arith)
drop-append (suc n) (x ∷ xs) ys h = drop-append n xs ys (omega arith)

drop-drop : (m n k : ℕ) (xs : List ℕ) → k ≡ n + m → drop m (drop n xs) ≡ drop k xs
drop-drop m zero k xs e = ap (λ i. drop i xs) (omega arith)
drop-drop m (suc n) zero xs e = absurd (omega arith)
drop-drop zero (suc n) (suc k) [] e = refl
drop-drop (suc m) (suc n) (suc k) [] e = refl
drop-drop m (suc n) (suc k) (x ∷ xs) e = drop-drop m n k xs (omega arith)

newest-append : (n : ℕ) (xs ys : List ℕ) → newest n (newest n xs ++ ys) ≡ newest n (xs ++ ys)
newest-append n xs ys =
    ap (newest n) (sym (drop-append (length xs - n) xs ys (omega arith)))
    ∙ drop-drop _ (length xs - n) (length (xs ++ ys) - n) (xs ++ ys)
        (omega (arith, length-append xs ys, length-drop (length xs - n) (xs ++ ys)))

window-snoc :
    (s : Kmsg) (c : ℕ)
    → IsValid s
    → bytes_from (set s.buf s.write_pos c) s.read_pos (suc (distance s.read_pos s.write_pos))
      ≡ contents s ++ (c ∷ [])
window-snoc s c v =
    bytes_from-set s.buf s.read_pos s.write_pos c (distance s.read_pos s.write_pos) v.buf_size
      v.read_bound v.write_bound refl

length-snoc : (xs : List ℕ) (c : ℕ) → length (xs ++ (c ∷ [])) ≡ suc (length xs)
length-snoc xs c = length-append xs (c ∷ []) ∙ omega arith

length-window-snoc :
    (s : Kmsg) (c : ℕ) → length (contents s ++ (c ∷ [])) ≡ suc (distance s.read_pos s.write_pos)
length-window-snoc s c =
    length-snoc (contents s) c
    ∙ ap suc (length-bytes_from s.buf s.read_pos (distance s.read_pos s.write_pos))

put-contents :
    (s : Kmsg) (c : ℕ) (b : Bool)
    → IsValid s
    → (next_pos s.write_pos == s.read_pos) ≡ b
    → bytes_from
        (set s.buf s.write_pos c)
        (if b then next_pos s.read_pos else s.read_pos)
        (distance (if b then next_pos s.read_pos else s.read_pos) (next_pos s.write_pos))
      ≡ newest 8191 (contents s ++ (c ∷ []))
put-contents s c true v e =
    let h : next_pos s.write_pos ≡ s.read_pos = ground arith in
    let over : 1 ≡ length (contents s ++ (c ∷ [])) - 8191 = omega (
      arith,
      length-window-snoc s c,
      distance_last s.read_pos s.write_pos v.read_bound v.write_bound h,
    ) in
    ap (bytes_from (set s.buf s.write_pos c) (next_pos s.read_pos))
      (distance-full s.read_pos s.write_pos v.read_bound v.write_bound h)
    ∙ ap (drop 1) (window-snoc s c v)
    ∙ ap (λ k. drop k (contents s ++ (c ∷ []))) over
put-contents s c false v e =
    let h : next_pos s.write_pos ≢ s.read_pos = ground arith in
    let room : 0 ≡ length (contents s ++ (c ∷ [])) - 8191 = omega (
      arith,
      length-window-snoc s c,
      distance_room s.read_pos s.write_pos v.read_bound v.write_bound h,
    ) in
    ap (bytes_from (set s.buf s.write_pos c) s.read_pos)
      (distance-grows s.read_pos s.write_pos v.read_bound v.write_bound h)
    ∙ window-snoc s c v
    ∙ ap (λ k. drop k (contents s ++ (c ∷ []))) room

pub kmsg_putchar-contents :
    (s : Kmsg) (c : ℕ)
    → IsValid s
    → contents (kmsg_putchar s c) ≡ newest 8191 (contents s ++ (c ∷ []))
unfolding kmsg_putchar
kmsg_putchar-contents s c v = put-contents s c (next_pos s.write_pos == s.read_pos) v refl

log-contents :
    (s : Kmsg) (xs cs : List ℕ)
    → IsValid s
    → contents s ≡ newest 8191 xs
    → contents (kmsg_log s cs) ≡ newest 8191 (xs ++ cs)
log-contents s xs [] v e = e ∙ ap (newest 8191) (sym (append-nil xs))
log-contents s xs (c ∷ cs) v e =
    log-contents (kmsg_putchar s c) (xs ++ (c ∷ [])) cs (kmsg_putchar-IsValid s c v) (
      kmsg_putchar-contents s c v
      ∙ ap (λ ys. newest 8191 (ys ++ (c ∷ []))) e
      ∙ newest-append 8191 xs (c ∷ []))
    ∙ ap (newest 8191) (append_assoc xs (c ∷ []) cs)

pub kmsg_log-IsValid : (s : Kmsg) (cs : List ℕ) → IsValid s → IsValid (kmsg_log s cs)
kmsg_log-IsValid s [] v = v
kmsg_log-IsValid s (c ∷ cs) v = kmsg_log-IsValid (kmsg_putchar s c) cs (kmsg_putchar-IsValid s c v)

-- After any bytes have been logged to a fresh ring, it holds exactly the newest 8191 of them, in
-- order.
pub kmsg_log-contents :
    (memory cs : List ℕ)
    → length memory ≡ kmsg_bufsize
    → contents (kmsg_log (kmsg_init memory) cs) ≡ newest 8191 cs
unfolding kmsg_init
kmsg_log-contents memory cs h =
    log-contents (kmsg_init memory) [] cs (kmsg_init-IsValid memory h) refl
