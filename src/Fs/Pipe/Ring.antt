-- ===== src/Fs/Pipe/Ring.antt =====
-- The bytes that a pipe holds, and how they change when bytes are taken out and put in.
use scepter.Base.{
  ℕ, zero, suc, ◌+◌, ◌-◌, ◌%◌, ◌≤◌, ◌<◌, ◌≡◌, refl, sym, ap, ap₂, ◌∙◌, List, [], ◌∷◌, ◌++◌, length,
  get_or, set, take, drop, length-set, get_or-set_self, get_or-set_ne, append-nil, append_assoc,
  arith,
}
use scepter.Fs.Pipe.{Pipe, pipe_size, read_bytes, write_bytes, take_out, front}

-- The bytes in the pipe, oldest first.
abbrev pub contents : Pipe → List ℕ
contents p = front p p.filled

pub length-read_bytes : (buf : List ℕ) (t i n : ℕ) → length (read_bytes buf t i n) ≡ n
length-read_bytes buf t i zero = refl
length-read_bytes buf t i (suc n) = ap suc (length-read_bytes buf t (suc i) n)

-- Only the index in the buffer counts.
read_bytes-shift :
    (buf : List ℕ) (t u i j n : ℕ)
    → (t + i) % pipe_size ≡ (u + j) % pipe_size
    → read_bytes buf t i n ≡ read_bytes buf u j n
read_bytes-shift buf t u i j zero e = refl
read_bytes-shift buf t u i j (suc n) e =
    ap₂ ◌∷◌ (ap (λ k. get_or buf k 0) e) (read_bytes-shift buf t u (suc i) (suc j) n (omega arith))

-- Reading `n` bytes and then the rest.
pub take-read_bytes :
    (buf : List ℕ) (t i n m : ℕ) → n ≤ m → take n (read_bytes buf t i m) ≡ read_bytes buf t i n
take-read_bytes buf t i zero m h = refl
take-read_bytes buf t i (suc n) zero h = absurd (omega arith)
take-read_bytes buf t i (suc n) (suc m) h =
    ap (◌∷◌ (get_or buf ((t + i) % pipe_size) 0)) (take-read_bytes buf t (suc i) n m (omega arith))

drop-read_bytes :
    (buf : List ℕ) (t i n m : ℕ)
    → n ≤ m
    → drop n (read_bytes buf t i m) ≡ read_bytes buf t (i + n) (m - n)
drop-read_bytes buf t i zero m h = ap₂ (read_bytes buf t) (omega arith) (omega arith)
drop-read_bytes buf t i (suc n) zero h = absurd (omega arith)
drop-read_bytes buf t i (suc n) (suc m) h =
    drop-read_bytes buf t (suc i) n m (omega arith)
    ∙ ap₂ (read_bytes buf t) (omega arith) (omega arith)

-- A write just past the window leaves the window as it is, and extends it.
read_bytes-set :
    (buf : List ℕ) (t i n k x : ℕ)
    → i + n ≤ k
    → k < pipe_size
    → read_bytes (set buf ((t + k) % pipe_size) x) t i n ≡ read_bytes buf t i n
read_bytes-set buf t i zero k x h hk = refl
read_bytes-set buf t i (suc n) k x h hk =
    ap₂ ◌∷◌ (get_or-set_ne buf ((t + k) % pipe_size) ((t + i) % pipe_size) x 0 (omega arith))
      (read_bytes-set buf t (suc i) n k x (omega arith) hk)

read_bytes-snoc :
    (buf : List ℕ) (t i n : ℕ)
    → read_bytes buf t i (suc n)
      ≡ read_bytes buf t i n ++ (get_or buf ((t + (i + n)) % pipe_size) 0 ∷ [])
read_bytes-snoc buf t i zero = ap (λ k. get_or buf k 0 ∷ []) (omega arith)
read_bytes-snoc buf t i (suc n) = ap (◌∷◌ (get_or buf ((t + i) % pipe_size) 0)) (
    read_bytes-snoc buf t (suc i) n
    ∙ ap (λ k. read_bytes buf t (suc i) n ++ (get_or buf (k % pipe_size) 0 ∷ [])) (omega arith))

read_bytes-set_snoc :
    (buf : List ℕ) (t n k x : ℕ)
    → k ≡ (t + n) % pipe_size
    → n < pipe_size
    → length buf ≡ pipe_size
    → read_bytes (set buf k x) t 0 (suc n) ≡ read_bytes buf t 0 n ++ (x ∷ [])
read_bytes-set_snoc buf t n k x at h size =
    read_bytes-snoc (set buf k x) t 0 n
    ∙ ap₂ (λ r y. r ++ (y ∷ [])) (rw at (read_bytes-set buf t 0 n n x (omega arith) h))
        (ap (λ j. get_or (set buf k x) j 0) (omega arith) ∙ get_or-set_self buf k x 0 (omega arith))

pub read_bytes-write :
    (buf : List ℕ) (t h i n : ℕ) (xs : List ℕ)
    → (t + n) % pipe_size ≡ (h + i) % pipe_size
    → n + length xs ≤ pipe_size
    → length buf ≡ pipe_size
    → read_bytes (write_bytes buf h i xs) t 0 (n + length xs) ≡ read_bytes buf t 0 n ++ xs
unfolding write_bytes
read_bytes-write buf t h i n [] at fits size =
    ap (read_bytes buf t 0) (omega arith) ∙ sym (append-nil _)
read_bytes-write buf t h i n (x ∷ xs) at fits size =
    ap (read_bytes (write_bytes buf' h (suc i) xs) t 0) (omega arith)
    ∙ read_bytes-write buf' t h (suc i) (suc n) xs (omega arith) (omega arith)
        (length-set buf ((h + i) % pipe_size) x ∙ size)
    ∙ ap (λ r. r ++ xs) (read_bytes-set_snoc buf t n _ x (sym at) (omega arith) size)
    ∙ append_assoc (read_bytes buf t 0 n) (x ∷ []) xs
  where
    buf' : List ℕ
    buf' = set buf ((h + i) % pipe_size) x

pub length-write_bytes :
    (buf : List ℕ) (h i : ℕ) (xs : List ℕ) → length (write_bytes buf h i xs) ≡ length buf
unfolding write_bytes
length-write_bytes buf h i [] = refl
length-write_bytes buf h i (x ∷ xs) =
    length-write_bytes (set buf ((h + i) % pipe_size) x) h (suc i) xs
    ∙ length-set buf ((h + i) % pipe_size) x

-- Taking bytes out leaves the rest.
pub contents-take_out :
    (p : Pipe) (n : ℕ) → n ≤ p.filled → contents (take_out p n) ≡ drop n (contents p)
unfolding take_out
contents-take_out p n h =
    read_bytes-shift p.buf ((p.tail + n) % pipe_size) p.tail 0 n (p.filled - n) (omega arith)
    ∙ sym (
        drop-read_bytes p.buf p.tail 0 n p.filled h
        ∙ ap (λ k. read_bytes p.buf p.tail k (p.filled - n)) (omega arith))
