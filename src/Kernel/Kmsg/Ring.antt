-- ===== src/Kernel/Kmsg/Ring.antt =====
-- The bytes in the ring of kernel/kmsg.c, and their change when one more is put in.
use scepter.Kernel.Kmsg.{Kmsg, next_pos, kmsg_bufsize}
use scepter.Base.{
  ℕ, ◌<◌, zero, arith, refl, set, get_or-set_ne, ◌≡◌, ◌+◌, ◌++◌, [], length, ◌∷◌, List, get_or,
  if◌then◌else◌, ◌≢◌, leb, suc, ap, get_or-set_self, ◌∙◌, ap₂, ◌-◌, sym,
}

pub record IsValid (s : Kmsg) : Type 0 where
  pub buf_size : length s.buf ≡ kmsg_bufsize
  pub write_bound : s.write_pos < kmsg_bufsize
  pub read_bound : s.read_pos < kmsg_bufsize

-- The number of bytes from one position to another, and the bytes themselves.
abbrev pub distance : ℕ → ℕ → ℕ
distance at write = if leb at write then write - at else write + kmsg_bufsize - at

abbrev pub bytes_from : List ℕ → (at n : ℕ) → List ℕ
bytes_from buf at zero = []
bytes_from buf at (suc n) = get_or buf at 0 ∷ bytes_from buf (next_pos at) n

-- The bytes in the ring, oldest first.
abbrev pub contents : Kmsg → List ℕ
contents s = bytes_from s.buf s.read_pos (distance s.read_pos s.write_pos)

pub distance-bound :
    (at write : ℕ) → at < kmsg_bufsize → write < kmsg_bufsize → distance at write < kmsg_bufsize
distance-bound at write hp hw = ground arith

pub distance-next :
    (at write d : ℕ)
    → at < kmsg_bufsize
    → write < kmsg_bufsize
    → distance at write ≡ suc d
    → distance (next_pos at) write ≡ d
distance-next at write d hp hw e = ground arith

pub distance_zero :
    (at write : ℕ) → at < kmsg_bufsize → write < kmsg_bufsize → distance at write ≡ 0 → at ≡ write
distance_zero at write hp hw e = ground arith

pub distance-suc : (at write d : ℕ) → distance at write ≡ suc d → at ≢ write
distance-suc at write d e h = ground arith

pub length-bytes_from : (buf : List ℕ) (at n : ℕ) → length (bytes_from buf at n) ≡ n
length-bytes_from buf at zero = refl
length-bytes_from buf at (suc n) = ap suc (length-bytes_from buf (next_pos at) n)

-- A byte written at the end of the window joins it.
pub bytes_from-set :
    (buf : List ℕ) (at write c d : ℕ)
    → length buf ≡ kmsg_bufsize
    → at < kmsg_bufsize
    → write < kmsg_bufsize
    → distance at write ≡ d
    → bytes_from (set buf write c) at (suc d) ≡ bytes_from buf at d ++ (c ∷ [])
bytes_from-set buf at write c zero hl hp hw e =
    ap (λ x. x ∷ [])
      (ap (λ p. get_or (set buf write c) p 0) (distance_zero at write hp hw e)
        ∙ get_or-set_self buf write c 0 (omega arith))
bytes_from-set buf at write c (suc d) hl hp hw e =
    ap₂ ◌∷◌ (get_or-set_ne buf write at c 0 (λ h. distance-suc at write d e (sym h))) (
      bytes_from-set buf (next_pos at) write c d hl (omega arith) hw
        (distance-next at write d hp hw e))
