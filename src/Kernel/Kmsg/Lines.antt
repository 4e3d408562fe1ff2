-- ===== src/Kernel/Kmsg/Lines.antt =====
-- kmsg_read of kernel/kmsg.c: the line that it measures and hands out.
use scepter.Kernel.Kmsg.Poll.{has_line}
use scepter.Base.Int.{pos}
use scepter.Kernel.Kmsg.Ring.{
  IsValid, distance, bytes_from, contents, distance_zero, distance-bound, distance-suc,
  distance-next, length-bytes_from,
}
use scepter.Kernel.Kmsg.{
  newline, Kmsg, kmsg_bufsize, next_pos, measure_loop, copy_loop, kmsg_read, read_out, pos,
}
use scepter.Base.{
  ℕ, suc, ◌∷◌, ◌<◌, ◌≢◌, if◌then◌else◌, zero, refl, false, [], ◌≡◌, true, Bool, arith, some, List,
  ◌==◌, leb, take, ◌+◌, length, ap, ◌++◌, ap₂, get_or, length-append, drop, option_map, sym,
  drop-length-append, ◌∙◌, min, append_assoc,
}

-- The length that the measuring loop of kmsg_read ends with, over a list.
abbrev pub measure : (max len : ℕ) → List ℕ → ℕ × Bool
measure max len [] = (len, false)
measure max len (x ∷ xs) =
    if x == newline
    then (suc len, true)
    else if leb max (suc len)
    then (suc len, false)
    else measure max (suc len) xs

measure_loop-measure :
    (fuel : ℕ) (buf : List ℕ) (write max at len d : ℕ)
    → at < kmsg_bufsize
    → write < kmsg_bufsize
    → distance at write ≡ d
    → d < fuel
    → measure_loop fuel buf write max at len ≡ some (measure max len (bytes_from buf at d))
unfolding measure_loop
measure_loop-measure zero buf write max at len d ha hw e h = absurd (omega arith)
measure_loop-measure (suc fuel) buf write max at len zero ha hw e h =
    let same : at ≡ write = distance_zero at write ha hw e in ground arith
measure_loop-measure (suc fuel) buf write max at len (suc d) ha hw e h =
    let differ : at ≢ write = distance-suc at write d e in
    let rest =
      measure_loop-measure fuel buf write max (next_pos at) (suc len) d (omega arith) hw
        (distance-next at write d ha hw e) (omega arith) in
    ground arith

ring-measure :
    (s : Kmsg) (max : ℕ)
    → IsValid s
    → measure_loop kmsg_bufsize s.buf s.write_pos max s.read_pos 0
      ≡ some (measure max 0 (contents s))
ring-measure s max v =
    measure_loop-measure kmsg_bufsize s.buf s.write_pos max s.read_pos 0
      (distance s.read_pos s.write_pos) v.read_bound v.write_bound refl
      (distance-bound s.read_pos s.write_pos v.read_bound v.write_bound)

-- No line ends with the first byte, nor later.
has_line-cons :
    (x : ℕ) (xs : List ℕ)
    → has_line (x ∷ xs) ≡ false
    → ((x == newline) ≡ false) × (has_line xs ≡ false)
has_line-cons x xs e = ground arith

-- A line that fits is measured whole; without one, the loop finds none.
measure-line :
    (max len : ℕ) (line rest : List ℕ)
    → has_line line ≡ false
    → len + length line < max
    → measure max len (line ++ (newline ∷ rest)) ≡ (suc (len + length line), true)
measure-line max len [] rest e h = ap (λ n. (suc n, true)) (omega arith)
measure-line max len (x ∷ line) rest e h =
    let (ex, el) = has_line-cons x line e in
    let ih = measure-line max (suc len) line rest el (omega arith) in
    let same : suc (suc len + length line) ≡ suc (len + suc (length line)) = omega arith in
    ground arith

measure-none :
    (room max len : ℕ) (xs : List ℕ)
    → max ≡ len + suc room
    → has_line (take (suc room) xs) ≡ false
    → (n : ℕ) × (measure max len xs ≡ (n, false))
measure-none room max len [] h e = (len, refl)
measure-none zero max len (x ∷ xs) h e =
    let (ex, el) = has_line-cons x [] e in (suc len, ground arith)
measure-none (suc room) max len (x ∷ xs) h e =
    let (ex, el) = has_line-cons x (take (suc room) xs) e in
    let (n, ih) = measure-none room max (suc len) xs (omega arith) el in (n, ground arith)

-- The copied bytes, and where the copying stops.
copy_loop_lem :
    (n : ℕ) (buf : List ℕ) (at write d : ℕ)
    → at < kmsg_bufsize
    → write < kmsg_bufsize
    → distance at write ≡ n + d
    → (p : ℕ) × ((copy_loop n buf at ≡ (bytes_from buf at n, p))
        × ((p < kmsg_bufsize)
            × ((distance p write ≡ d)
                × (bytes_from buf at (n + d) ≡ bytes_from buf at n ++ bytes_from buf p d))))
unfolding copy_loop
copy_loop_lem zero buf at write d ha hw e =
    (at, (refl, (ha, (omega arith, ap (bytes_from buf at) (omega arith)))))
copy_loop_lem (suc n) buf at write d ha hw e =
    let (p, (ec, (hp, (ed, eb)))) =
      copy_loop_lem n buf (next_pos at) write d (omega arith) hw
        (distance-next at write (n + d) ha hw (omega arith)) in
    let total : suc n + d ≡ suc (n + d) = omega arith in
    (
      p,
      (
        ap (λ r. let (bytes, after) = r in (get_or buf at 0 ∷ bytes, after)) ec,
        (hp, (ed, ap (bytes_from buf at) total ∙ ap (◌∷◌ (get_or buf at 0)) eb)),
      ),
    )

read_out_lem :
    (s : Kmsg) (max n m p : ℕ) (line bytes : List ℕ)
    → m ≡ min n max
    → copy_loop m s.buf s.read_pos ≡ (bytes, p)
    → line ≡ bytes
    → read_out s max (n, true) ≡ (line, record s { read_pos = p })
unfolding read_out
read_out_lem s max n m p line bytes em ec el =
    ap (λ r. let (b, after) = r in (b, record s { read_pos = after }))
      (ap (λ k. copy_loop k s.buf s.read_pos) (sym em) ∙ ec)
    ∙ ap (λ b. (b, record s { read_pos = p })) (sym el)

take-length-append : (xs ys : List ℕ) → take (length xs) (xs ++ ys) ≡ xs
take-length-append [] ys = refl
take-length-append (x ∷ xs) ys = ap (◌∷◌ x) (take-length-append xs ys)

append_inj :
    (xs ys us vs : List ℕ) → length xs ≡ length us → xs ++ ys ≡ us ++ vs → (xs ≡ us) × (ys ≡ vs)
append_inj xs ys us vs hl e = (
  sym (take-length-append xs ys) ∙ ap₂ take hl e ∙ take-length-append us vs,
  sym (drop-length-append xs ys) ∙ ap₂ drop hl e ∙ drop-length-append us vs,
)

-- Where the ring starts with a line that fits into the caller's buffer, kmsg_read hands out the
-- line with its newline, and the ring keeps the rest.
pub kmsg_read-Takes :
    (s : Kmsg) (max : ℕ) (line rest : List ℕ)
    → IsValid s
    → contents s ≡ line ++ (newline ∷ rest)
    → has_line line ≡ false
    → length line < max
    → (s' : Kmsg) × ((kmsg_read s true (pos max) ≡ some (line ++ (newline ∷ []), s'))
        × ((contents s' ≡ rest) × IsValid s'))
unfolding kmsg_read
kmsg_read-Takes s zero line rest v e el h = absurd (omega arith)
kmsg_read-Takes s (suc max) line rest v e el h =
    let size : distance s.read_pos s.write_pos ≡ suc (length line) + length rest = omega (
      arith,
      length-bytes_from s.buf s.read_pos (distance s.read_pos s.write_pos),
      ap length e,
      length-append line (newline ∷ rest),
    ) in
    let (p, (ec, (hp, (ed, eb)))) =
      copy_loop_lem (suc (length line)) s.buf s.read_pos s.write_pos (length rest) v.read_bound
        v.write_bound size in
    let (eline, erest) =
      append_inj (line ++ (newline ∷ [])) rest (bytes_from s.buf s.read_pos (suc (length line)))
        (bytes_from s.buf p (length rest))
        (omega (
          arith,
          length-append line (newline ∷ []),
          length-bytes_from s.buf s.read_pos (suc (length line)),
        ))
        (append_assoc line (newline ∷ []) rest
          ∙ sym e
          ∙ ap (bytes_from s.buf s.read_pos) size
          ∙ eb) in
    let measured : measure_loop kmsg_bufsize s.buf s.write_pos (suc max) s.read_pos 0
        ≡ some (suc (0 + length line), true) =
      ring-measure s (suc max) v
      ∙ ap some
          (ap (measure (suc max) 0) e ∙ measure-line (suc max) 0 line rest el (omega arith)) in
    (
      record s { read_pos = p },
      (
        ap (option_map (read_out s (suc max))) measured
            ∙ ap some (
                read_out_lem s (suc max) (suc (0 + length line)) (suc (length line)) p
                  (line ++ (newline ∷ [])) (bytes_from s.buf s.read_pos (suc (length line)))
                  (omega arith) ec eline),
        (
          ap (bytes_from s.buf p) ed ∙ sym erest,
          record { buf_size = v.buf_size; write_bound = v.write_bound; read_bound = hp },
        ),
      ),
    )

-- Where no line ends within the size of the caller's buffer, kmsg_read ends too: it hands out
-- nothing and leaves the ring as it is.
pub kmsg_read-Waits :
    (s : Kmsg) (max : ℕ)
    → IsValid s
    → has_line (take max (contents s)) ≡ false
    → kmsg_read s true (pos max) ≡ some ([], s)
unfolding kmsg_read read_out
kmsg_read-Waits s zero v e = refl
kmsg_read-Waits s (suc max) v e =
    let (n, em) = measure-none max (suc max) 0 (contents s) (omega arith) e in
    ap (option_map (read_out s (suc max))) (ring-measure s (suc max) v ∙ ap some em)
