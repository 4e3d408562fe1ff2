-- ===== src/Kernel/Kmsg/Poll.antt =====
-- kmsg_poll of kernel/kmsg.c and the lines in the ring.
use scepter.Kernel.Kmsg.Ring.{
  distance, IsValid, contents, bytes_from, distance-bound, distance_zero, distance-suc,
  distance-next,
}
use scepter.Kernel.Kmsg.{kmsg_poll, poll_loop, kmsg_bufsize, Kmsg, newline, next_pos}
use scepter.Base.{
  ℕ, ◌==◌, ◌<◌, ◌≢◌, refl, arith, some, [], List, ◌∷◌, false, suc, true, if◌then◌else◌, zero, Bool,
  ◌≡◌,
}

-- Whether a line ends among the bytes.
abbrev pub has_line : List ℕ → Bool
has_line [] = false
has_line (x ∷ xs) = if x == newline then true else has_line xs

poll_loop-has_line :
    (fuel : ℕ) (buf : List ℕ) (write at d : ℕ)
    → at < kmsg_bufsize
    → write < kmsg_bufsize
    → distance at write ≡ d
    → d < fuel
    → poll_loop fuel buf write at ≡ some (has_line (bytes_from buf at d))
unfolding poll_loop
poll_loop-has_line zero buf write at d ha hw e h = absurd (omega arith)
poll_loop-has_line (suc fuel) buf write at zero ha hw e h =
    let same : at ≡ write = distance_zero at write ha hw e in ground arith
poll_loop-has_line (suc fuel) buf write at (suc d) ha hw e h =
    let differ : at ≢ write = distance-suc at write d e in
    let rest =
      poll_loop-has_line fuel buf write (next_pos at) d (omega arith) hw
        (distance-next at write d ha hw e) (omega arith) in
    ground arith

-- kmsg_poll always ends, and says whether the ring holds the end of a line.
kmsg_poll-has_line : (s : Kmsg) → IsValid s → kmsg_poll s ≡ some (has_line (contents s))
unfolding kmsg_poll
kmsg_poll-has_line s v =
    poll_loop-has_line kmsg_bufsize s.buf s.write_pos s.read_pos (distance s.read_pos s.write_pos)
      v.read_bound v.write_bound refl
      (distance-bound s.read_pos s.write_pos v.read_bound v.write_bound)
