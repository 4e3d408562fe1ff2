-- ===== src/Kernel/Kmsg.antt =====
-- kernel/kmsg.c: the ring of log bytes behind /dev/kmsg. Interrupts are off in every access.
pub mod Ring
pub mod Log
pub mod Poll
pub mod Lines
use scepter.Base.Int.{ℤ, negsuc, pos}
use scepter.Base.{
  ℕ, List, ◌∷◌, suc, false, Bool, get_or, set, ◌%◌, min, [], some, ◌+◌, none, leb, option_map,
  Option, if◌then◌else◌, zero, ◌==◌, true,
}

abbrev pub kmsg_bufsize : ℕ
kmsg_bufsize = 8192

abbrev pub newline : ℕ
newline = 10

-- `kmsg_buf`, `kmsg_write_pos` and `kmsg_read_pos`.
pub record Kmsg : Type 0 where
  pub buf : List ℕ
  pub write_pos : ℕ
  pub read_pos : ℕ

abbrev pub next_pos : ℕ → ℕ
next_pos at = (at + 1) % kmsg_bufsize

-- `kmsg_init` without the registration of the device: the buffer keeps its bytes.
unfoldable pub kmsg_init : List ℕ → Kmsg
kmsg_init memory = record { buf = memory; write_pos = 0; read_pos = 0 }

unfoldable pub kmsg_putchar : Kmsg → ℕ → Kmsg
kmsg_putchar s c =
    let next = next_pos s.write_pos in
    record {
      buf = set s.buf s.write_pos c;
      write_pos = next;
      read_pos = if next == s.read_pos then next_pos s.read_pos else s.read_pos;
    }

-- The loop of `kmsg_poll`; `none` means that the fuel ran out.
unfoldable pub poll_loop : (fuel : ℕ) → List ℕ → (write at : ℕ) → Option Bool
poll_loop zero buf write at = none
poll_loop (suc fuel) buf write at =
    let rest = poll_loop fuel buf write (next_pos at) in
    if at == write then some false else if get_or buf at 0 == newline then some true else rest

unfoldable pub kmsg_poll : Kmsg → Option Bool
kmsg_poll s = poll_loop kmsg_bufsize s.buf s.write_pos s.read_pos

-- The loop of `kmsg_read` that measures the line: `len` and `has_nl` at its end.
unfoldable pub measure_loop : (fuel : ℕ) → List ℕ → (write max at len : ℕ) → Option (ℕ × Bool)
measure_loop zero buf write max at len = none
measure_loop (suc fuel) buf write max at len =
    let rest = measure_loop fuel buf write max (next_pos at) (suc len) in
    if at == write
    then some (len, false)
    else if get_or buf at 0 == newline
    then some (suc len, true)
    else if leb max (suc len)
    then some (suc len, false)
    else rest

-- The loop that copies the line: `n` rounds, the bytes copied and the position after them.
unfoldable pub copy_loop : (n : ℕ) → List ℕ → (at : ℕ) → List ℕ × ℕ
copy_loop zero buf at = ([], at)
copy_loop (suc n) buf at =
    let (bytes, after) = copy_loop n buf (next_pos at) in (get_or buf at 0 ∷ bytes, after)

-- What `kmsg_read` does after it has measured: the bytes copied out, and the new state.
unfoldable pub read_out : Kmsg → (max : ℕ) → ℕ × Bool → List ℕ × Kmsg
read_out s max (len, false) = ([], s)
read_out s max (len, true) =
    let (bytes, after) = copy_loop (min len max) s.buf s.read_pos in
    (bytes, record s { read_pos = after })

-- `kmsg_read`; `has_buf` says that `buf` is not NULL. The call returns the number of bytes.
unfoldable pub kmsg_read : Kmsg → (has_buf : Bool) → (max : ℤ) → Option (List ℕ × Kmsg)
kmsg_read s false max = some ([], s)
kmsg_read s true (negsuc n) = some ([], s)
kmsg_read s true (pos zero) = some ([], s)
kmsg_read s true (pos (suc n)) =
    option_map (read_out s (suc n))
      (measure_loop kmsg_bufsize s.buf s.write_pos (suc n) s.read_pos 0)
