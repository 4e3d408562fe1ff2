-- ===== src/Tests/Kmsg.antt =====
-- The kernel log of kernel/kmsg.c at concrete inputs.
use scepter.Kernel.Kmsg.Poll.{has_line}
use scepter.Kernel.Kmsg.Lines.{kmsg_read-Takes, kmsg_read-Waits}
use scepter.Base.Int.{pos}
use scepter.Kernel.Kmsg.Log.{kmsg_log, kmsg_log-contents, kmsg_log-IsValid, kmsg_init-IsValid}
use scepter.Kernel.Kmsg.Ring.{contents}
use scepter.Kernel.Kmsg.{kmsg_read, Kmsg, kmsg_init}
use scepter.Kernel.Kmsg.Ring.{IsValid, contents}
use scepter.Base.{
  ℕ, List, ap, ◌∷◌, refl, ◌≡◌, replicate, take, length, true, some, [], length-replicate, arith,
}

abbrev blank : List ℕ
blank = replicate 8192 0

abbrev log_bytes : List ℕ
log_bytes = 104 ∷ 105 ∷ 10 ∷ 98 ∷ []

abbrev logged : Kmsg
logged = kmsg_log (kmsg_init blank) log_bytes

blank-size : length blank ≡ 8192
blank-size = length-replicate {A = ℕ} 8192 0

logged-IsValid : IsValid logged
logged-IsValid = kmsg_log-IsValid (kmsg_init blank) log_bytes (kmsg_init-IsValid blank blank-size)

logged-contents : contents logged ≡ log_bytes
logged-contents = kmsg_log-contents blank log_bytes blank-size

kmsg_log-contents_example : contents logged ≡ log_bytes
kmsg_log-contents_example = kmsg_log-contents blank log_bytes blank-size

kmsg_read-Takes_example :
    (s' : Kmsg) × ((kmsg_read logged true (pos 80) ≡ some (104 ∷ 105 ∷ 10 ∷ [], s'))
      × ((contents s' ≡ 98 ∷ []) × IsValid s'))
kmsg_read-Takes_example =
    kmsg_read-Takes logged 80 (104 ∷ 105 ∷ []) (98 ∷ []) logged-IsValid logged-contents refl
      (omega arith)

-- The line has three bytes with its newline: a buffer of two gets nothing, again and again.
kmsg_read-Waits_example : kmsg_read logged true (pos 2) ≡ some ([], logged)
kmsg_read-Waits_example =
    kmsg_read-Waits logged 2 logged-IsValid (ap (λ xs. has_line (take 2 xs)) logged-contents)
