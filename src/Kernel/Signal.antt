-- ===== src/Kernel/Signal.antt =====
-- include/kernel/signal.h: signal numbers, masks and default actions.
pub mod Action
pub mod Send
pub mod Deliver
use scepter.Base.Bits.{shl_one}
use scepter.Base.Int.{ℤ, ltb_ℤ, pos}
use scepter.Base.{ℕ, Bool, ◌==◌, false, ◌||◌, bit_or, ◌∷◌, not, [], List}

abbrev pub nsig : ℕ
nsig = 32

abbrev pub sigkill : ℕ
sigkill = 9

abbrev pub sigalrm : ℕ
sigalrm = 14

abbrev pub sigcont : ℕ
sigcont = 18

abbrev pub sigstop : ℕ
sigstop = 19

abbrev pub sigtstp : ℕ
sigtstp = 20

abbrev pub sigttin : ℕ
sigttin = 21

abbrev pub sigttou : ℕ
sigttou = 22

abbrev pub sigvtalrm : ℕ
sigvtalrm = 26

abbrev pub sigprof : ℕ
sigprof = 27

-- SIG_DFL and SIG_IGN.
abbrev pub sig_dfl : ℕ
sig_dfl = 0

abbrev pub sig_ign : ℕ
sig_ign = 1

-- The bits of SA_NODEFER and SA_RESETHAND.
abbrev pub sa_nodefer_bit : ℕ
sa_nodefer_bit = 30

abbrev pub sa_resethand_bit : ℕ
sa_resethand_bit = 31

-- `signum < 1 || signum >= NSIG`, of an int.
abbrev pub bad_signum : ℤ → Bool
bad_signum signum = ltb_ℤ signum (pos 1) || not (ltb_ℤ signum (pos nsig))

abbrev pub any_of : ℕ → List ℕ → Bool
any_of n [] = false
any_of n (x ∷ xs) = n == x || any_of n xs

unfoldable pub sig_default_terminates : ℕ → Bool
sig_default_terminates sig = any_of sig (
    1 ∷ 2 ∷ 3 ∷ 4 ∷ 5 ∷ 6 ∷ 7 ∷ 8 ∷ 9 ∷ 10 ∷ 11 ∷ 12 ∷ 13 ∷ 14 ∷ 15 ∷ 24 ∷ 25 ∷ 26 ∷ 27 ∷ 29 ∷ 30
    ∷ 31 ∷ [])

unfoldable pub sig_default_stops : ℕ → Bool
sig_default_stops sig = sig == sigstop || sig == sigtstp || sig == sigttin || sig == sigttou

-- `(1u << SIGKILL) | (1u << SIGSTOP)`.
abbrev pub unblockable : ℕ
unblockable = bit_or (shl_one sigkill) (shl_one sigstop)
