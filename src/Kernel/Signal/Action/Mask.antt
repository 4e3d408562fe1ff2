-- ===== src/Kernel/Signal/Action/Mask.antt =====
-- `sys_sigprocmask`, bit by bit, and the range of nice values.
use scepter.Fs.Errno.{count, fail, einval}
use scepter.Kernel.{Task}
use scepter.Kernel.Signal.{sigkill, unblockable, sigstop}
use scepter.Base.Bits.{
  bit, bit-bit_and, bit-bit_or, complement, bit-complement, shl_one, bit-shl_one, bit_and-le,
}
use scepter.Kernel.Signal.Action.{
  sys_nice, sys_sigprocmask, change_mask, without, Target, bad_target, from, no_target, good_target,
}
use scepter.Base.Int.{ℤ, eqb_ℤ, pos, negsuc, ◌≤ℤ◌, ◌+ℤ◌, ltb_ℤ, ◌<ℤ◌}
use scepter.Base.{
  ℕ, Bool, ◌&&◌, ap₂, ◌^◌, arith, ◌≡◌, Bool-cases, ap, ◌||◌, not, ◌==◌, refl, ◌∙◌, ◌<◌, inr, ◌≢◌,
  inl, if◌then◌else◌, ◌⊎◌,
}

-- A bit of the mask after the call, from that bit before and in the new mask.
abbrev pub mask_bit : (how : ℤ) → (old new : Bool) → Bool
mask_bit how old new =
    if eqb_ℤ how (pos 0)
    then old || new
    else if eqb_ℤ how (pos 1)
    then old && not new
    else if eqb_ℤ how (pos 2)
    then new
    else old

abbrev pub known_how : ℤ → Bool
known_how how = eqb_ℤ how (pos 0) || eqb_ℤ how (pos 1) || eqb_ℤ how (pos 2)

bit-unblockable : (k : ℕ) → bit unblockable k ≡ (sigkill == k || sigstop == k)
bit-unblockable k =
    bit-bit_or k (shl_one sigkill) (shl_one sigstop)
    ∙ ap₂ (λ a b. a || b) (bit-shl_one k sigkill) (bit-shl_one k sigstop)

bit-without :
    (mask bits k : ℕ)
    → bits < 2 ^ 32
    → k < 32
    → bit (without mask bits) k ≡ (bit mask k && not (bit bits k))
bit-without mask bits k small hk =
    ground (arith, bit-bit_and k mask (complement 32 bits), bit-complement k 32 bits small)

-- The bits that the call may change.
abbrev pub allowed_bit : (new k : ℕ) → Bool
allowed_bit new k = bit new k && not (sigkill == k || sigstop == k)

change_mask-bit :
    (how : ℤ) (new k : ℕ) (t : Task)
    → new < 2 ^ 32
    → k < 32
    → (bit (change_mask how new t).1.blocked_mask k
        ≡ mask_bit how (bit t.blocked_mask k) (allowed_bit new k))
      × ((change_mask how new t).0 ≡ (if known_how how then count 0 else fail einval))
unfolding change_mask
change_mask-bit how new k t small hk = elim (Bool-cases (eqb_ℤ how (pos 0))) [
  | inl blocks ↦
      rw blocks
        (bit-bit_or k t.blocked_mask allowed ∙ ap (λ b. bit t.blocked_mask k || b) new_bit, refl)
  | inr not_block ↦ elim (Bool-cases (eqb_ℤ how (pos 1))) [
    | inl unblocks ↦
        rw (not_block, unblocks)
          (
            bit-without t.blocked_mask allowed k bounded hk
                ∙ ap (λ b. bit t.blocked_mask k && not b) new_bit,
            refl,
          )
    | inr not_unblock ↦ elim (Bool-cases (eqb_ℤ how (pos 2))) [
      | inl sets ↦ rw (not_block, not_unblock, sets) (new_bit, refl)
      | inr strange ↦ rw (not_block, not_unblock, strange) (refl, refl)
    ]
  ]
]
  where
    allowed : ℕ
    allowed = without new unblockable

    bounded : allowed < 2 ^ 32
    bounded = omega (arith, bit_and-le new (complement 32 unblockable))

    new_bit : bit allowed k ≡ allowed_bit new k
    new_bit =
        bit-without new unblockable k (omega arith) hk
        ∙ ap (λ b. bit new k && not b) (bit-unblockable k)

-- `sigprocmask` with a mask that can be read adds its signals to the mask, removes them, or
-- makes them the mask, but for SIGKILL and SIGSTOP, which it never adds and never removes by
-- unblocking; another `how` fails with EINVAL and changes nothing.
pub sys_sigprocmask_lem :
    (how : ℤ) (mask k : ℕ) (old : Target) (t : Task)
    → mask < 2 ^ 32
    → k < 32
    → old ≢ bad_target
    → let (ret, t', written) = sys_sigprocmask how (from mask) old t in
      (bit t'.blocked_mask k ≡ mask_bit how (bit t.blocked_mask k) (allowed_bit mask k))
      × (ret ≡ (if known_how how then count 0 else fail einval))
unfolding sys_sigprocmask
sys_sigprocmask_lem how mask k no_target t small hk good = change_mask-bit how mask k t small hk
sys_sigprocmask_lem how mask k bad_target t small hk good = absurd (good refl)
sys_sigprocmask_lem how mask k good_target t small hk good = change_mask-bit how mask k t small hk

-- `prio` is `z`, or the bound that `z` is beyond.
abbrev pub Nearest : (z prio : ℤ) → Type 0
Nearest z prio =
    (prio ≡ z) ⊎ ((z <ℤ negsuc 19) × (prio ≡ negsuc 19)) ⊎ ((pos 19 <ℤ z) × (prio ≡ pos 19))

-- `nice` returns the new priority: the sum, if it lies from -20 to 19, and the nearest of these
-- bounds if not.
sys_nice_lem :
    (inc : ℤ) (t : Task)
    → let (prio, t') = sys_nice inc t in
      (prio ≡ t'.priority)
      × (negsuc 19 ≤ℤ prio)
      × (prio ≤ℤ pos 19)
      × Nearest (t.priority +ℤ inc) prio
unfolding sys_nice
sys_nice_lem inc t =
    (refl, low (t.priority +ℤ inc), high (t.priority +ℤ inc), near (t.priority +ℤ inc))
  where
    clamp : ℤ → ℤ
    clamp prio =
        let low = if ltb_ℤ prio (negsuc 19) then negsuc 19 else prio in
        if ltb_ℤ (pos 19) low then pos 19 else low

    low : (z : ℤ) → negsuc 19 ≤ℤ clamp z
    low z = ground arith

    high : (z : ℤ) → clamp z ≤ℤ pos 19
    high z = ground arith

    near : (z : ℤ) → Nearest z (clamp z)
    near z = ground arith
