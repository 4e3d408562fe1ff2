-- ===== src/Fs/Errno.antt =====
-- include/errno.h: what a call returns, a count or a negated error number.
use scepter.Base.{ℕ}

pub data Errno : Type 0 where
  -- The plain -1.
  minus_one : Errno
  enoent enotdir eintr enxio ebadf eagain enomem efault einval epipe esrch : Errno

-- The int that a call returns.
pub data Ret : Type 0 where
  count : ℕ → Ret
  fail : Errno → Ret
