-- ===== src/Base/Errors.antt =====
-- What a call that can fail returns: a value, or the `errno` that the C code negates.
use Prim.Native.Nat.{ℕ}

abbrev pub Errno : Type 0
Errno = ℕ

pub data Result (A : Type 0) : Type 0 where
  ok : A → Result A
  err : Errno → Result A

-- The numbers of <errno.h> on Linux.
abbrev pub eperm : Errno
eperm = 1

abbrev pub enoent : Errno
enoent = 2

abbrev pub eio : Errno
eio = 5

abbrev pub enomem : Errno
enomem = 12

abbrev pub eacces : Errno
eacces = 13

abbrev pub einval : Errno
einval = 22

abbrev pub eoverflow : Errno
eoverflow = 75
