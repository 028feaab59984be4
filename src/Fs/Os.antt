-- ===== src/Fs/Os.antt =====
-- The system calls that src/bindfs.c makes, over an unknown state of the operating system. A call
-- that returns -1 gives the `errno` that it sets. `filler` is the function of libfuse that takes an
-- entry of a directory; where it takes none it gives the `errno` that is left, which may be 0.
use bindfs.Base.{ℕ, List, Bool, Option}
use bindfs.Base.Errors.{Errno, Result, ok, err}
use bindfs.Base.Text.{Bytes}
use bindfs.Fs.Settings.{Stat}

-- An action of a callback: a value, or the `errno` that it returns negated, and the new state.
abbrev pub M : Type 0 → Type 0 → Type 0
M S A = S → Result A × S

abbrev pub pure : {S A : Type 0} → A → M S A
pure a s = (ok a, s)

abbrev pub fail : {S A : Type 0} → Errno → M S A
fail e s = (err e, s)

abbrev pub after : {S A B : Type 0} → Result A × S → (A → M S B) → Result B × S
after (ok a, s) f = f a s
after (err e, s) f = (err e, s)

infixl 5 ◌>>=◌ ◌>>◌
abbrev pub ◌>>=◌ : {S A B : Type 0} → M S A → (A → M S B) → M S B
◌>>=◌ m f s = after (m s) f

abbrev pub ◌>>◌ : {S A B : Type 0} → M S A → M S B → M S B
m >> k = m >>= λ _. k

-- The outcome of a call whose failure does not end the callback.
abbrev pub attempt : {S A : Type 0} → M S A → M S (Result A)
attempt m s = let (r, s') = m s in (ok r, s')

-- A call whose failure is not looked at.
abbrev pub unchecked : {S A : Type 0} → (S → A × S) → M S A
unchecked m s = let (a, s') = m s in (ok a, s')

-- R_OK, W_OK and X_OK
pub data Access : Type 0 where
  r_ok w_ok x_ok : Access

-- Where `pread` and `pwrite` find their bytes: the caller's buffer, or a mapping of some length.
pub data Buffer : Type 0 where
  caller : Buffer
  mapped : ℕ → ℕ → Buffer

-- The fields of `struct dirent` that `bindfs_readdir` reads.
pub record Dirent : Type 0 where
  pub d_name : Bytes
  pub is_link : Bool

-- What the calls of `readdir` on an open directory give: the entries, and the error that ends them.
pub record Listing : Type 0 where
  pub entries : List Dirent
  pub failure : Option Errno

pub record Os : Type 1 where
  pub State : Type 0
  pub realpath : Bytes → M State Bytes
  pub lstat : Bytes → M State Stat
  pub access : Bytes → Access → M State (Unit {0})
  pub open_file : Bytes → ℕ → ℕ → M State ℕ
  pub close : ℕ → M State (Unit {0})
  -- What the variable for the size holds after the call, which is not checked.
  pub blkgetsize64 : ℕ → State → ℕ × State
  pub chown : Bytes → ℕ → ℕ → M State (Unit {0})
  pub lchown : Bytes → ℕ → ℕ → M State (Unit {0})
  pub chmod : Bytes → ℕ → M State (Unit {0})
  pub unlink : Bytes → M State (Unit {0})
  pub rmdir : Bytes → M State (Unit {0})
  pub opendir : Bytes → M State Listing
  pub closedir : M State (Unit {0})
  pub filler : Bytes → Option Stat → M State (Unit {0})
  pub readlink : Bytes → ℕ → M State Bytes
  pub mkfifo : Bytes → ℕ → M State (Unit {0})
  pub mknod : Bytes → ℕ → ℕ → M State (Unit {0})
  pub mkdir : Bytes → ℕ → M State (Unit {0})
  pub symlink : Bytes → Bytes → M State (Unit {0})
  pub rename : Bytes → Bytes → M State (Unit {0})
  pub renameat2 : Bytes → Bytes → ℕ → M State (Unit {0})
  pub link : Bytes → Bytes → M State (Unit {0})
  pub truncate : Bytes → ℕ → M State (Unit {0})
  pub utimensat : Bytes → ℕ → ℕ → M State (Unit {0})
  pub mmap : ℕ → M State ℕ
  pub munmap : ℕ → ℕ → M State (Unit {0})
  pub pread : ℕ → Buffer → ℕ → ℕ → M State Bytes
  pub pwrite : ℕ → Buffer → Bytes → ℕ → M State ℕ
  pub lock : ℕ → ℕ → ℕ → M State (Unit {0})
  pub flock : ℕ → ℕ → M State (Unit {0})
  pub ioctl : ℕ → ℕ → ℕ → M State ℕ
  pub statvfs : Bytes → M State ℕ
  pub fsync : ℕ → M State (Unit {0})
  pub fdatasync : ℕ → M State (Unit {0})
  pub lsetxattr : Bytes → Bytes → Bytes → ℕ → M State (Unit {0})
  pub lgetxattr : Bytes → Bytes → ℕ → M State Bytes
  pub llistxattr : Bytes → ℕ → M State Bytes
  pub lremovexattr : Bytes → Bytes → M State (Unit {0})

-- What the callbacks use of src/rate_limiter.c (for reads and for writes) and of src/userinfo.c.
pub record Peers (S : Type 0) : Type 0 where
  pub wait_for_read : ℕ → M S (Unit {0})
  pub wait_for_write : ℕ → M S (Unit {0})
  pub user_belongs_to_group : ℕ → ℕ → M S Bool
