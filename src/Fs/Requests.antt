-- ===== src/Fs/Requests.antt =====
-- The requests that src/bindfs.c serves, one for each callback, and what it does on a sequence of
-- them.
pub mod Spared
pub mod Served
pub mod Directories
pub mod Deletion
use bindfs.Base.{ℕ, List, [], ◌∷◌, Option, Bool}
use bindfs.Base.Text.{Bytes}
use bindfs.Fs.Settings.{Settings, Context}
use bindfs.Fs.Os.{M, Os, Peers, pure, ◌>>=◌}
use bindfs.Fs.Ops.Nodes.{bindfs_getattr, bindfs_readlink, bindfs_mknod, bindfs_mkdir, bindfs_unlink}
use bindfs.Fs.Ops.Nodes.{bindfs_rmdir, bindfs_symlink, bindfs_rename, bindfs_link, bindfs_statfs}
use bindfs.Fs.Ops.Owners.{bindfs_chmod, bindfs_chown, bindfs_utimens}
use bindfs.Fs.Ops.Files.{bindfs_truncate, bindfs_create, bindfs_open, bindfs_read, bindfs_write}
use bindfs.Fs.Ops.Files.{bindfs_lock, bindfs_flock, bindfs_ioctl, bindfs_release, bindfs_fsync}
use bindfs.Fs.Ops.Dirs.{bindfs_readdir}
use bindfs.Fs.Ops.Xattrs.{bindfs_setxattr, bindfs_getxattr, bindfs_listxattr, bindfs_removexattr}

pub data Request : Type 0 where
  getattr : Option Bytes → Request
  readlink : Option Bytes → ℕ → Request
  readdir : Option Bytes → Bool → Request
  mknod : Option Bytes → ℕ → ℕ → Request
  mkdir : Option Bytes → ℕ → Request
  unlink rmdir : Option Bytes → Request
  symlink : Bytes → Option Bytes → Request
  rename : Option Bytes → Option Bytes → ℕ → Request
  link : Option Bytes → Option Bytes → Request
  chmod : Option Bytes → ℕ → Request
  chown : Option Bytes → ℕ → ℕ → Request
  truncate : Option Bytes → ℕ → Request
  utimens : Option Bytes → ℕ → ℕ → Request
  create : Option Bytes → ℕ → ℕ → Request
  open_file : Option Bytes → ℕ → Request
  read : ℕ → ℕ → ℕ → ℕ → Request
  write : ℕ → ℕ → Bytes → ℕ → Request
  lock : ℕ → ℕ → ℕ → Request
  flock : ℕ → ℕ → Request
  ioctl : ℕ → ℕ → ℕ → Request
  statfs : Option Bytes → Request
  release : ℕ → Request
  fsync : Bool → ℕ → Request
  setxattr : Option Bytes → Bytes → Bytes → ℕ → Request
  getxattr : Option Bytes → Bytes → ℕ → Request
  listxattr : Option Bytes → ℕ → Request
  removexattr : Option Bytes → Bytes → Request

-- An action whose value is handed out and not looked at here.
abbrev pub served : {S A : Type 0} → M S A → M S (Unit {0})
served m = m >>= λ _. pure tt

module _ (os : Os) (peers : Peers os.State) (settings : Settings) where
  unfoldable pub serve : Context → Request → M os.State (Unit {0})
  serve fc (getattr p) = served (bindfs_getattr os peers settings fc p)
  serve fc (readlink p n) = served (bindfs_readlink os peers settings fc p n)
  serve fc (readdir p plus) = served (bindfs_readdir os peers settings fc p plus)
  serve fc (mknod p m d) = served (bindfs_mknod os peers settings fc p m d)
  serve fc (mkdir p m) = served (bindfs_mkdir os peers settings fc p m)
  serve fc (unlink p) = served (bindfs_unlink os peers settings fc p)
  serve fc (rmdir p) = served (bindfs_rmdir os peers settings fc p)
  serve fc (symlink from to) = served (bindfs_symlink os peers settings fc from to)
  serve fc (rename from to n) = served (bindfs_rename os peers settings fc from to n)
  serve fc (link from to) = served (bindfs_link os peers settings fc from to)
  serve fc (chmod p m) = served (bindfs_chmod os peers settings p m)
  serve fc (chown p u g) = served (bindfs_chown os peers settings p u g)
  serve fc (truncate p n) = served (bindfs_truncate os peers settings fc p n)
  serve fc (utimens p a m) = served (bindfs_utimens os peers settings p a m)
  serve fc (create p m n) = served (bindfs_create os peers settings fc p m n)
  serve fc (open_file p n) = served (bindfs_open os peers settings fc p n)
  serve fc (read fh n size o) = served (bindfs_read os peers settings fc fh n size o)
  serve fc (write fh n buf o) = served (bindfs_write os peers settings fc fh n buf o)
  serve fc (lock fh c l) = served (bindfs_lock os peers settings fc fh c l)
  serve fc (flock fh o) = served (bindfs_flock os peers settings fc fh o)
  serve fc (ioctl fh c a) = served (bindfs_ioctl os peers settings fc fh c a)
  serve fc (statfs p) = served (bindfs_statfs os peers settings fc p)
  serve fc (release fh) = served (bindfs_release os peers settings fc fh)
  serve fc (fsync d fh) = served (bindfs_fsync os peers settings fc d fh)
  serve fc (setxattr p n v f) = served (bindfs_setxattr os peers settings p n v f)
  serve fc (getxattr p n l) = served (bindfs_getxattr os peers settings p n l)
  serve fc (listxattr p l) = served (bindfs_listxattr os peers settings p l)
  serve fc (removexattr p n) = served (bindfs_removexattr os peers settings p n)

  -- One request after the other, whatever each of them returns.
  unfoldable pub serve_all : List (Context × Request) → os.State → os.State
  unfolding serve
  serve_all [] s = s
  serve_all ((fc, r) ∷ rs) s = serve_all rs (serve fc r s).1
