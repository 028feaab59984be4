-- ===== src/Fs/Ops/Xattrs.antt =====
-- The callbacks of src/bindfs.c on extended attributes, for the build with the l*xattr calls.
use bindfs.Base.{ℕ, Option, true}
use bindfs.Base.Errors.{eacces}
use bindfs.Base.Text.{Bytes}
use bindfs.Fs.Settings.{Settings, xattr_read_only}
use bindfs.Fs.Os.{M, Os, Peers, fail, ◌>>=◌}
use bindfs.Fs.Common.{process_path}

module _ (os : Os) (peers : Peers os.State) (settings : Settings) where
  unfoldable pub unless_read_only : {A : Type 0} → M os.State A → M os.State A
  unless_read_only m = elim settings.xattr_policy [ xattr_read_only ↦ fail eacces | _ ↦ m ]

  unfoldable pub bindfs_setxattr : Option Bytes → Bytes → Bytes → ℕ → M os.State (Unit {0})
  unfolding unless_read_only
  bindfs_setxattr path name value flags = unless_read_only (do
    real_path ← process_path os peers settings path true
    os.lsetxattr real_path name value flags)

  unfoldable pub bindfs_getxattr : Option Bytes → Bytes → ℕ → M os.State Bytes
  bindfs_getxattr path name size = do
    real_path ← process_path os peers settings path true
    os.lgetxattr real_path name size

  unfoldable pub bindfs_listxattr : Option Bytes → ℕ → M os.State Bytes
  bindfs_listxattr path size = do
    real_path ← process_path os peers settings path true
    os.llistxattr real_path size

  unfoldable pub bindfs_removexattr : Option Bytes → Bytes → M os.State (Unit {0})
  unfolding unless_read_only
  bindfs_removexattr path name =
      unless_read_only
        (do real_path ← process_path os peers settings path true; os.lremovexattr real_path name)
