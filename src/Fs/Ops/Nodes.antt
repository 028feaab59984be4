-- ===== src/Fs/Ops/Nodes.antt =====
-- The callbacks of src/bindfs.c that look up, create, remove and rename.
use bindfs.Base.{ℕ, ◌-◌, Option, true, false, bit_and, bit_or, ◌==◌, if◌then◌else◌}
use bindfs.Base.Errors.{eperm}
use bindfs.Base.Text.{Bytes}
use bindfs.Mode.{is_fifo, s_ifdir}
use bindfs.Permchain.Apply.{permchain_apply}
use bindfs.Fs.Settings.{Settings, Context, Stat}
use bindfs.Fs.Os.{M, Os, Peers, fail, ◌>>=◌, ◌>>◌}
use bindfs.Fs.Common.{process_path}
use bindfs.Fs.Attr.{getattr_common}
use bindfs.Fs.Create.{chown_new_file, call_chown, call_lchown}
use bindfs.Fs.Delete.{delete_file, call_unlink, call_rmdir}

module _ (os : Os) (peers : Peers os.State) (settings : Settings) (fc : Context) where
  unfoldable pub bindfs_getattr : Option Bytes → M os.State Stat
  unfolding process_path
  bindfs_getattr path = do
    real_path ← process_path os peers settings path true
    st ← os.lstat real_path
    getattr_common os peers settings fc real_path st

  -- The last byte of the buffer is for the terminator. A size of 0, which would wrap around, does not
  -- come from the kernel.
  unfoldable pub bindfs_readlink : Option Bytes → ℕ → M os.State Bytes
  bindfs_readlink path size = do
    real_path ← process_path os peers settings path true
    os.readlink real_path (size - 1)

  unfoldable pub bindfs_mknod : Option Bytes → ℕ → ℕ → M os.State (Unit {0})
  bindfs_mknod path mode rdev = do
    real_path ← process_path os peers settings path true
    let mode' = permchain_apply settings.create_permchain mode
    if is_fifo mode' then os.mkfifo real_path mode' else os.mknod real_path mode' rdev
    chown_new_file os settings fc real_path call_chown

  unfoldable pub bindfs_mkdir : Option Bytes → ℕ → M os.State (Unit {0})
  bindfs_mkdir path mode = do
    real_path ← process_path os peers settings path true
    let mode' = permchain_apply settings.create_permchain (bit_or mode s_ifdir)
    os.mkdir real_path (bit_and mode' 0o777)
    chown_new_file os settings fc real_path call_chown

  unfoldable pub bindfs_unlink : Option Bytes → M os.State (Unit {0})
  bindfs_unlink path = delete_file os peers settings path call_unlink

  unfoldable pub bindfs_rmdir : Option Bytes → M os.State (Unit {0})
  bindfs_rmdir path = delete_file os peers settings path call_rmdir

  unfoldable pub bindfs_symlink : Bytes → Option Bytes → M os.State (Unit {0})
  bindfs_symlink from to = if settings.resolve_symlinks then fail eperm else (do
    real_to ← process_path os peers settings to false
    os.symlink from real_to
    chown_new_file os settings fc real_to call_lchown)

  unfoldable pub bindfs_rename : Option Bytes → Option Bytes → ℕ → M os.State (Unit {0})
  bindfs_rename from to flags = if settings.rename_deny then fail eperm else (do
    real_from ← process_path os peers settings from false
    real_to ← process_path os peers settings to true
    if flags == 0 then os.rename real_from real_to else os.renameat2 real_from real_to flags)

  unfoldable pub bindfs_link : Option Bytes → Option Bytes → M os.State (Unit {0})
  bindfs_link from to = do
    real_from ← process_path os peers settings from true
    real_to ← process_path os peers settings to true
    os.link real_from real_to

  unfoldable pub bindfs_statfs : Option Bytes → M os.State ℕ
  bindfs_statfs path = do real_path ← process_path os peers settings path true; os.statvfs real_path
