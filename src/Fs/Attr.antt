-- ===== src/Fs/Attr.antt =====
-- `getattr_common` of src/bindfs.c: the attributes of a file as the mount shows them.
pub mod Types
pub mod Shown
use bindfs.Base.{ℕ, ◌^◌, Option, none, some, Bool, false, ◌&&◌, not, ◌==◌, leb}
use bindfs.Base.{bit_and, bit_xor, if◌then◌else◌}
use bindfs.Base.Bits.{complement}
use bindfs.Base.Errors.{Result, ok, err, eio, eoverflow}
use bindfs.Base.Text.{Bytes}
use bindfs.Mode.{is_blk, s_iflnk}
use bindfs.Usermap.{usermap_get_uid_or_default, usermap_get_gid_or_default}
use bindfs.Usermap.Arrays.{no_id}
use bindfs.Permchain.Apply.{permchain_apply}
use bindfs.Fs.Settings.{Settings, Context, Stat}
use bindfs.Fs.Os.{M, Os, Peers, r_ok, w_ok, x_ok, pure, fail, ◌>>=◌, ◌>>◌, attempt, unchecked}
use bindfs.Fs.Ids.{apply_uid_offset, apply_gid_offset}
use bindfs.Fs.Common.{or_fail, is_mirroring_enabled, is_mirrored_user}

module _ (settings : Settings) where
  unfoldable pub copy_ctime : Stat → Stat
  copy_ctime st = if settings.ctime_from_mtime then record st { st_ctim = st.st_mtim } else st

  -- The owner that is shown: the map, the offset, and the owner that the options force.
  unfoldable pub shown_uid : ℕ → Option ℕ
  unfolding usermap_get_uid_or_default apply_uid_offset
  shown_uid uid =
      elim (apply_uid_offset settings (usermap_get_uid_or_default settings.usermap uid uid)) [
        | none ↦ none
        | some u ↦ some (if settings.new_uid == no_id then u else settings.new_uid)
      ]

  unfoldable pub shown_gid : ℕ → Option ℕ
  unfolding usermap_get_gid_or_default apply_gid_offset
  shown_gid gid =
      elim (apply_gid_offset settings (usermap_get_gid_or_default settings.usermap gid gid)) [
        | none ↦ none
        | some g ↦ some (if settings.new_gid == no_id then g else settings.new_gid)
      ]

  unfoldable pub hide_links : Stat → Stat
  hide_links st = if settings.hide_hard_links then record st { st_nlink = 1 } else st

-- `st_mode &= ~bits` where the mounter has no such access.
unfoldable pub drop_unless : Result (Unit {0}) → ℕ → ℕ → ℕ
drop_unless (ok _) bits mode = mode
drop_unless (err _) bits mode = bit_and mode (complement bits)

module _ (os : Os) (peers : Peers os.State) (settings : Settings) (fc : Context) where
  -- The size of a block device. The results of `ioctl` and of `close` are dropped.
  unfoldable pub device_size : Bytes → M os.State ℕ
  device_size procpath = do
    fd ← os.open_file procpath 0 0
    size ← unchecked (os.blkgetsize64 fd)
    attempt (os.close fd)
    pure size

  -- `off_t` has 63 bits for a size.
  unfoldable pub with_size : Stat → ℕ → M os.State Stat
  with_size st size =
      if leb (2 ^ 63) size
      then fail eoverflow
      else pure (record st { st_mode = bit_xor st.st_mode 0o160000; st_size = size })

  -- A block device is shown as a regular file of the device's size, if the option asks for it.
  unfoldable pub block_as_file : Bytes → Stat → M os.State Stat
  unfolding device_size with_size
  block_as_file procpath st =
      if settings.block_devices_as_files && is_blk st.st_mode
      then (do size ← device_size procpath; with_size st size)
      else pure st

  -- The three questions of --realistic-permissions.
  unfoldable pub realistic_mode : Bytes → ℕ → M os.State ℕ
  unfolding drop_unless
  realistic_mode procpath mode = do
    may_read ← attempt (os.access procpath r_ok)
    may_write ← attempt (os.access procpath w_ok)
    may_exec ← attempt (os.access procpath x_ok)
    pure
        (drop_unless may_exec 0o111 (drop_unless may_write 0o222 (drop_unless may_read 0o444 mode)))

  -- The permission bits, which a symbolic link keeps.
  unfoldable pub shown_mode : Bytes → ℕ → M os.State ℕ
  unfolding realistic_mode
  shown_mode procpath mode =
      if bit_and mode s_iflnk == s_iflnk
      then pure mode
      else let changed = permchain_apply settings.permchain mode in
        if settings.realistic_permissions then realistic_mode procpath changed else pure changed

  unfoldable pub with_shown_mode : Bytes → Stat → M os.State Stat
  unfolding shown_mode
  with_shown_mode procpath st = do
    mode ← shown_mode procpath st.st_mode
    pure (record st { st_mode = mode })

  -- What follows the question of the mirrored user.
  unfoldable pub finish_attr : Bytes → Stat → M os.State Stat
  unfolding block_as_file with_shown_mode hide_links
  finish_attr procpath st = do
    st' ← block_as_file procpath (hide_links settings st)
    with_shown_mode procpath st'

  unfoldable pub asks_mirroring : M os.State Bool
  unfolding is_mirrored_user is_mirroring_enabled
  asks_mirroring =
      if is_mirroring_enabled settings
      then is_mirrored_user os peers settings fc.uid
      else pure false

  -- A mirrored user is shown as the owner. Under --mirror-only nobody else but root has any access.
  unfoldable pub by_mirroring : Bytes → Stat → Bool → M os.State Stat
  unfolding finish_attr
  by_mirroring procpath st mirrored =
      if mirrored
      then finish_attr procpath (record st { st_uid = fc.uid })
      else if settings.mirrored_users_only && not (fc.uid == 0)
      then pure (record st { st_mode = bit_and st.st_mode (complement 0o777) })
      else finish_attr procpath st

  unfoldable pub with_owner : Stat → ℕ → ℕ → Stat
  unfolding copy_ctime
  with_owner st uid gid = record (copy_ctime settings st) { st_uid = uid; st_gid = gid }

  unfoldable pub getattr_common : Bytes → Stat → M os.State Stat
  unfolding by_mirroring asks_mirroring with_owner
  getattr_common procpath st = do
    uid ← or_fail eio (shown_uid settings st.st_uid)
    gid ← or_fail eio (shown_gid settings st.st_gid)
    mirrored ← asks_mirroring
    by_mirroring procpath (with_owner st uid gid) mirrored
