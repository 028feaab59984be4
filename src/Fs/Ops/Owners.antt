-- ===== src/Fs/Ops/Owners.antt =====
-- The callbacks of src/bindfs.c that change attributes: chmod, chown and utimens.
pub mod Chmod
pub mod Chown
use bindfs.Base.{ℕ, Option, none, some, true, ◌&&◌, ◌==◌, if◌then◌else◌}
use bindfs.Base.{bit_and, bit_xor}
use bindfs.Base.Errors.{eperm, eio}
use bindfs.Base.Text.{Bytes}
use bindfs.Mode.{is_reg}
use bindfs.Usermap.{usermap_get_uid_or_default, usermap_get_gid_or_default}
use bindfs.Usermap.Arrays.{no_id}
use bindfs.Permchain.Apply.{permchain_apply}
use bindfs.Fs.Settings.{Settings, chown_normal, chown_ignore, chown_deny, chgrp_normal}
use bindfs.Fs.Settings.{chgrp_ignore, chgrp_deny, chmod_normal, chmod_ignore, chmod_deny}
use bindfs.Fs.Os.{M, Os, Peers, pure, fail, ◌>>=◌}
use bindfs.Fs.Ids.{unapply_uid_offset, unapply_gid_offset}
use bindfs.Fs.Common.{process_path, or_fail}

-- The bits of the twelve low ones in which a request differs from a file.
unfoldable pub mode_diff : ℕ → ℕ → ℕ
mode_diff st_mode mode = bit_xor (bit_and st_mode 0o7777) (bit_and mode 0o7777)

-- `st.st_mode ^ (diff & 0111)`
unfoldable pub exec_changed : ℕ → ℕ → ℕ
exec_changed st_mode diff = bit_xor st_mode (bit_and diff 0o111)

module _ (os : Os) (peers : Peers os.State) (settings : Settings) where
  -- `st.st_mode`, `diff` and `file_execute_only`, for a regular file under --chmod-allow-x.
  unfoldable pub allowed_x : Bytes → ℕ → M os.State (Option (ℕ × ℕ))
  unfolding mode_diff
  allowed_x real_path mode =
      if settings.chmod_allow_x
      then (do
        st ← os.lstat real_path
        pure (if is_reg st.st_mode then some (st.st_mode, mode_diff st.st_mode mode) else none))
      else pure none

  -- The switch on the policy.
  unfoldable pub chmod_by_policy : Bytes → ℕ → Option (ℕ × ℕ) → M os.State (Unit {0})
  unfolding exec_changed
  chmod_by_policy real_path mode x = elim settings.chmod_policy [
    | chmod_normal ↦ os.chmod real_path (permchain_apply settings.chmod_permchain mode)
    | chmod_ignore ↦ elim x [
      | none ↦ pure tt
      | some (st_mode, diff) ↦ os.chmod real_path (exec_changed st_mode diff)
    ]
    | chmod_deny ↦ elim x [
      | none ↦ fail eperm
      | some (st_mode, diff) ↦
          if bit_and diff 0o7666 == 0 then os.chmod real_path mode else fail eperm
    ]
  ]

  unfoldable pub bindfs_chmod : Option Bytes → ℕ → M os.State (Unit {0})
  unfolding process_path allowed_x chmod_by_policy
  bindfs_chmod path mode = do
    real_path ← process_path os peers settings path true
    x ← allowed_x real_path mode
    chmod_by_policy real_path mode x

  -- The owner that is asked for, as the source directory is to have it.
  unfoldable pub asked_uid : ℕ → M os.State ℕ
  unfolding usermap_get_uid_or_default unapply_uid_offset
  asked_uid uid = if uid == no_id then pure uid else elim settings.chown_policy [
    | chown_normal ↦
        or_fail eio (
          unapply_uid_offset settings (usermap_get_uid_or_default settings.usermap_reverse uid uid))
    | chown_ignore ↦ pure no_id
    | chown_deny ↦ fail eperm
  ]

  unfoldable pub asked_gid : ℕ → M os.State ℕ
  unfolding usermap_get_gid_or_default unapply_gid_offset
  asked_gid gid = if gid == no_id then pure gid else elim settings.chgrp_policy [
    | chgrp_normal ↦
        or_fail eio (
          unapply_gid_offset settings (usermap_get_gid_or_default settings.usermap_reverse gid gid))
    | chgrp_ignore ↦ pure no_id
    | chgrp_deny ↦ fail eperm
  ]

  -- The call itself, unless both ids are unset.
  unfoldable pub chown_ids : Option Bytes → ℕ → ℕ → M os.State (Unit {0})
  unfolding process_path
  chown_ids path uid gid =
      if (uid == no_id) && (gid == no_id)
      then pure tt
      else (do real_path ← process_path os peers settings path true; os.lchown real_path uid gid)

  unfoldable pub bindfs_chown : Option Bytes → ℕ → ℕ → M os.State (Unit {0})
  unfolding asked_uid asked_gid chown_ids
  bindfs_chown path uid gid = do
    uid' ← asked_uid uid
    gid' ← asked_gid gid
    chown_ids path uid' gid'

  unfoldable pub bindfs_utimens : Option Bytes → ℕ → ℕ → M os.State (Unit {0})
  bindfs_utimens path atime mtime = do
    real_path ← process_path os peers settings path true
    os.utimensat real_path atime mtime
