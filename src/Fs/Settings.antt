-- ===== src/Fs/Settings.antt =====
-- `struct Settings` of src/bindfs.c, as the callbacks read it, for the build with FUSE 3 on Linux.
use bindfs.Base.{ℕ, List, Bool}
use bindfs.Base.Int.{ℤ}
use bindfs.Base.Text.{Bytes}
use bindfs.Usermap.{UserMap}
use bindfs.Permchain.Rules.{Permchain}

pub data CreatePolicy : Type 0 where
  create_as_user create_as_mounter : CreatePolicy

pub data ChownPolicy : Type 0 where
  chown_normal chown_ignore chown_deny : ChownPolicy

pub data ChgrpPolicy : Type 0 where
  chgrp_normal chgrp_ignore chgrp_deny : ChgrpPolicy

pub data ChmodPolicy : Type 0 where
  chmod_normal chmod_ignore chmod_deny : ChmodPolicy

pub data XattrPolicy : Type 0 where
  xattr_unimplemented xattr_read_only xattr_read_write : XattrPolicy

pub data ResolvedSymlinkDeletion : Type 0 where
  deletion_deny deletion_symlink_only deletion_symlink_first deletion_target_first :
      ResolvedSymlinkDeletion

-- The fields that only `main` and the clean-up read are left out. A missing rate limiter is `false`.
-- The counts beside the two arrays of mirrored ids are the lengths of the lists.
pub record Settings : Type 0 where
  pub permchain : Permchain
  pub new_uid : ℕ
  pub new_gid : ℕ
  pub create_for_uid : ℕ
  pub create_for_gid : ℕ
  pub mntdest : Bytes
  pub usermap : UserMap
  pub usermap_reverse : UserMap
  pub read_limiter : Bool
  pub write_limiter : Bool
  pub create_policy : CreatePolicy
  pub create_permchain : Permchain
  pub chown_policy : ChownPolicy
  pub chgrp_policy : ChgrpPolicy
  pub chmod_policy : ChmodPolicy
  pub chmod_allow_x : Bool
  pub chmod_permchain : Permchain
  pub xattr_policy : XattrPolicy
  pub delete_deny : Bool
  pub rename_deny : Bool
  pub mirrored_users_only : Bool
  pub mirrored_users : List ℕ
  pub mirrored_members : List ℕ
  pub hide_hard_links : Bool
  pub resolve_symlinks : Bool
  pub block_devices_as_files : Bool
  pub resolved_symlink_deletion_policy : ResolvedSymlinkDeletion
  pub realistic_permissions : Bool
  pub ctime_from_mtime : Bool
  pub forward_odirect : Bool
  pub odirect_alignment : ℕ
  pub uid_offset : ℤ
  pub gid_offset : ℤ

-- The user and the group that a request comes from, of `struct fuse_context`.
pub record Context : Type 0 where
  pub uid : ℕ
  pub gid : ℕ

-- The fields of `struct stat` that the callbacks read or change, and the rest of it as one number.
pub record Stat : Type 0 where
  pub st_mode : ℕ
  pub st_uid : ℕ
  pub st_gid : ℕ
  pub st_nlink : ℕ
  pub st_size : ℕ
  pub st_mtim : ℕ
  pub st_ctim : ℕ
  pub st_rest : ℕ
