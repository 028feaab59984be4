-- ===== src/Startup.antt =====
-- `main` of src/bindfs.c up to the call of `fuse_main`: the state that it fills, what it is given,
-- and how a step of it ends.
pub mod Keys
pub mod Ids
pub mod Modes
pub mod Mount
pub mod Steps
pub mod Sound
pub mod Ready
pub mod Owners
use bindfs.Base.{ℕ, List, [], Option, none, some, Bool, true, false}
use bindfs.Base.Int.{ℤ, pos}
use bindfs.Base.Text.{Bytes}
use bindfs.Usermap.{usermap_create}
use bindfs.Usermap.Arrays.{no_id}
use bindfs.Permchain.Rules.{permchain_create}
use bindfs.Userinfo.Names.{NameDb}
use bindfs.Misc.ByteCount.{Doubles}
use bindfs.Fs.Settings.{Settings, CreatePolicy, create_as_user, create_as_mounter}
use bindfs.Fs.Settings.{chown_normal, chgrp_normal, chmod_normal, xattr_read_write}
use bindfs.Fs.Settings.{deletion_symlink_only}

-- The settings of the callbacks and the fields of `struct Settings` that only `main` and
-- `bindfs_init` read. The text of the mount point stands in the settings.
pub record Process : Type 0 where
  pub settings : Settings
  pub mntsrc : Option Bytes
  pub has_mntdest : Bool
  pub enable_lock_forwarding : Bool
  pub enable_ioctl : Bool
  pub direct_io : Bool

-- What `main` is given from outside: the ids of the process, the file system, the databases and the
-- C library's readers of numbers.
pub record System : Type 1 where
  pub is_root : Bool
  pub realpath : Bytes → Option Bytes
  pub can_open : Bytes → Bool
  pub open_lines : Bytes → Option (List Bytes)
  pub db : NameDb
  pub doubles : Doubles
  pub strtoll : Bytes → ℤ × Bytes
  pub strtoul : Bytes → ℕ × Bytes
  pub fuse_version : ℕ

-- `struct OptionData`, as libfuse's parser fills it.
pub record OptionData : Type 0 where
  pub user : Option Bytes
  pub deprecated_user : Option Bytes
  pub group : Option Bytes
  pub deprecated_group : Option Bytes
  pub perms : Option Bytes
  pub mirror : Option Bytes
  pub mirror_only : Option Bytes
  pub map : Option Bytes
  pub map_passwd : Option Bytes
  pub map_group : Option Bytes
  pub map_passwd_rev : Option Bytes
  pub map_group_rev : Option Bytes
  pub read_rate : Option Bytes
  pub write_rate : Option Bytes
  pub create_for_user : Option Bytes
  pub create_for_group : Option Bytes
  pub create_with_perms : Option Bytes
  pub chmod_filter : Option Bytes
  pub resolved_symlink_deletion : Option Bytes
  pub no_allow_other : Bool
  pub multithreaded : Bool
  pub forward_odirect : Option Bytes
  pub uid_offset : Option Bytes
  pub gid_offset : Option Bytes
  pub fsname : Option Bytes

-- The assignments at the top of `main`.
abbrev default_policy : Bool → CreatePolicy
default_policy true = create_as_user
default_policy false = create_as_mounter

unfoldable pub initial_process : System → Process
unfolding usermap_create permchain_create
initial_process sys = record {
  settings = record {
    permchain = permchain_create;
    new_uid = no_id;
    new_gid = no_id;
    create_for_uid = no_id;
    create_for_gid = no_id;
    mntdest = [];
    usermap = usermap_create;
    usermap_reverse = usermap_create;
    read_limiter = false;
    write_limiter = false;
    create_policy = default_policy sys.is_root;
    create_permchain = permchain_create;
    chown_policy = chown_normal;
    chgrp_policy = chgrp_normal;
    chmod_policy = chmod_normal;
    chmod_allow_x = false;
    chmod_permchain = permchain_create;
    xattr_policy = xattr_read_write;
    delete_deny = false;
    rename_deny = false;
    mirrored_users_only = false;
    mirrored_users = [];
    mirrored_members = [];
    hide_hard_links = false;
    resolve_symlinks = false;
    block_devices_as_files = false;
    resolved_symlink_deletion_policy = deletion_symlink_only;
    realistic_permissions = false;
    ctime_from_mtime = false;
    forward_odirect = false;
    odirect_alignment = 0;
    uid_offset = pos 0;
    gid_offset = pos 0;
  };
  mntsrc = none;
  has_mntdest = false;
  enable_lock_forwarding = false;
  enable_ioctl = false;
  direct_io = false;
}

-- A step of `main` goes on, returns a status from `main`, or leaves the behaviour that C defines.
pub data Main (A : Type 0) : Type 0 where
  going : A → Main A
  returned : ℕ → Main A
  crashed : Main A
