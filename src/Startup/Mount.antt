-- ===== src/Startup/Mount.antt =====
-- `main` of src/bindfs.c: the order of its steps, the arguments and the table of operations that
-- `fuse_main` is given, and `bindfs_init`.
use bindfs.Base.{ℕ, List, [], ◌∷◌, ◌++◌, Option, none, some, Bool, true, false, not, ◌&&◌, ◌||◌}
use bindfs.Base.{ltb, if◌then◌else◌}
use bindfs.Base.Text.{Bytes, codes, bytes_eq}
use bindfs.Misc.Paths.{my_basename}
use bindfs.Misc.Texts.{contains_char}
use bindfs.Misc.OptionLists.{filter_o_opts}
use bindfs.Fs.Common.{is_mirroring_enabled}
use bindfs.Fs.Settings.{XattrPolicy, xattr_unimplemented, xattr_read_only}
use bindfs.Fs.Settings.{xattr_read_write}
use bindfs.Startup.{Process, System, OptionData, Main, going, returned, crashed, initial_process}
use bindfs.Startup.Keys.{OptionKey, Parsed, parsed, parse_failed, parse_exited, process_options}
use bindfs.Startup.Ids.{Stage, set_owner, set_group, set_read_rate, set_write_rate}
use bindfs.Startup.Ids.{
  set_map_passwd, set_map_passwd_rev, set_map_group, set_map_group_rev, set_map, set_uid_offset,
  set_gid_offset,
}
use bindfs.Startup.Ids.{set_create_for_user, set_create_for_group}
use bindfs.Startup.Modes.{set_forward_odirect, set_mirror, set_perms, set_create_with_perms}
use bindfs.Startup.Modes.{set_chmod_filter, set_deletion_policy}

-- The callbacks that `main` may take out of `bindfs_oper`.
pub record Operations : Type 0 where
  pub setxattr : Bool
  pub getxattr : Bool
  pub listxattr : Bool
  pub removexattr : Bool
  pub lock : Bool
  pub flock : Bool
  pub ioctl : Bool

abbrev pub has_xattr : XattrPolicy → Bool
has_xattr xattr_unimplemented = false
has_xattr xattr_read_only = true
has_xattr xattr_read_write = true

unfoldable pub bindfs_oper : Process → Operations
bindfs_oper p =
    let xattr = has_xattr p.settings.xattr_policy in
    record {
      setxattr = xattr;
      getxattr = xattr;
      listxattr = xattr;
      removexattr = xattr;
      lock = p.enable_lock_forwarding;
      flock = p.enable_lock_forwarding;
      ioctl = p.enable_ioctl;
    }

-- `strpbrk(mntsrc, ", \t\n") != NULL`
unfoldable pub has_special : Bytes → Bool
unfolding contains_char
has_special [] = false
has_special (c ∷ cs) = contains_char (b',' ∷ b' ' ∷ b'\t' ∷ b'\n' ∷ []) c || has_special cs

unfoldable pub fsname_args : Option Bytes → Bytes → List Bytes
unfolding has_special
fsname_args (some fsname) mntsrc = (codes "-ofsname=" ++ fsname) ∷ []
fsname_args none mntsrc = if has_special mntsrc then [] else (codes "-ofsname=" ++ mntsrc) ∷ []

-- The arguments that `main` puts behind the ones that libfuse's parser has left.
unfoldable pub added_args : System → OptionData → Bytes → Bytes → Bytes → List Bytes
unfolding fsname_args my_basename bytes_eq
added_args sys od progname mntsrc mntdest =
    (if od.multithreaded then [] else codes "-s" ∷ [])
    ++ (if od.no_allow_other then [] else codes "-oallow_other" ∷ [])
    ++ (codes "-odefault_permissions" ∷ [])
    ++ fsname_args od.fsname mntsrc
    ++ ((codes "-osubtype=" ++ my_basename progname) ∷ [])
    ++ (if bytes_eq mntsrc mntdest && ltb sys.fuse_version 30 then codes "-ononempty" ∷ [] else [])

unfoldable pub ignored_opts : List Bytes
ignored_opts =
    []
    ∷ codes "user"
    ∷ codes "nofail"
    ∷ codes "nouser"
    ∷ codes "users"
    ∷ codes "auto"
    ∷ codes "noauto"
    ∷ codes "_netdev"
    ∷ []

unfoldable pub not_among : List Bytes → Bytes → Bool
unfolding bytes_eq
not_among [] opt = true
not_among (ignored ∷ opts) opt = not (bytes_eq ignored opt) && not_among opts opt

unfoldable pub keep_option : Bytes → Bool
unfolding not_among ignored_opts
keep_option opt = not_among ignored_opts opt

unfoldable pub filter_special_opts : List Bytes → List Bytes
unfolding filter_o_opts keep_option
filter_special_opts args = filter_o_opts (λ opt. keep_option opt) args

-- What `fuse_main` is called with, and whether the user cache has been filled.
pub record Mounted : Type 0 where
  pub process : Process
  pub args : List Bytes
  pub oper : Operations
  pub cache_filled : Bool

abbrev pub after_step : {A B : Type 0} → Main A → (A → Main B) → Main B
after_step (going a) f = f a
after_step (returned status) f = returned status
after_step crashed f = crashed

unfoldable pub run_stages : List Stage → Process → Main Process
run_stages [] p = going p
run_stages (stage ∷ stages) p = after_step (stage p) λ p'. run_stages stages p'

module _ (sys : System) (od : OptionData) where
  unfoldable pub stages : List Stage
  unfolding set_owner set_group set_read_rate set_write_rate set_map_passwd set_map_passwd_rev
      set_map_group set_map_group_rev set_map set_uid_offset set_gid_offset set_create_for_user
      set_create_for_group set_forward_odirect set_mirror set_perms set_create_with_perms
      set_chmod_filter set_deletion_policy
  stages =
      set_owner sys od
      ∷ set_group sys od
      ∷ set_read_rate sys od
      ∷ set_write_rate sys od
      ∷ set_map_passwd sys od
      ∷ set_map_passwd_rev sys od
      ∷ set_map_group sys od
      ∷ set_map_group_rev sys od
      ∷ set_map sys od
      ∷ set_uid_offset sys od
      ∷ set_gid_offset sys od
      ∷ set_forward_odirect sys od
      ∷ set_create_for_user sys od
      ∷ set_create_for_group sys od
      ∷ set_mirror sys od
      ∷ set_perms od
      ∷ set_create_with_perms od
      ∷ set_chmod_filter od
      ∷ set_deletion_policy od
      ∷ []

  -- The source directory is opened; forwarded locks need several threads.
  unfoldable pub mount : Bytes → List Bytes → Bytes → Process → Main Mounted
  unfolding added_args bindfs_oper filter_special_opts is_mirroring_enabled
  mount progname args mntsrc p =
      if not (sys.can_open mntsrc)
      then returned 1
      else if p.enable_lock_forwarding && not od.multithreaded
      then returned 1
      else going (record {
        process = p;
        args = filter_special_opts (args ++ added_args sys od progname mntsrc p.settings.mntdest);
        oper = bindfs_oper p;
        cache_filled = is_mirroring_enabled p.settings;
      })

  abbrev pub with_source : Bytes → List Bytes → Option Bytes → Bool → Process → Main Mounted
  with_source progname args (some mntsrc) true p =
      after_step (run_stages stages p) λ p'. mount progname args mntsrc p'
  with_source progname args (some mntsrc) false p = returned 1
  with_source progname args none has_mntdest p = returned 1

  abbrev pub after_parse : Bytes → List Bytes → Parsed → Main Mounted
  after_parse progname args (parsed p) = with_source progname args p.mntsrc p.has_mntdest p
  after_parse progname args parse_failed = returned 1
  after_parse progname args parse_exited = returned 0

  -- `calls` and `args` are what libfuse's parser makes of the command line: the calls of
  -- `process_option` and the arguments that it leaves.
  unfoldable pub main : Bytes → List (OptionKey × Bytes) → List Bytes → Main Mounted
  unfolding process_options stages run_stages mount
  main progname calls args =
      after_parse progname args (process_options sys calls (initial_process sys))

-- `struct fuse_config` as `bindfs_init` sets it, and whether the change of directory failed.
pub record Init : Type 0 where
  pub use_ino : Bool
  pub entry_timeout : ℕ
  pub attr_timeout : ℕ
  pub negative_timeout : ℕ
  pub direct_io : Bool
  pub bindfs_init_failed : Bool

unfoldable pub bindfs_init : Process → Bool → Init
bindfs_init p fchdir_works = record {
  use_ino = true;
  entry_timeout = 0;
  attr_timeout = 0;
  negative_timeout = 0;
  direct_io = p.direct_io;
  bindfs_init_failed = not fchdir_works;
}
