-- ===== src/Startup/Keys.antt =====
-- `process_option` of src/bindfs.c, which libfuse's parser calls for each option and argument.
use bindfs.Base.{List, [], ◌∷◌, Option, none, some, Bool, true, false, if◌then◌else◌}
use bindfs.Base.Text.{Bytes, codes, starts_with}
use bindfs.Fs.Settings.{Settings, create_as_user, create_as_mounter}
use bindfs.Fs.Settings.{chown_normal, chown_ignore, chown_deny}
use bindfs.Fs.Settings.{chgrp_normal, chgrp_ignore, chgrp_deny}
use bindfs.Fs.Settings.{chmod_normal, chmod_ignore, chmod_deny}
use bindfs.Fs.Settings.{xattr_unimplemented, xattr_read_only, xattr_read_write}
use bindfs.Startup.{Process, System}

-- `optkey_other` stands for the keys that libfuse gives to options it knows itself.
pub data OptionKey : Type 0 where
  optkey_help optkey_version optkey_fuse_version optkey_create_as_user optkey_create_as_mounter
        optkey_chown_normal optkey_chown_ignore optkey_chown_deny optkey_chgrp_normal
        optkey_chgrp_ignore optkey_chgrp_deny optkey_chmod_normal optkey_chmod_ignore
        optkey_chmod_deny optkey_chmod_allow_x optkey_xattr_none optkey_xattr_read_only
        optkey_xattr_read_write optkey_delete_deny optkey_rename_deny optkey_realistic_permissions
        optkey_ctime_from_mtime optkey_enable_lock_forwarding optkey_disable_lock_forwarding
        optkey_enable_ioctl optkey_hide_hard_links optkey_resolve_symlinks
        optkey_block_devices_as_files optkey_direct_io optkey_no_direct_io optkey_nonoption
        optkey_other :
      OptionKey

-- The function keeps the argument for `fuse_main` (1), takes it (0), fails (-1), or the process
-- exits.
pub data Processed : Type 0 where
  kept : Process → Processed
  taken : Process → Processed
  failed : Processed
  exited : Processed

-- A flag or policy of the settings.
abbrev pub set : Process → Settings → Processed
set p settings = taken (record p { settings = settings })

abbrev pub set_create_as_user : Bool → Process → Processed
set_create_as_user true p = set p (record p.settings { create_policy = create_as_user })
set_create_as_user false p = failed

abbrev pub set_mntsrc : Option Bytes → Process → Processed
set_mntsrc none p = failed
set_mntsrc (some path) p = taken (record p { mntsrc = some path })

abbrev pub set_mntdest : Option Bytes → Process → Processed
set_mntdest none p = failed
set_mntdest (some path) p =
    kept (record p { settings = record p.settings { mntdest = path }; has_mntdest = true })

-- A path below /proc/ is not resolved.
unfoldable pub source_path : System → Bytes → Option Bytes
unfolding starts_with
source_path sys arg = if starts_with arg (codes "/proc/") then some arg else sys.realpath arg

-- The first argument is the source directory, the second the mount point.
abbrev pub process_argument : System → Option Bytes → Bool → Process → Bytes → Processed
process_argument sys none has_mntdest p arg = set_mntsrc (source_path sys arg) p
process_argument sys (some mntsrc) false p arg = set_mntdest (sys.realpath arg) p
process_argument sys (some mntsrc) true p arg = failed

unfoldable pub process_option : System → OptionKey → Bytes → Process → Processed
unfolding source_path
process_option sys optkey_help arg p = exited
process_option sys optkey_version arg p = exited
process_option sys optkey_fuse_version arg p = exited
process_option sys optkey_create_as_user arg p = set_create_as_user sys.is_root p
process_option sys optkey_create_as_mounter arg p =
    set p (record p.settings { create_policy = create_as_mounter })
process_option sys optkey_chown_normal arg p =
    set p (record p.settings { chown_policy = chown_normal })
process_option sys optkey_chown_ignore arg p =
    set p (record p.settings { chown_policy = chown_ignore })
process_option sys optkey_chown_deny arg p = set p (record p.settings { chown_policy = chown_deny })
process_option sys optkey_chgrp_normal arg p =
    set p (record p.settings { chgrp_policy = chgrp_normal })
process_option sys optkey_chgrp_ignore arg p =
    set p (record p.settings { chgrp_policy = chgrp_ignore })
process_option sys optkey_chgrp_deny arg p = set p (record p.settings { chgrp_policy = chgrp_deny })
process_option sys optkey_chmod_normal arg p =
    set p (record p.settings { chmod_policy = chmod_normal })
process_option sys optkey_chmod_ignore arg p =
    set p (record p.settings { chmod_policy = chmod_ignore })
process_option sys optkey_chmod_deny arg p = set p (record p.settings { chmod_policy = chmod_deny })
process_option sys optkey_chmod_allow_x arg p = set p (record p.settings { chmod_allow_x = true })
process_option sys optkey_xattr_none arg p =
    set p (record p.settings { xattr_policy = xattr_unimplemented })
process_option sys optkey_xattr_read_only arg p =
    set p (record p.settings { xattr_policy = xattr_read_only })
process_option sys optkey_xattr_read_write arg p =
    set p (record p.settings { xattr_policy = xattr_read_write })
process_option sys optkey_delete_deny arg p = set p (record p.settings { delete_deny = true })
process_option sys optkey_rename_deny arg p = set p (record p.settings { rename_deny = true })
process_option sys optkey_realistic_permissions arg p =
    set p (record p.settings { realistic_permissions = true })
process_option sys optkey_ctime_from_mtime arg p =
    set p (record p.settings { ctime_from_mtime = true })
process_option sys optkey_enable_lock_forwarding arg p =
    taken (record p { enable_lock_forwarding = true })
process_option sys optkey_disable_lock_forwarding arg p =
    taken (record p { enable_lock_forwarding = false })
process_option sys optkey_enable_ioctl arg p = taken (record p { enable_ioctl = true })
process_option sys optkey_hide_hard_links arg p =
    set p (record p.settings { hide_hard_links = true })
process_option sys optkey_resolve_symlinks arg p =
    set p (record p.settings { resolve_symlinks = true })
process_option sys optkey_block_devices_as_files arg p =
    set p (record p.settings { block_devices_as_files = true })
process_option sys optkey_direct_io arg p = taken (record p { direct_io = true })
process_option sys optkey_no_direct_io arg p = taken (record p { direct_io = false })
process_option sys optkey_nonoption arg p = process_argument sys p.mntsrc p.has_mntdest p arg
process_option sys optkey_other arg p = kept p

-- The calls that `fuse_opt_parse` makes, one for each option that it matches with a key and one for
-- each argument; it stops at the first failure.
pub data Parsed : Type 0 where
  parsed : Process → Parsed
  parse_failed : Parsed
  parse_exited : Parsed

abbrev pub after_option : (Process → Parsed) → Processed → Parsed
after_option go (kept p) = go p
after_option go (taken p) = go p
after_option go failed = parse_failed
after_option go exited = parse_exited

unfoldable pub process_options : System → List (OptionKey × Bytes) → Process → Parsed
unfolding process_option
process_options sys [] p = parsed p
process_options sys ((key, arg) ∷ calls) p =
    after_option (λ p'. process_options sys calls p') (process_option sys key arg p)
