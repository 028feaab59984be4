-- ===== src/Startup/Sound/Keys.antt =====
-- The calls of `process_option` (src/bindfs.c) keep the settings sound.
use bindfs.Base.{◌≡◌, refl, sym, inl, inr, List, [], ◌∷◌, Option, none, some, Bool, true, false}
use bindfs.Base.Text.{Bytes}
use bindfs.Startup.{Process, System, OptionData}
use bindfs.Startup.Keys.{
  OptionKey, Processed, kept, taken, failed, exited, Parsed, parsed, parse_failed, parse_exited,
}
use bindfs.Startup.Keys.{
  set_create_as_user, set_mntsrc, set_mntdest, process_argument, source_path, process_option,
  after_option, process_options,
}
use bindfs.Startup.Keys.{
  optkey_help, optkey_version, optkey_fuse_version, optkey_create_as_user, optkey_create_as_mounter,
  optkey_chown_normal, optkey_chown_ignore, optkey_chown_deny, optkey_chgrp_normal,
  optkey_chgrp_ignore, optkey_chgrp_deny, optkey_chmod_normal, optkey_chmod_ignore,
  optkey_chmod_deny, optkey_chmod_allow_x, optkey_xattr_none, optkey_xattr_read_only,
  optkey_xattr_read_write, optkey_delete_deny, optkey_rename_deny, optkey_realistic_permissions,
  optkey_ctime_from_mtime, optkey_enable_lock_forwarding, optkey_disable_lock_forwarding,
  optkey_enable_ioctl, optkey_hide_hard_links, optkey_resolve_symlinks,
  optkey_block_devices_as_files, optkey_direct_io, optkey_no_direct_io, optkey_nonoption,
  optkey_other,
}
use bindfs.Startup.Sound.{IsSound}

module _ (sys : System) (od : OptionData) where
  abbrev Sound : Process → Type 0
  Sound p = IsSound sys od p.settings

  abbrev LeavesSound : Processed → Type 0
  LeavesSound (kept p) = Sound p
  LeavesSound (taken p) = Sound p
  LeavesSound failed = Unit
  LeavesSound exited = Unit

  create_as_user-Sound :
      (is_root : Bool) (p : Process)
      → is_root ≡ sys.is_root
      → Sound p
      → LeavesSound (set_create_as_user is_root p)
  create_as_user-Sound true p e (chains, alignment, pairs, offsets, ids) =
      (chains, alignment, pairs, offsets, inl (sym e))
  create_as_user-Sound false p e i = tt

  as_mounter-Sound :
      (p : Process) → Sound p → LeavesSound (process_option sys optkey_create_as_mounter [] p)
  unfolding process_option
  as_mounter-Sound p (chains, alignment, pairs, offsets, inl root) =
      (chains, alignment, pairs, offsets, inl root)
  as_mounter-Sound p (chains, alignment, pairs, offsets, inr (m, r, u, g, cu, cg, policy)) =
      (chains, alignment, pairs, offsets, inr (m, r, u, g, cu, cg, refl))

  set_mntsrc-Sound : (path : Option Bytes) (p : Process) → Sound p → LeavesSound (set_mntsrc path p)
  set_mntsrc-Sound none p i = tt
  set_mntsrc-Sound (some path) p i = i

  set_mntdest-Sound :
      (path : Option Bytes) (p : Process) → Sound p → LeavesSound (set_mntdest path p)
  set_mntdest-Sound none p i = tt
  set_mntdest-Sound (some path) p i = i

  process_argument-Sound :
      (mntsrc : Option Bytes) (has_mntdest : Bool) (p : Process) (arg : Bytes)
      → Sound p
      → LeavesSound (process_argument sys mntsrc has_mntdest p arg)
  process_argument-Sound none has_mntdest p arg i = set_mntsrc-Sound (source_path sys arg) p i
  process_argument-Sound (some mntsrc) false p arg i = set_mntdest-Sound (sys.realpath arg) p i
  process_argument-Sound (some mntsrc) true p arg i = tt

  process_option-Sound :
      (key : OptionKey) (arg : Bytes) (p : Process)
      → Sound p
      → LeavesSound (process_option sys key arg p)
  unfolding process_option
  process_option-Sound optkey_help arg p i = tt
  process_option-Sound optkey_version arg p i = tt
  process_option-Sound optkey_fuse_version arg p i = tt
  process_option-Sound optkey_create_as_user arg p i = create_as_user-Sound sys.is_root p refl i
  process_option-Sound optkey_create_as_mounter arg p i = as_mounter-Sound p i
  process_option-Sound optkey_chown_normal arg p i = i
  process_option-Sound optkey_chown_ignore arg p i = i
  process_option-Sound optkey_chown_deny arg p i = i
  process_option-Sound optkey_chgrp_normal arg p i = i
  process_option-Sound optkey_chgrp_ignore arg p i = i
  process_option-Sound optkey_chgrp_deny arg p i = i
  process_option-Sound optkey_chmod_normal arg p i = i
  process_option-Sound optkey_chmod_ignore arg p i = i
  process_option-Sound optkey_chmod_deny arg p i = i
  process_option-Sound optkey_chmod_allow_x arg p i = i
  process_option-Sound optkey_xattr_none arg p i = i
  process_option-Sound optkey_xattr_read_only arg p i = i
  process_option-Sound optkey_xattr_read_write arg p i = i
  process_option-Sound optkey_delete_deny arg p i = i
  process_option-Sound optkey_rename_deny arg p i = i
  process_option-Sound optkey_realistic_permissions arg p i = i
  process_option-Sound optkey_ctime_from_mtime arg p i = i
  process_option-Sound optkey_enable_lock_forwarding arg p i = i
  process_option-Sound optkey_disable_lock_forwarding arg p i = i
  process_option-Sound optkey_enable_ioctl arg p i = i
  process_option-Sound optkey_hide_hard_links arg p i = i
  process_option-Sound optkey_resolve_symlinks arg p i = i
  process_option-Sound optkey_block_devices_as_files arg p i = i
  process_option-Sound optkey_direct_io arg p i = i
  process_option-Sound optkey_no_direct_io arg p i = i
  process_option-Sound optkey_nonoption arg p i =
      process_argument-Sound p.mntsrc p.has_mntdest p arg i
  process_option-Sound optkey_other arg p i = i

  abbrev pub ParsedSound : Parsed → Type 0
  ParsedSound (parsed p) = Sound p
  ParsedSound parse_failed = Unit
  ParsedSound parse_exited = Unit

  after_option-Sound :
      (go : Process → Parsed) (r : Processed)
      → LeavesSound r
      → ((p : Process) → Sound p → ParsedSound (go p))
      → ParsedSound (after_option go r)
  after_option-Sound go (kept p) i k = k p i
  after_option-Sound go (taken p) i k = k p i
  after_option-Sound go failed i k = tt
  after_option-Sound go exited i k = tt

  pub process_options-Sound :
      (calls : List (OptionKey × Bytes)) (p : Process)
      → Sound p
      → ParsedSound (process_options sys calls p)
  unfolding process_options
  process_options-Sound [] p i = i
  process_options-Sound ((key, arg) ∷ calls) p i =
      after_option-Sound _ (process_option sys key arg p) (process_option-Sound key arg p i)
        λ p' i'. process_options-Sound calls p' i'
