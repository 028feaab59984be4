-- ===== src/Startup/Modes.antt =====
-- The steps of `main` (src/bindfs.c) that set the alignment of --forward-odirect, the mirrored ids,
-- the permission rules and the policy for links.
use bindfs.Base.{ℕ, zero, suc, Option, none, some, true, if◌then◌else◌}
use bindfs.Base.Text.{Bytes, codes, bytes_eq}
use bindfs.Fs.Settings.{ResolvedSymlinkDeletion, deletion_deny}
use bindfs.Fs.Settings.{deletion_symlink_only, deletion_symlink_first, deletion_target_first}
use bindfs.Permchain.Parse.{add_chmod_rules_to_permchain}
use bindfs.Options.Mirror.{
  Mirrored, mirrored, invalid, out_of_bounds, aborted, parse_mirrored_users,
}
use bindfs.Startup.{Process, System, OptionData, Main, going, returned, crashed}
use bindfs.Startup.Ids.{Stage, with_settings, if_given, or_return, whole}

-- The alignment must be positive.
unfoldable pub set_alignment : Process → Option ℕ → Main Process
set_alignment p none = returned 1
set_alignment p (some zero) = returned 1
set_alignment p (some (suc n)) =
    going
      (with_settings p (record p.settings { forward_odirect = true; odirect_alignment = suc n }))

-- `main` returns 0 where a mirrored name is unknown.
unfoldable pub set_mirrored : Process → Mirrored → Main Process
set_mirrored p (mirrored users members) =
    going
      (with_settings p (record p.settings { mirrored_users = users; mirrored_members = members }))
set_mirrored p invalid = returned 0
set_mirrored p out_of_bounds = crashed
set_mirrored p aborted = crashed

abbrev pub mirror_only_set : Process → Process
mirror_only_set p = with_settings p (record p.settings { mirrored_users_only = true })

unfoldable pub deletion_policy : Bytes → Option ResolvedSymlinkDeletion
unfolding bytes_eq
deletion_policy value =
    if bytes_eq value (codes "deny")
    then some deletion_deny
    else if bytes_eq value (codes "symlink-only")
    then some deletion_symlink_only
    else if bytes_eq value (codes "symlink-first")
    then some deletion_symlink_first
    else if bytes_eq value (codes "target-first")
    then some deletion_target_first
    else none

unfoldable pub store_perms : Bytes → Stage
unfolding or_return add_chmod_rules_to_permchain
store_perms spec p =
    or_return (add_chmod_rules_to_permchain spec p.settings.permchain)
      λ pc. with_settings p (record p.settings { permchain = pc })

unfoldable pub store_create_with_perms : Bytes → Stage
unfolding or_return add_chmod_rules_to_permchain
store_create_with_perms spec p =
    or_return (add_chmod_rules_to_permchain spec p.settings.create_permchain)
      λ pc. with_settings p (record p.settings { create_permchain = pc })

unfoldable pub store_chmod_filter : Bytes → Stage
unfolding or_return add_chmod_rules_to_permchain
store_chmod_filter spec p =
    or_return (add_chmod_rules_to_permchain spec p.settings.chmod_permchain)
      λ pc. with_settings p (record p.settings { chmod_permchain = pc })

unfoldable pub store_deletion_policy : Bytes → Stage
unfolding or_return deletion_policy
store_deletion_policy value p =
    or_return (deletion_policy value)
      λ policy. with_settings p (record p.settings { resolved_symlink_deletion_policy = policy })

module _ (sys : System) where
  unfoldable pub store_alignment : Bytes → Stage
  unfolding set_alignment
  store_alignment value p = set_alignment p (whole (sys.strtoul value))

  -- Of --mirror and --mirror-only at most one may be given.
  unfoldable pub mirror_option : Option Bytes → Option Bytes → Stage
  unfolding parse_mirrored_users set_mirrored
  mirror_option none none p = going p
  mirror_option (some mirror) none p = set_mirrored p (parse_mirrored_users sys.db mirror)
  mirror_option none (some mirror) p =
      set_mirrored (mirror_only_set p) (parse_mirrored_users sys.db mirror)
  mirror_option (some mirror) (some mirror_only) p = returned 1

module _ (sys : System) (od : OptionData) where
  unfoldable pub set_forward_odirect : Stage
  unfolding if_given store_alignment
  set_forward_odirect = if_given od.forward_odirect (store_alignment sys)

  unfoldable pub set_mirror : Stage
  unfolding mirror_option
  set_mirror = mirror_option sys od.mirror od.mirror_only

module _ (od : OptionData) where
  unfoldable pub set_perms : Stage
  unfolding if_given store_perms
  set_perms = if_given od.perms (λ spec. store_perms spec)

  unfoldable pub set_create_with_perms : Stage
  unfolding if_given store_create_with_perms
  set_create_with_perms = if_given od.create_with_perms (λ spec. store_create_with_perms spec)

  unfoldable pub set_chmod_filter : Stage
  unfolding if_given store_chmod_filter
  set_chmod_filter = if_given od.chmod_filter (λ spec. store_chmod_filter spec)

  unfoldable pub set_deletion_policy : Stage
  unfolding if_given store_deletion_policy
  set_deletion_policy = if_given od.resolved_symlink_deletion (λ value. store_deletion_policy value)
